-- ===== src/Base/Int.antt =====
-- `int` and the mathematical integers, over the native numbers. The library's ℤ stands on another ℕ.
use Prim.Native.Nat.{ℕ, zero, suc, ◌+◌, ◌-◌, ◌%◌, ◌^◌, ◌≤◌, ◌<◌}
use mathlib.Core.Path.{◌≡◌, refl}
use mathlib.Core.Logic.{◌⊎◌, inl, inr}
use mathlib.Core.Bool.{Bool}
use native.Mathlib.Omega.{arith}
use cpp_tools.Base.Tests.{Bool-cases, ltb, leb, if◌then◌else◌}
use cpp_tools.Base.Result.{Result, ok, fault}

pub data ℤ : Type 0 where
  pos : ℕ → ℤ
  negsuc : ℕ → ℤ

-- An integer is the difference of these two, one of which is zero.
abbrev pub plus_part : ℤ → ℕ
plus_part (negsuc k) = zero
plus_part (pos k) = k

abbrev pub minus_part : ℤ → ℕ
minus_part (negsuc k) = suc k
minus_part (pos k) = zero

abbrev pub difference : ℕ → ℕ → ℤ
difference m zero = pos m
difference zero (suc n) = negsuc n
difference (suc m) (suc n) = difference m n

infixl 65 ◌+ℤ◌ ◌-ℤ◌
infix 50 ◌≤ℤ◌ ◌<ℤ◌
unfoldable pub ◌+ℤ◌ : ℤ → ℤ → ℤ
x +ℤ y = difference (plus_part x + plus_part y) (minus_part x + minus_part y)

unfoldable pub ◌-ℤ◌ : ℤ → ℤ → ℤ
x -ℤ y = difference (plus_part x + minus_part y) (minus_part x + plus_part y)

abbrev pub ◌≤ℤ◌ : ℤ → ℤ → Type 0
x ≤ℤ y = plus_part x + minus_part y ≤ minus_part x + plus_part y

abbrev pub ◌<ℤ◌ : ℤ → ℤ → Type 0
x <ℤ y = plus_part x + minus_part y < minus_part x + plus_part y

abbrev pub ltb_ℤ : ℤ → ℤ → Bool
ltb_ℤ x y = ltb (plus_part x + minus_part y) (minus_part x + plus_part y)

abbrev pub leb_ℤ : ℤ → ℤ → Bool
leb_ℤ x y = leb (plus_part x + minus_part y) (minus_part x + plus_part y)

-- `%`, which takes the sign of the dividend.
unfoldable pub remainder : ℤ → ℕ → ℤ
remainder (pos k) n = pos (k % n)
remainder (negsuc k) n = difference 0 (suc k % n)

difference-parts : (m n : ℕ) → plus_part (difference m n) + n ≡ minus_part (difference m n) + m
difference-parts m zero = omega arith
difference-parts zero (suc n) = omega arith
difference-parts (suc m) (suc n) = omega (arith, difference-parts m n)

pub difference_zero : (m : ℕ) → (plus_part (difference 0 m) ≡ 0) × (minus_part (difference 0 m) ≡ m)
difference_zero zero = (refl, refl)
difference_zero (suc m) = (refl, refl)

pub one_part_zero : (x : ℤ) → (plus_part x ≡ 0) ⊎ (minus_part x ≡ 0)
one_part_zero (pos k) = inr refl
one_part_zero (negsuc k) = inl refl

pub eq_of_parts : (x y : ℤ) → plus_part x + minus_part y ≡ minus_part x + plus_part y → x ≡ y
eq_of_parts x y e = ground arith

pub +ℤ-parts :
    (x y : ℤ)
    → plus_part (x +ℤ y) + (minus_part x + minus_part y)
      ≡ minus_part (x +ℤ y) + (plus_part x + plus_part y)
unfolding ◌+ℤ◌
+ℤ-parts x y = difference-parts (plus_part x + plus_part y) (minus_part x + minus_part y)

pub -ℤ-parts :
    (x y : ℤ)
    → plus_part (x -ℤ y) + (minus_part x + plus_part y)
      ≡ minus_part (x -ℤ y) + (plus_part x + minus_part y)
unfolding ◌-ℤ◌
-ℤ-parts x y = difference-parts (plus_part x + minus_part y) (minus_part x + plus_part y)

-- The values of a 32-bit `int`.
abbrev pub int_min : ℤ
int_min = negsuc (2 ^ 31 - 1)

abbrev pub int_max : ℤ
int_max = pos (2 ^ 31 - 1)

-- The result of an operation on `int`: overflow is undefined.
abbrev pub in_int : ℤ → Result ℤ
in_int x = if ltb_ℤ x int_min then fault else if ltb_ℤ int_max x then fault else ok x

pub in_int-range :
    (x : ℤ)
    → ((in_int x ≡ ok x) × (int_min ≤ℤ x) × (x ≤ℤ int_max))
      ⊎ ((in_int x ≡ fault) × ((x <ℤ int_min) ⊎ (int_max <ℤ x)))
in_int-range x = elim (Bool-cases (ltb_ℤ x int_min)) [
  | inl below ↦ inr (rw below, inl (ground arith))
  | inr at_least ↦ elim (Bool-cases (ltb_ℤ int_max x)) [
    | inl above ↦ inr (rw (at_least, above), inr (ground arith))
    | inr at_most ↦ inl (rw (at_least, at_most), ground arith, ground arith)
  ]
]
