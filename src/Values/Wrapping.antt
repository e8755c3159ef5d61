-- ===== src/Values/Wrapping.antt =====
-- cpptools/utility/wrapping_value.hpp, with `int` for the value and for every operand.
use cpp_tools.Base.{
  ℕ, ◌+◌, ◌*◌, ◌/◌, ◌%◌, ◌<◌, ◌≡◌, ◌⊎◌, inl, inr, refl, sym, ap, ◌∙◌, suc, arith, if◌then◌else◌,
  Bool-cases,
}
use native.Mathlib.Nat.{mod-add-div', mod-lt}
use cpp_tools.Base.Result.{Result, ok, ◌>>=◌}
use cpp_tools.Base.Int.{
  ℤ, pos, negsuc, plus_part, minus_part, ◌+ℤ◌, ◌-ℤ◌, ◌≤ℤ◌, ◌<ℤ◌, ltb_ℤ, remainder, in_int, int_min,
  int_max, +ℤ-parts, -ℤ-parts, difference_zero, one_part_zero, eq_of_parts,
}

module _ (min ex_max : ℤ) where
  -- `Range`, which is positive.
  abbrev pub range : ℕ
  range = plus_part (ex_max -ℤ min)

  -- `_constrain`: the remainder of a negative number is negative or zero.
  unfoldable pub constrain : ℤ → Result ℤ
  constrain v = do
    d ← in_int (v -ℤ min)
    let rest = remainder d range
    in_int (rest +ℤ (if ltb_ℤ rest (pos 0) then ex_max else min))

  unfoldable pub add_assign : ℤ → ℤ → Result ℤ
  add_assign value v = do s ← in_int (value +ℤ v); constrain s

  unfoldable pub sub_assign : ℤ → ℤ → Result ℤ
  sub_assign value v = do s ← in_int (value -ℤ v); constrain s

  -- `operator-(V left, const wrapping_value& right)` returns `right - left`.
  unfoldable pub sub_from : ℤ → ℤ → Result ℤ
  unfolding sub_assign
  sub_from left right = sub_assign right left

  -- `r` is within the bounds and differs from `v` by a multiple of the range.
  abbrev pub Wraps : ℤ → ℤ → Type 0
  Wraps v r =
      (min ≤ℤ r)
      × (r <ℤ ex_max)
      × (k : ℕ) × ((v ≡ r +ℤ pos (k * range)) ⊎ (r ≡ v +ℤ pos (k * range)))

-- A number and its remainder differ by a multiple of the divisor, in the direction of zero.
remainder-cases :
    (x : ℤ) (n : ℕ)
    → 0 < n
    → (q : ℕ) × (((minus_part x ≡ 0)
          × (minus_part (remainder x n) ≡ 0)
          × (plus_part x ≡ plus_part (remainder x n) + q * n)
          × (plus_part (remainder x n) < n))
        ⊎ ((plus_part x ≡ 0)
            × (plus_part (remainder x n) ≡ 0)
            × (minus_part x ≡ minus_part (remainder x n) + q * n)
            × (minus_part (remainder x n) < n)))
unfolding remainder
remainder-cases (pos k) n h = (k / n, inl (refl, refl, sym (mod-add-div' k n), mod-lt k h))
remainder-cases (negsuc k) n h =
    let (none, all) = difference_zero (suc k % n) in
    (
      suc k / n,
      inr (
        refl,
        none,
        sym (mod-add-div' (suc k) n) ∙ ap (λ m. m + suc k / n * n) (sym all),
        rw all (mod-lt (suc k) h),
      ),
    )

in_int-ok : (x : ℤ) → int_min ≤ℤ x → x ≤ℤ int_max → in_int x ≡ ok x
in_int-ok x above below = ground arith

module _ (min ex_max : ℤ) (ordered : min <ℤ ex_max) where
  range_lem :
      (0 < range min ex_max)
      × (plus_part ex_max + minus_part min ≡ minus_part ex_max + plus_part min + range min ex_max)
  range_lem =
      let parts = -ℤ-parts ex_max min in
      elim (one_part_zero (ex_max -ℤ min)) [
        | inl none ↦ absurd (omega (arith, parts))
        | inr none ↦ (omega (arith, parts), omega (arith, parts))
      ]

  -- A negative remainder is moved up from the exclusive bound.
  Wraps-below :
      (v rest : ℤ) (q : ℕ)
      → plus_part rest ≡ 0
      → minus_part rest < range min ex_max
      → 0 < minus_part rest
      → plus_part (v -ℤ min) ≡ 0
      → minus_part (v -ℤ min) ≡ minus_part rest + q * range min ex_max
      → Wraps min ex_max v (rest +ℤ ex_max)
  Wraps-below v rest q a b c d e =
      let n = range min ex_max in
      let total = +ℤ-parts rest ex_max in
      let apart = -ℤ-parts v min in
      let moved = +ℤ-parts v (pos (suc q * n)) in
      let (positive, size) = range_lem in
      (
        omega (arith, total),
        omega (arith, total),
        suc q,
        inr (
            eq_of_parts (rest +ℤ ex_max) (v +ℤ pos (suc q * n))
              (omega (arith, total, apart, moved, size))),
      )

  -- Any other remainder is moved up from the lower bound.
  Wraps-above :
      (v rest : ℤ) (q : ℕ)
      → minus_part rest ≡ 0
      → plus_part rest < range min ex_max
      → minus_part (v -ℤ min) ≡ 0
      → plus_part (v -ℤ min) ≡ plus_part rest + q * range min ex_max
      → Wraps min ex_max v (rest +ℤ min)
  Wraps-above v rest q a b d e =
      let n = range min ex_max in
      let total = +ℤ-parts rest min in
      let apart = -ℤ-parts v min in
      let moved = +ℤ-parts (rest +ℤ min) (pos (q * n)) in
      let (positive, size) = range_lem in
      (
        omega (arith, total),
        omega (arith, total, size),
        q,
        inl (eq_of_parts v (rest +ℤ min +ℤ pos (q * n)) (omega (arith, total, apart, moved, size))),
      )

  -- A negative number that the range divides has no remainder.
  Wraps-exact :
      (v rest : ℤ) (q : ℕ)
      → plus_part rest ≡ 0
      → minus_part rest ≡ 0
      → plus_part (v -ℤ min) ≡ 0
      → minus_part (v -ℤ min) ≡ q * range min ex_max
      → Wraps min ex_max v (rest +ℤ min)
  Wraps-exact v rest q a b d e =
      let n = range min ex_max in
      let total = +ℤ-parts rest min in
      let apart = -ℤ-parts v min in
      let moved = +ℤ-parts v (pos (q * n)) in
      let (positive, size) = range_lem in
      (
        omega (arith, total),
        omega (arith, total, size),
        q,
        inr (
            eq_of_parts (rest +ℤ min) (v +ℤ pos (q * n))
              (omega (arith, total, apart, moved, size))),
      )

  remainder-Wraps :
      (v : ℤ)
      → (let rest = remainder (v -ℤ min) (range min ex_max) in
          Wraps min ex_max v (rest +ℤ (if ltb_ℤ rest (pos 0) then ex_max else min)))
  remainder-Wraps v =
      let n = range min ex_max in
      let rest = remainder (v -ℤ min) n in
      let (q, parts) = remainder-cases (v -ℤ min) n range_lem.0 in
      elim (Bool-cases (ltb_ℤ rest (pos 0))) [
        | inl below ↦ elim parts [
          | inl (a, b, c, d) ↦ absurd (ground (arith, below, b))
          | inr (a, b, c, d) ↦ rw below (Wraps-below v rest q b d (ground (arith, below)) a c)
        ]
        | inr above ↦ elim parts [
          | inl (a, b, c, d) ↦ rw above (Wraps-above v rest q b d a c)
          | inr (a, b, c, d) ↦
              let no_rest : minus_part rest ≡ 0 = ground (arith, above, b) in
              rw above (Wraps-exact v rest q b no_rest a (omega (arith, c, no_rest)))
        ]
      ]

  -- For bounds that an `int` holds, and a value whose distance from the lower bound does not overflow,
  -- `_constrain` returns a value at or above the lower bound and below the upper one, which differs from the
  -- given one by a multiple of the range.
  pub constrain-Wraps :
      (v : ℤ)
      → int_min ≤ℤ min
      → ex_max ≤ℤ int_max
      → int_min ≤ℤ (v -ℤ min)
      → (v -ℤ min) ≤ℤ int_max
      → (r : ℤ) × (constrain min ex_max v ≡ ok r) × Wraps min ex_max v r
  unfolding constrain
  constrain-Wraps v low high near far =
      let rest = remainder (v -ℤ min) (range min ex_max) in
      let r = rest +ℤ (if ltb_ℤ rest (pos 0) then ex_max else min) in
      let (above, below, _, _) = remainder-Wraps v in
      (
        r,
        rw (in_int-ok (v -ℤ min) near far) (in_int-ok r (omega arith) (omega arith)),
        remainder-Wraps v,
      )
