-- ===== src/Values/Tests.antt =====
-- Runs of the bounded values, and their theorems at concrete bounds.
use cpp_tools.Base.{◌≡◌, ◌⊎◌, refl, arith}
use cpp_tools.Base.Result.{ok, fault}
use cpp_tools.Base.Int.{ℤ, pos, negsuc, ◌≤ℤ◌, ◌<ℤ◌, ◌+ℤ◌, ◌-ℤ◌, int_min, int_max, remainder}
use cpp_tools.Values.Clamped as Clamped
use cpp_tools.Values.Wrapping as Wrapping

-- Five minus a clamped three is what three minus five is.
reversed_difference : Clamped.sub_from (negsuc 9) (pos 10) (pos 5) (pos 3) ≡ ok (negsuc 1)
unfolding Clamped.sub_from Clamped.constrain ◌-ℤ◌
reversed_difference = refl

wraps_around : Wrapping.constrain (pos 0) (pos 10) (negsuc 2) ≡ ok (pos 7)
unfolding Wrapping.constrain ◌-ℤ◌ ◌+ℤ◌ remainder
wraps_around = refl

add_assign-bounded_example :
    ((r : ℤ) × (Clamped.add_assign (negsuc 9) (pos 10) (pos 8) (pos 5) ≡ ok r)
      × (int_min ≤ℤ (pos 8 +ℤ pos 5))
      × ((pos 8 +ℤ pos 5) ≤ℤ int_max)
      × (negsuc 9 ≤ℤ r)
      × (r ≤ℤ pos 10)
      × (((pos 3 ≤ℤ (pos 8 +ℤ pos 5)) × (pos 3 ≤ℤ r) × (r ≤ℤ (pos 8 +ℤ pos 5)))
          ⊎ (((pos 8 +ℤ pos 5) ≤ℤ pos 3) × ((pos 8 +ℤ pos 5) ≤ℤ r) × (r ≤ℤ pos 3))))
    ⊎ ((Clamped.add_assign (negsuc 9) (pos 10) (pos 8) (pos 5) ≡ fault)
        × ((pos 8 +ℤ pos 5 <ℤ int_min) ⊎ (int_max <ℤ pos 8 +ℤ pos 5)))
add_assign-bounded_example =
    Clamped.add_assign-bounded (negsuc 9) (pos 10) (pos 8) (pos 5) (pos 3) (omega arith)
      (omega arith) (omega arith)

near : int_min ≤ℤ (negsuc 2 -ℤ pos 0)
unfolding ◌-ℤ◌
near = omega arith

far : (negsuc 2 -ℤ pos 0) ≤ℤ int_max
unfolding ◌-ℤ◌
far = omega arith

constrain-Wraps_example :
    (r : ℤ) × (Wrapping.constrain (pos 0) (pos 10) (negsuc 2) ≡ ok r)
    × Wrapping.Wraps (pos 0) (pos 10) (negsuc 2) r
constrain-Wraps_example =
    Wrapping.constrain-Wraps (pos 0) (pos 10) (omega arith) (negsuc 2) (omega arith) (omega arith)
      near far
