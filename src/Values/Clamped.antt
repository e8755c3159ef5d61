-- ===== src/Values/Clamped.antt =====
-- cpptools/utility/clamped_value.hpp, with `int` for the value and for every operand.
use cpp_tools.Base.{refl, arith, ◌≡◌, inl, inr, ◌⊎◌, if◌then◌else◌}
use cpp_tools.Base.Result.{fault, Result, ok, ◌>>=◌}
use cpp_tools.Base.Int.{in_int-range, int_min, int_max, ◌<ℤ◌, ℤ, ◌+ℤ◌, ◌-ℤ◌, ◌≤ℤ◌, ltb_ℤ, in_int}

-- `std::clamp`
abbrev pub clamp : ℤ → ℤ → ℤ → ℤ
clamp v lo hi = if ltb_ℤ v lo then lo else if ltb_ℤ hi v then hi else v

module _ (min max : ℤ) where
  -- `_constrain`, which every constructor and assignment goes through.
  unfoldable pub constrain : ℤ → ℤ
  constrain v = clamp v min max

  unfoldable pub add_assign : ℤ → ℤ → Result ℤ
  add_assign value v = do s ← in_int (value +ℤ v); ok (constrain s)

  unfoldable pub sub_assign : ℤ → ℤ → Result ℤ
  sub_assign value v = do s ← in_int (value -ℤ v); ok (constrain s)

  -- `operator-(V left, const clamped_value& right)` returns `right - left`.
  unfoldable pub sub_from : ℤ → ℤ → Result ℤ
  unfolding sub_assign
  sub_from left right = sub_assign right left

  -- `_constrain` returns a value within the bounds, which lies between the value that it was given and
  -- any other value within the bounds.
  pub constrain-nearest :
      (v x : ℤ)
      → min ≤ℤ max
      → min ≤ℤ x
      → x ≤ℤ max
      → (min ≤ℤ constrain v)
        × (constrain v ≤ℤ max)
        × (((x ≤ℤ v) × (x ≤ℤ constrain v) × (constrain v ≤ℤ v))
            ⊎ ((v ≤ℤ x) × (v ≤ℤ constrain v) × (constrain v ≤ℤ x)))
  unfolding constrain
  constrain-nearest v x ordered above below = ground arith

  -- For ordered bounds and any value `x` within them: either the sum is an `int`, and `+=` returns a value
  -- within the bounds, which lies between the sum and `x`; or the sum is no `int`, and `+=` is undefined.
  pub add_assign-bounded :
      (value v x : ℤ)
      → min ≤ℤ max
      → min ≤ℤ x
      → x ≤ℤ max
      → ((r : ℤ) × (add_assign value v ≡ ok r)
          × (int_min ≤ℤ (value +ℤ v))
          × ((value +ℤ v) ≤ℤ int_max)
          × (min ≤ℤ r)
          × (r ≤ℤ max)
          × (((x ≤ℤ (value +ℤ v)) × (x ≤ℤ r) × (r ≤ℤ (value +ℤ v)))
              ⊎ (((value +ℤ v) ≤ℤ x) × ((value +ℤ v) ≤ℤ r) × (r ≤ℤ x))))
        ⊎ ((add_assign value v ≡ fault) × ((value +ℤ v <ℤ int_min) ⊎ (int_max <ℤ value +ℤ v)))
  unfolding add_assign
  add_assign-bounded value v x ordered above below = elim (in_int-range (value +ℤ v)) [
    | inl (fits, low, high) ↦
        let (at_least, at_most, near) = constrain-nearest (value +ℤ v) x ordered above below in
        inl (constrain (value +ℤ v), rw fits refl, low, high, at_least, at_most, near)
    | inr (over, why) ↦ inr (rw over refl, why)
  ]
