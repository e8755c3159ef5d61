-- ===== src/Base/Result.antt =====
-- What a call can end in: a value, undefined behaviour (a null or dangling pointer, an index out of
-- range), or a loop that has used up the rounds it was given.
use mathlib.Core.Path.{◌≡◌, refl}
use mathlib.Core.Option.{Option, none, some}

pub data Result {ℓ} (A : Type ℓ) : Type ℓ where
  fault : Result A
  out_of_fuel : Result A
  ok : A → Result A

module _ {ℓ κ} {A : Type ℓ} {B : Type κ} where
  infixl 5 ◌>>=◌
  -- A call is followed by the next only where it has returned.
  abbrev pub ◌>>=◌ : Result A → (A → Result B) → Result B
  fault >>= next = fault
  out_of_fuel >>= next = out_of_fuel
  ok value >>= next = next value

module _ {ℓ} {A : Type ℓ} where
  -- A value that has to be there.
  abbrev pub of_option : Option A → Result A
  of_option none = fault
  of_option (some value) = ok value

  pub bind-ok : (r : Result A) → (r >>= λ a. ok a) ≡ r
  bind-ok fault = refl
  bind-ok out_of_fuel = refl
  bind-ok (ok value) = refl
