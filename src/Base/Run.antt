-- ===== src/Base/Run.antt =====
-- What a call that may throw ends in: a value, an exception, undefined behaviour, or a loop that has used
-- up the rounds it was given.
use mathlib.Core.Path.{◌≡◌}
use cpp_tools.Base.Result.{Result, fault, out_of_fuel, ok}

pub data Run {ℓ κ} (E : Type ℓ) (A : Type κ) : Type (ℓ ⊔ κ) where
  done : A → Run E A
  throws : E → Run E A
  undefined : Run E A
  no_fuel : Run E A

module _ {ℓ κ} {E : Type ℓ} {A B : Type κ} where
  infixl 5 ◌>>=◌
  abbrev pub ◌>>=◌ : Run E A → (A → Run E B) → Run E B
  throws e >>= next = throws e
  undefined >>= next = undefined
  no_fuel >>= next = no_fuel
  done value >>= next = next value

module _ {ℓ κ} {E : Type ℓ} {A : Type κ} where
  -- A call that does not throw.
  abbrev pub of_result : Result A → Run E A
  of_result fault = undefined
  of_result out_of_fuel = no_fuel
  of_result (ok value) = done value

  pub eq_of_done : {a b : A} → ◌≡◌ {A = Run E A} (done a) (done b) → a ≡ b
  eq_of_done e = cc
