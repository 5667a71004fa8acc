-- ===== src/Common/Faults.antt =====
-- The outcome of code that reads an array or that loops.

-- `out_of_bounds` is an access outside an array, `panicked` a call of `panic`, and `out_of_fuel` a loop
-- that was given too few rounds or that spins.
pub data Outcome {ℓ} (A : Type ℓ) : Type ℓ where
  done : A → Outcome A
  out_of_bounds : Outcome A
  panicked : Outcome A
  out_of_fuel : Outcome A

infixl 5 ◌>>=◌
abbrev pub ◌>>=◌ {ℓ κ} : {A : Type ℓ} {B : Type κ} → Outcome A → (A → Outcome B) → Outcome B
done a >>= f = f a
out_of_bounds >>= f = out_of_bounds
panicked >>= f = panicked
out_of_fuel >>= f = out_of_fuel
