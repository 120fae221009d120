-- ===== src/Royalties/Outcome.antt =====
-- royalties/calculator.py: what a calculation returns or raises.
use ugsync.Prelude.{Bool, if◌then◌else◌}

pub data RoyaltyError : Type 0 where
  split_invalid : RoyaltyError  -- SplitValidationError
  underflowed : RoyaltyError  -- ArithmeticError: "rounding unexpectedly underflowed"
  invalid_operation : RoyaltyError  -- decimal.InvalidOperation: a quantized amount beyond 28 digits
  total_not_preserved : RoyaltyError  -- ArithmeticError: "did not preserve the gross total"

pub data Outcome (A : Type 0) : Type 0 where
  ok : A → Outcome A
  err : RoyaltyError → Outcome A

infixl 5 ◌>>=◌ ◌>>◌
abbrev pub ◌>>=◌ : {A B : Type 0} → Outcome A → (A → Outcome B) → Outcome B
ok a >>= f = f a
err e >>= f = err e

abbrev pub ◌>>◌ : {A B : Type 0} → Outcome A → Outcome B → Outcome B
m >> k = m >>= λ _. k

abbrev pub raise_if : Bool → RoyaltyError → Outcome (Unit {0})
raise_if b e = if b then err e else ok tt
