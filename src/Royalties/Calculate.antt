-- ===== src/Royalties/Calculate.antt =====
-- royalties/calculator.py, `RoyaltyCalculator.calculate`. `gross_ugx` of a usage, a product with a
-- quotient, is a number of units of 10^-k UGX; all other amounts are counted in units that are
-- `basis_points_total` times smaller, so that a quotient by it is the same number of them; a product
-- is rounded to 28 digits, and the quotient has no more.
use ugsync.Prelude.{ℕ, ◌*◌, List, [], ◌∷◌, map, String}
use ugsync.Royalties.Outcome.{Outcome, ok, invalid_operation, raise_if, ◌>>=◌, ◌>>◌}
use ugsync.Royalties.Split.{SplitRecipient, basis_points_total, validate_split}
use ugsync.Royalties.Decimal.{round}
use ugsync.Royalties.Rounding.{Quantum, quantize_half_up, is_long, largest_remainder_round}

pub record UsageForRoyalty : Type 0 where
  pub usage_event_id : String
  pub right_type : String
  pub gross_ugx : ℕ

pub record RoyaltyAllocation : Type 0 where
  pub usage_event_id : String
  pub right_type : String
  pub split_line_id : String
  pub party_id : String
  pub role : String
  pub share_basis_points : ℕ
  pub raw_amount_ugx : ℕ
  pub settled_amount_ugx : ℕ

pub record RoyaltyCalculation : Type 0 where
  pub usage : UsageForRoyalty
  pub gross_raw_ugx : ℕ
  pub gross_settled_ugx : ℕ
  pub allocations : List RoyaltyAllocation

-- `gross_raw * share / 10000`, in the smaller units: the product is rounded.
abbrev pub raw_amounts : ℕ → List SplitRecipient → List ℕ
raw_amounts gross = map (λ r. round (gross * r.share_basis_points))

abbrev pub allocation : UsageForRoyalty → SplitRecipient → ℕ → ℕ → RoyaltyAllocation
allocation u r raw settled = record {
  usage_event_id = u.usage_event_id;
  right_type = u.right_type;
  split_line_id = r.split_line_id;
  party_id = r.party_id;
  role = r.role;
  share_basis_points = r.share_basis_points;
  raw_amount_ugx = raw;
  settled_amount_ugx = settled;
}

-- `zip(split_lines, raw_amounts, settled_amounts)`
unfoldable pub allocate :
    UsageForRoyalty → List SplitRecipient → (raw settled : List ℕ) → List RoyaltyAllocation
allocate u (r ∷ rs) (x ∷ xs) (a ∷ more) = allocation u r x a ∷ allocate u rs xs more
allocate u _ _ _ = []

unfoldable pub calculate :
    Quantum → UsageForRoyalty → List SplitRecipient → Outcome RoyaltyCalculation
calculate q u rs = do
  validate_split rs
  let gross_raw = u.gross_ugx * basis_points_total
  let gross_settled = quantize_half_up q gross_raw
  raise_if (is_long q gross_settled) invalid_operation
  let raw = raw_amounts u.gross_ugx rs
  settled ← largest_remainder_round q raw gross_settled
  ok (record {
    usage = u;
    gross_raw_ugx = gross_raw;
    gross_settled_ugx = gross_settled;
    allocations = allocate u rs raw settled;
  })
