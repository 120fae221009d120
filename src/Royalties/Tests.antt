-- ===== src/Royalties/Tests.antt =====
-- Runs of the royalty calculator, and its theorems at concrete inputs.
use ugsync.Prelude.{ℕ, ◌*◌, ◌≤◌, ◌<◌, ◌≡◌, refl, String, List, [], ◌∷◌, arith, contains}
use ugsync.Prelude.Sort.{sort_by}
use ugsync.Royalties.Outcome.{ok, err, underflowed, total_not_preserved}
use ugsync.Royalties.Split.{SplitRecipient, basis_points_total, validate_split, distinct}
use ugsync.Royalties.Decimal.{
  limit, tenth, int_quotient, round, half_even, add_up, ulp_from, scale_from,
}
use ugsync.Royalties.Rounding.{
  plus_each, plus_at, is_long, whole_units, quantize_half_up, Quantum, quantize_floor, remainders,
  order, units_to_distribute, distribute, largest_remainder_round,
}
use ugsync.Royalties.Total.{IsUnit}
use ugsync.Royalties.Calculate.{UsageForRoyalty, RoyaltyCalculation, calculate}
use ugsync.Royalties.Settled.{Settles, calculate-Settles}
use ugsync.Royalties.Coarse.{coarse_quantum_raises}

-- amounts in units of 0.001
abbrev whole : Quantum
whole = record { step = 1000; coefficient = 1 }

abbrev raw : List ℕ
raw = 33_300 ∷ 33_400 ∷ 33_400 ∷ []

ruled : largest_remainder_round whole raw 100_000 ≡ ok (33_000 ∷ 34_000 ∷ 33_000 ∷ [])
unfolding largest_remainder_round distribute units_to_distribute quantize_floor order sort_by
    remainders limit int_quotient round half_even add_up ulp_from scale_from plus_each plus_at
    is_long whole_units
ruled = refl

-- amounts of the usage in units of 1 UGX, so in 0.0001 UGX below
abbrev ugx : Quantum
ugx = record { step = 10_000; coefficient = 1 }

abbrev usage : UsageForRoyalty
usage = record { usage_event_id = "u"; right_type = "master"; gross_ugx = 1001 }

abbrev sheet : List SplitRecipient
sheet =
    record { split_line_id = "a"; party_id = "p"; role = "artist"; share_basis_points = 3333 }
    ∷ record { split_line_id = "b"; party_id = "q"; role = "label"; share_basis_points = 6667 }
    ∷ []

sheet_valid : validate_split sheet ≡ ok tt
unfolding validate_split distinct contains
sheet_valid = refl

ugx-IsUnit : IsUnit ugx
ugx-IsUnit = record { digits = 4; tens = refl; unit = refl }

usage_fits : usage.gross_ugx * basis_points_total ≤ tenth * ugx.step
unfolding tenth
usage_fits = omega arith

calculate-Settles_example :
    (c : RoyaltyCalculation) × (calculate ugx usage sheet ≡ ok c) × Settles ugx usage sheet c
calculate-Settles_example = calculate-Settles ugx usage sheet ugx-IsUnit usage_fits sheet_valid

-- a quantum of 5 UGX, where the usage is counted in tenths of a shilling
abbrev five : Quantum
five = record { step = 100_000; coefficient = 5 }

abbrev sole : SplitRecipient
sole = record { split_line_id = "a"; party_id = "p"; role = "artist"; share_basis_points = 10_000 }

five_fits : 2 * (1006 * basis_points_total) < limit
unfolding limit
five_fits = omega arith

coarse_quantum_raises_example :
    calculate five (record usage { gross_ugx = 1006 }) (sole ∷ []) ≡ err total_not_preserved
coarse_quantum_raises_example =
    coarse_quantum_raises five (record usage { gross_ugx = 1006 }) sole (omega arith) (omega arith)
      (omega arith) five_fits refl

-- a quantum of 10^-26 UGX, and amounts of 28 digits of the same unit, of which each half is rounded up
abbrev fine : Quantum
fine = record { step = 10_000; coefficient = 1 }

abbrev half_of : String → SplitRecipient
half_of id = record {
  split_line_id = id;
  party_id = "p";
  role = "artist";
  share_basis_points = 5000;
}

underflows :
    calculate fine
      (record usage { gross_ugx = 3_333_333_333_333_333_333_333_333_335 })
      (half_of "a" ∷ half_of "b" ∷ [])
    ≡ err underflowed
unfolding calculate validate_split distinct contains quantize_half_up largest_remainder_round
    quantize_floor limit int_quotient round half_even add_up ulp_from scale_from is_long whole_units
underflows = refl
