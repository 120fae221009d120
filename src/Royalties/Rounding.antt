-- ===== src/Royalties/Rounding.antt =====
-- royalties/calculator.py, `_largest_remainder_round`. An amount is a number of the smallest
-- decimal units at hand, 10^-k UGX for one k, in which every amount of a calculation is whole.
-- `Decimal.quantize` looks only at the exponent of the quantum, so a quantum is its power of ten,
-- `step`, and its coefficient; its value is their product.
use ugsync.Prelude.{
  ℕ, suc, ◌+◌, ◌-◌, ◌*◌, ◌/◌, Bool, ◌&&◌, ◌||◌, List, [], ◌∷◌, map, sum, take, any, ltb, leb, ◌==◌,
  if◌then◌else◌,
}
use ugsync.Prelude.Sort.{sort_by}
use ugsync.Royalties.Decimal.{limit, round, plus, add_up, int_quotient}
use ugsync.Royalties.Outcome.{Outcome, ok, err, underflowed, invalid_operation, total_not_preserved}

pub record Quantum : Type 0 where
  pub step : ℕ
  pub coefficient : ℕ

abbrev pub value : Quantum → ℕ
value q = q.coefficient * q.step

-- `amount.quantize(quantum, rounding=ROUND_FLOOR)`, for an amount that is not negative
unfoldable pub quantize_floor : Quantum → ℕ → ℕ
quantize_floor q amount = amount / q.step * q.step

-- `amount.quantize(quantum, rounding=ROUND_HALF_UP)`
unfoldable pub quantize_half_up : Quantum → ℕ → ℕ
quantize_half_up q amount = (2 * amount + q.step) / (2 * q.step) * q.step

-- An index of the list, with what the floor took from its amount.
pub record Remainder : Type 0 where
  pub index : ℕ
  pub rest : ℕ

-- `(raw - floored, index)` for each index, from `i` on
unfoldable pub remainders : Quantum → ℕ → List ℕ → List Remainder
remainders q i [] = []
remainders q i (x ∷ xs) =
    record { index = i; rest = x - quantize_floor q x } ∷ remainders q (suc i) xs

-- the order of the sort key `(-rest, index)`
abbrev pub comes_first : Remainder → Remainder → Bool
comes_first a b = ltb b.rest a.rest || (a.rest == b.rest && leb a.index b.index)

unfoldable pub order : Quantum → List ℕ → List Remainder
order q raw = sort_by comes_first (remainders q 0 raw)

-- `xs[i] += v`
unfoldable pub add_at : ℕ → ℕ → List ℕ → List ℕ
add_at i v [] = []
add_at ℕ.zero v (x ∷ xs) = (x + v) ∷ xs
add_at (suc i) v (x ∷ xs) = x ∷ add_at i v xs

unfoldable pub add_each : ℕ → List Remainder → List ℕ → List ℕ
add_each v [] xs = xs
add_each v (r ∷ rs) xs = add_each v rs (add_at r.index v xs)

-- The units that are left over of a total, where arithmetic is exact.
unfoldable pub units_to_distribute : Quantum → (total floored_sum : ℕ) → ℕ
units_to_distribute q total floored_sum = (total - floored_sum) / value q

-- The settled amounts, where arithmetic is exact.
unfoldable pub distribute : Quantum → List ℕ → (total : ℕ) → List ℕ
distribute q raw total =
    let floored = map (quantize_floor q) raw in
    add_each (value q) (take (units_to_distribute q total (sum floored)) (order q raw)) floored

-- `quantize` raises InvalidOperation on an amount with more than 28 digits before the quantum's.
unfoldable pub is_long : Quantum → ℕ → Bool
is_long q amount = leb limit (amount / q.step)

-- `floored[i] += v`
unfoldable pub plus_at : ℕ → ℕ → List ℕ → List ℕ
plus_at i v [] = []
plus_at ℕ.zero v (x ∷ xs) = plus x v ∷ xs
plus_at (suc i) v (x ∷ xs) = x ∷ plus_at i v xs

unfoldable pub plus_each : ℕ → List Remainder → List ℕ → List ℕ
plus_each v [] xs = xs
plus_each v (r ∷ rs) xs = plus_each v rs (plus_at r.index v xs)

-- `int(remaining / quantum)` of a remaining amount, or of a deficit
unfoldable pub whole_units : Quantum → (more less : ℕ) → ℕ
whole_units q more less = int_quotient (round (more - less)) (value q)

-- The raw amounts have at most 28 digits, so that what the floor takes from one has no more, and the
-- order of the remainders is exact.
unfoldable pub largest_remainder_round : Quantum → List ℕ → (rounded_total : ℕ) → Outcome (List ℕ)
unfolding is_long whole_units
largest_remainder_round q raw total =
    let floored = map (quantize_floor q) raw in
    let floored_sum = add_up 0 floored in
    let amounts =
      plus_each (value q) (take (whole_units q total floored_sum) (order q raw)) floored in
    if any (is_long q) raw
    then err invalid_operation
    else if ltb 0 (whole_units q floored_sum total)
    then err underflowed
    else if add_up 0 amounts == total
    then ok amounts
    else err total_not_preserved
