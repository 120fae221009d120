-- ===== src/Royalties/Settled.antt =====
-- What a calculation on a complete split sheet settles.
use ugsync.Prelude.{
  ℕ, false, some, ◌⊎◌, subst, get_elem?, ◌+◌, ◌*◌, ◌/◌, ◌≤◌, ◌<◌, ◌≡◌, ◌∙◌, refl, sym, ap, List, [],
  ◌∷◌, map, arith, sum, length, length-map,
}
use native.Mathlib.Nat.{
  le-div_iff_mul-le, div-lt_iff_lt-mul, le_of_mul-le-mul_right, div-eq_of_eq-mul_left,
}
use ugsync.Royalties.Outcome.{ok}
use ugsync.Royalties.Split.{SplitRecipient, basis_points_total, shares, validate_split}
use ugsync.Royalties.Rounding.{
  Quantum, value, Remainder, is_long, quantize_half_up, largest_remainder_round, distribute, add_at,
  add_each, quantize_floor,
}
use ugsync.Royalties.Sums.{floor_units, floor_units-le, sum-le-floor_units, length-add_at}
use ugsync.Royalties.Quota.{floor_or_one_more}
use ugsync.Royalties.Total.{IsUnit, unit-positive, sum-distribute}
use ugsync.Royalties.Exact.{rounds_to_total}
use ugsync.Royalties.Decimal.{limit, tenth, round}
use ugsync.Royalties.Digits.{limit-tenth, tenth-positive, round-close}
use ugsync.Royalties.Calculate.{
  UsageForRoyalty, RoyaltyCalculation, RoyaltyAllocation, raw_amounts, allocate, calculate,
}

-- What the rounding of the products to 28 digits may add or take away.
raw_amounts-close :
    (gross : ℕ) (rs : List SplitRecipient)
    → (tenth * (2 * sum (raw_amounts gross rs))
        ≤ tenth * (2 * (gross * sum (shares rs))) + gross * sum (shares rs))
      × (tenth * (2 * (gross * sum (shares rs)))
          ≤ tenth * (2 * sum (raw_amounts gross rs)) + gross * sum (shares rs))
raw_amounts-close gross [] = (omega arith, omega arith)
raw_amounts-close gross (r ∷ rs) =
    let (up, down) = round-close (gross * r.share_basis_points) in
    let (more, less) = raw_amounts-close gross rs in
    (omega (arith, up, more), omega (arith, down, less))

complete :
    (rs : List SplitRecipient) → validate_split rs ≡ ok tt → sum (shares rs) ≡ basis_points_total
unfolding validate_split
complete [] h = absurd (ground arith)
complete (r ∷ rs) h = ground arith

length-add_each :
    (v : ℕ) (cs : List Remainder) (xs : List ℕ) → length (add_each v cs xs) ≡ length xs
unfolding add_each
length-add_each v [] xs = refl
length-add_each v (c ∷ cs) xs =
    length-add_each v cs (add_at c.index v xs) ∙ length-add_at c.index v xs

length-distribute :
    (q : Quantum) (raw : List ℕ) (total : ℕ) → length (distribute q raw total) ≡ length raw
unfolding distribute
length-distribute q raw total =
    length-add_each _ _ (map (quantize_floor q) raw) ∙ length-map (quantize_floor q) raw

some_recipient : (rs : List SplitRecipient) → validate_split rs ≡ ok tt → 0 < length rs
unfolding validate_split
some_recipient [] h = absurd (ground arith)
some_recipient (r ∷ rs) h = omega arith

-- The rounded gross amount lies within one quantum for each raw amount above their floors, where the
-- raw amounts are off by half a quantum together at most.
module _ (q : Quantum) (positive : 0 < q.step) (gross : ℕ) where
  half_up_units : ℕ
  half_up_units = (2 * gross + q.step) / (2 * q.step)

  half_up-fits : gross ≤ tenth * q.step → half_up_units < limit
  unfolding half_up_units
  half_up-fits h =
      let below : half_up_units < tenth + 1 =
        (div-lt_iff_lt-mul (omega arith)).1 (omega (arith, h, positive)) in
      omega (arith, below, limit-tenth, tenth-positive)

  module _ (raw : List ℕ) where
    floors-le-half_up : 2 * sum raw ≤ 2 * gross + q.step → floor_units q raw ≤ half_up_units
    unfolding half_up_units
    floors-le-half_up h =
        (le-div_iff_mul-le (omega (arith, positive))).1 (omega (arith, floor_units-le q raw, h))

    half_up-le-floors :
        2 * gross ≤ 2 * sum raw + q.step
        → 0 < length raw
        → half_up_units ≤ floor_units q raw + length raw
    unfolding half_up_units
    half_up-le-floors h some_raw =
        let below : half_up_units < floor_units q raw + length raw + 1 =
          (div-lt_iff_lt-mul (omega (arith, positive))).1
            (omega (arith, sum-le-floor_units q raw positive, h, some_raw)) in
        omega (arith, below)

abbrev pub settled_amounts : List RoyaltyAllocation → List ℕ
settled_amounts = map (λ a. a.settled_amount_ugx)

settled_amounts-allocate :
    (u : UsageForRoyalty) (rs : List SplitRecipient) (raw settled : List ℕ)
    → length raw ≡ length rs
    → length settled ≡ length rs
    → settled_amounts (allocate u rs raw settled) ≡ settled
unfolding allocate
settled_amounts-allocate u [] raw [] h k = refl
settled_amounts-allocate u [] raw (a ∷ more) h k = absurd (omega arith)
settled_amounts-allocate u (r ∷ rs) [] settled h k = absurd (omega arith)
settled_amounts-allocate u (r ∷ rs) (x ∷ xs) [] h k = absurd (omega arith)
settled_amounts-allocate u (r ∷ rs) (x ∷ xs) (a ∷ more) h k =
    cc (settled_amounts-allocate u rs xs more (omega arith) (omega arith))

-- What a settled calculation promises.
pub record Settles (q : Quantum) (u : UsageForRoyalty) (rs : List SplitRecipient)
    (c : RoyaltyCalculation) : Type 0 where
  pub rounded : c.gross_settled_ugx ≡ quantize_half_up q (u.gross_ugx * basis_points_total)
  pub preserved : sum (settled_amounts c.allocations) ≡ c.gross_settled_ugx
  pub one_each : length (settled_amounts c.allocations) ≡ length rs
  pub near :
      (j : ℕ) {x : ℕ}
      → get_elem? (raw_amounts u.gross_ugx rs) j ≡ some x
      → (get_elem? (settled_amounts c.allocations) j ≡ some (quantize_floor q x))
        ⊎ (get_elem? (settled_amounts c.allocations) j ≡ some (quantize_floor q x + value q))

module _ (q : Quantum) (u : UsageForRoyalty) (rs : List SplitRecipient) (power : IsUnit q)
    (fits : u.gross_ugx * basis_points_total ≤ tenth * q.step)
    (valid : validate_split rs ≡ ok tt) where
  raw : List ℕ
  raw = raw_amounts u.gross_ugx rs

  gross : ℕ
  gross = u.gross_ugx * basis_points_total

  units : ℕ
  units = half_up_units q (unit-positive power) gross

  not_over : 2 * sum raw ≤ 2 * gross + q.step
  unfolding raw gross
  not_over =
      let (up, down) = raw_amounts-close u.gross_ugx rs in
      le_of_mul-le-mul_right {k = tenth}
        (let up' = (rw (complete rs valid) at up) in omega (arith, up', fits))
        (omega (arith, tenth-positive))

  not_under : 2 * gross ≤ 2 * sum raw + q.step
  unfolding raw gross
  not_under =
      let (up, down) = raw_amounts-close u.gross_ugx rs in
      le_of_mul-le-mul_right {k = tenth}
        (let down' = (rw (complete rs valid) at down) in omega (arith, down', fits))
        (omega (arith, tenth-positive))

  low : floor_units q raw ≤ units
  unfolding units
  low = floors-le-half_up q (unit-positive power) gross raw not_over

  some_raw : 0 < length raw
  unfolding raw
  some_raw =
      let same =
        length-map (λ (r : SplitRecipient). round (u.gross_ugx * r.share_basis_points)) rs in
      omega (arith, same, some_recipient rs valid)

  high : units ≤ floor_units q raw + length raw
  unfolding units
  high = half_up-le-floors q (unit-positive power) gross raw not_under some_raw

  short : units < limit
  unfolding units gross
  short = half_up-fits q (unit-positive power) gross fits

  gross-units : quantize_half_up q gross ≡ units * q.step
  unfolding quantize_half_up half_up_units units
  gross-units = refl

  not_long : is_long q (quantize_half_up q gross) ≡ false
  unfolding is_long
  not_long =
      let same : quantize_half_up q gross / q.step ≡ units =
        div-eq_of_eq-mul_left (unit-positive power) gross-units in
      rw same (ground (arith, short))

  settled : List ℕ
  settled = distribute q raw (units * q.step)

  rounds : largest_remainder_round q raw (quantize_half_up q gross) ≡ ok settled
  unfolding settled
  rounds = rw gross-units (rounds_to_total q power raw units low high short)

  calculation : RoyaltyCalculation
  calculation = record {
    usage = u;
    gross_raw_ugx = gross;
    gross_settled_ugx = quantize_half_up q gross;
    allocations = allocate u rs raw settled;
  }

  length-settled : length settled ≡ length rs
  unfolding settled raw
  length-settled = length-distribute q _ _ ∙ length-map _ rs

  amounts : settled_amounts (allocate u rs raw settled) ≡ settled
  amounts = settled_amounts-allocate u rs raw settled (unfold raw in length-map _ rs) length-settled

  calculated : calculate q u rs ≡ ok calculation
  unfolding calculate calculation raw gross
  calculated = rw valid (rw (not_long, rounds) refl)

  preserved : sum settled ≡ quantize_half_up q gross
  unfolding settled
  preserved = sum-distribute q raw power units low high ∙ sym gross-units

  near_settled :
      (j : ℕ) {x : ℕ}
      → get_elem? (raw_amounts u.gross_ugx rs) j ≡ some x
      → (get_elem? (settled_amounts (allocate u rs raw settled)) j ≡ some (quantize_floor q x))
        ⊎ (get_elem? (settled_amounts (allocate u rs raw settled)) j
            ≡ some (quantize_floor q x + value q))
  unfolding settled raw
  near_settled j {x} found =
      subst
        (λ xs.
          (get_elem? xs j ≡ some (quantize_floor q x))
          ⊎ (get_elem? xs j ≡ some (quantize_floor q x + value q)))
        (sym amounts) (floor_or_one_more q raw (units * q.step) j found)

  -- With a settlement quantum that is a power of ten written with the single digit 1 (1 or 0.01, but
  -- not 10 or 1.00), a gross amount of at most 10^27 quanta, whose products with the shares are
  -- rounded to 28 digits, and a split sheet that passes validation (some recipient, distinct lines,
  -- shares of 10,000 basis points in all), the calculation always settles: the gross amount is
  -- rounded half up, there is one amount for each recipient, the floor of the raw amount or one
  -- quantum more, and they sum to the rounded gross amount exactly.
  pub calculate-Settles : (c : RoyaltyCalculation) × (calculate q u rs ≡ ok c) × Settles q u rs c
  unfolding calculation gross
  calculate-Settles = (
    calculation,
    calculated,
    record {
      rounded = refl;
      preserved = ap sum amounts ∙ preserved;
      one_each = ap length amounts ∙ length-settled;
      near = λ j found. near_settled j found;
    },
  )
