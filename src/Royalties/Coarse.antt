-- ===== src/Royalties/Coarse.antt =====
-- A settlement quantum that is no power of ten: `quantize` rounds to a multiple of its power of ten,
-- while the left-over units are handed out in whole quanta.
use ugsync.Prelude.{
  ℕ, ◌+◌, ◌-◌, ◌*◌, ◌/◌, ◌%◌, ◌≤◌, ◌<◌, ◌≡◌, ◌∙◌, refl, ap, false, [], ◌∷◌, arith, contains,
}
use native.Mathlib.Nat.{
  div-eq_of_lt-le, div-eq_of_eq-mul_left, div-add-mod', mod-lt, div-mul-le_self, mul-le-mul_left,
}
use ugsync.Royalties.Outcome.{err, total_not_preserved}
use ugsync.Royalties.Decimal.{limit, round, add_up, int_quotient}
use ugsync.Royalties.Digits.{limit-positive, round-small, int_quotient-exact, int_quotient-half}
use ugsync.Royalties.Split.{SplitRecipient, basis_points_total, validate_split, distinct}
use ugsync.Royalties.Rounding.{
  Quantum, value, quantize_half_up, quantize_floor, is_long, whole_units, plus_each,
  largest_remainder_round,
}
use ugsync.Royalties.Calculate.{UsageForRoyalty, calculate}

module _ (q : Quantum) (gross : ℕ) (positive : 0 < q.step) (coarse : 1 < q.coefficient)
    (up : q.step ≤ 2 * (gross % q.step)) (fits : 2 * gross < limit) where
  half_up_next : quantize_half_up q gross ≡ quantize_floor q gross + q.step
  unfolding quantize_half_up quantize_floor
  half_up_next =
      let parts = div-add-mod' gross q.step in
      let below = mod-lt gross positive in
      rw
        (div-eq_of_lt-le {k = gross / q.step + 1} (2 * q.step) {m = 2 * gross + q.step}
          (omega (arith, parts)) (omega (arith, parts, below)))
        (omega arith)

  units-le : gross / q.step ≤ gross
  units-le =
      let parts = div-mul-le_self gross q.step in
      let grows : gross / q.step * 1 ≤ gross / q.step * q.step =
        mul-le-mul_left (gross / q.step) (omega (arith, positive)) in
      omega (arith, parts, grows)

  gross_short : is_long q gross ≡ false
  unfolding is_long
  gross_short = ground (arith, units-le, fits)

  settled_short : is_long q (quantize_floor q gross + q.step) ≡ false
  unfolding is_long quantize_floor
  settled_short =
      let next : (gross / q.step * q.step + q.step) / q.step ≡ gross / q.step + 1 =
        div-eq_of_eq-mul_left positive (omega arith) in
      rw next (ground (arith, units-le, fits, limit-positive))

  floor_sum : add_up 0 (quantize_floor q gross ∷ []) ≡ quantize_floor q gross
  unfolding add_up quantize_floor
  floor_sum =
      let same : 0 + gross / q.step * q.step ≡ gross / q.step * q.step = omega arith in
      ap round same
      ∙ round-small (gross / q.step * q.step) (omega (arith, div-mul-le_self gross q.step, fits))

  value_wide : 2 * q.step ≤ value q
  value_wide = grind (arith, coarse)

  no_units : whole_units q (quantize_floor q gross + q.step) (quantize_floor q gross) ≡ 0
  unfolding whole_units
  no_units =
      let left : quantize_floor q gross + q.step - quantize_floor q gross ≡ q.step = omega arith in
      let parts = div-add-mod' gross q.step in
      let small : q.step < limit = omega (arith, up, fits, parts) in
      rw (left, round-small q.step small)
        (int_quotient-half q.step (value q) (omega (arith, value_wide, positive)) value_wide)

  no_deficit : whole_units q (quantize_floor q gross) (quantize_floor q gross + q.step) ≡ 0
  unfolding whole_units
  no_deficit =
      let gap : quantize_floor q gross - (quantize_floor q gross + q.step) ≡ 0 = omega arith in
      let nothing : 0 ≡ 0 * value q = omega arith in
      rw (gap, round-small 0 (omega (arith, limit-positive)))
        (ap (λ n. int_quotient n (value q)) nothing
          ∙ int_quotient-exact 0 (value q) (omega (arith, limit-positive))
              (omega (arith, value_wide, positive)))

  one_line_raises :
      largest_remainder_round q (gross ∷ []) (quantize_floor q gross + q.step)
      ≡ err total_not_preserved
  unfolding largest_remainder_round plus_each
  one_line_raises = rw (gross_short, floor_sum, no_deficit, no_units, floor_sum) (ground arith)

-- Where the coefficient of the quantum is above one, as for a quantum of 5 UGX, a gross amount that
-- rounds up to the next multiple of the quantum's power of ten cannot be settled on a sheet with one
-- recipient, valid as it is, though 28 digits hold twice the amount: the calculation raises.
pub coarse_quantum_raises :
    (q : Quantum) (u : UsageForRoyalty) (r : SplitRecipient)
    → 0 < q.step
    → 1 < q.coefficient
    → q.step ≤ 2 * (u.gross_ugx * basis_points_total % q.step)
    → 2 * (u.gross_ugx * basis_points_total) < limit
    → r.share_basis_points ≡ basis_points_total
    → calculate q u (r ∷ []) ≡ err total_not_preserved
unfolding calculate validate_split distinct contains
coarse_quantum_raises q u r positive coarse up fits whole =
    let gross = u.gross_ugx * basis_points_total in
    rw
      (
        whole,
        half_up_next q gross positive coarse up fits,
        settled_short q gross positive coarse up fits,
        round-small gross (omega (arith, fits)),
        one_line_raises q gross positive coarse up fits,
      )
      refl
