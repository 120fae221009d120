-- ===== src/Royalties/Exact.antt =====
-- `_largest_remainder_round` with 28 digits: where they hold the total, it returns the exact amounts.
use ugsync.Prelude.{
  ℕ, zero, suc, ◌+◌, ◌-◌, ◌*◌, ◌/◌, ◌^◌, ◌≤◌, ◌<◌, ◌≡◌, ◌∙◌, refl, sym, ap, false, List, [], ◌∷◌,
  map, arith, sum, take, any, length, length-take,
}
use native.Mathlib.Nat.{mul-sub}
use ugsync.Royalties.Outcome.{ok}
use ugsync.Royalties.Decimal.{limit, round, add_up}
use ugsync.Royalties.Digits.{round-exact, add_up-exact, int_quotient-exact}
use ugsync.Royalties.Rounding.{
  Quantum, value, Remainder, quantize_floor, order, add_at, add_each, plus_at, plus_each,
  distribute, is_long, whole_units, largest_remainder_round,
}
use ugsync.Royalties.Sums.{floor_units}
use ugsync.Royalties.Total.{IsUnit, pow-positive, length-order, units_exact, sum-distribute}

-- So many units of 10^t.
abbrev scaled : ℕ → List ℕ → List ℕ
scaled t ks = map (λ k. k * 10 ^ t) ks

sum-scaled : (t : ℕ) (ks : List ℕ) → sum (scaled t ks) ≡ sum ks * 10 ^ t
sum-scaled t [] = omega arith
sum-scaled t (k ∷ ks) = omega (arith, sum-scaled t ks)

add_at-scaled : (t i : ℕ) (ks : List ℕ) → add_at i (10 ^ t) (scaled t ks) ≡ scaled t (add_at i 1 ks)
unfolding add_at
add_at-scaled t i [] = refl
add_at-scaled t zero (k ∷ ks) =
    let more : k * 10 ^ t + 10 ^ t ≡ (k + 1) * 10 ^ t = omega arith in
    ap (λ x. x ∷ scaled t ks) more
add_at-scaled t (suc i) (k ∷ ks) = ap (λ xs. k * 10 ^ t ∷ xs) (add_at-scaled t i ks)

add_each-scaled :
    (t : ℕ) (rs : List Remainder) (ks : List ℕ)
    → add_each (10 ^ t) rs (scaled t ks) ≡ scaled t (add_each 1 rs ks)
unfolding add_each
add_each-scaled t [] ks = refl
add_each-scaled t (r ∷ rs) ks =
    ap (add_each (10 ^ t) rs) (add_at-scaled t r.index ks)
    ∙ add_each-scaled t rs (add_at r.index 1 ks)

plus_at-scaled :
    (t i : ℕ) (ks : List ℕ)
    → sum ks + 1 < limit
    → plus_at i (10 ^ t) (scaled t ks) ≡ scaled t (add_at i 1 ks)
unfolding plus_at add_at
plus_at-scaled t i [] h = refl
plus_at-scaled t zero (k ∷ ks) h =
    let more : k * 10 ^ t + 10 ^ t ≡ (k + 1) * 10 ^ t = omega arith in
    ap (λ x. x ∷ scaled t ks) (ap round more ∙ round-exact (k + 1) t (omega (arith, h)))
plus_at-scaled t (suc i) (k ∷ ks) h =
    ap (λ xs. k * 10 ^ t ∷ xs) (plus_at-scaled t i ks (omega (arith, h)))

sum-add_at-le : (i : ℕ) (ks : List ℕ) → sum (add_at i 1 ks) ≤ sum ks + 1
unfolding add_at
sum-add_at-le i [] = omega arith
sum-add_at-le zero (k ∷ ks) = omega arith
sum-add_at-le (suc i) (k ∷ ks) = omega (arith, sum-add_at-le i ks)

sum-add_each-le : (rs : List Remainder) (ks : List ℕ) → sum (add_each 1 rs ks) ≤ sum ks + length rs
unfolding add_each
sum-add_each-le [] ks = omega arith
sum-add_each-le (r ∷ rs) ks =
    omega (arith, sum-add_each-le rs (add_at r.index 1 ks), sum-add_at-le r.index ks)

plus_each-scaled :
    (t : ℕ) (rs : List Remainder) (ks : List ℕ)
    → sum ks + length rs < limit
    → plus_each (10 ^ t) rs (scaled t ks) ≡ scaled t (add_each 1 rs ks)
unfolding plus_each add_each
plus_each-scaled t [] ks h = refl
plus_each-scaled t (r ∷ rs) ks h =
    ap (plus_each (10 ^ t) rs) (plus_at-scaled t r.index ks (omega (arith, h)))
    ∙ plus_each-scaled t rs (add_at r.index 1 ks) (omega (arith, h, sum-add_at-le r.index ks))

abbrev units_of : Quantum → List ℕ → List ℕ
units_of q raw = map (λ x. x / q.step) raw

module _ (q : Quantum) (power : IsUnit q) where
  floors-scaled : (raw : List ℕ) → map (quantize_floor q) raw ≡ scaled power.digits (units_of q raw)
  unfolding quantize_floor
  floors-scaled [] = refl
  floors-scaled (x ∷ xs) =
      let first : x / q.step * q.step ≡ x / q.step * 10 ^ power.digits =
        ap (λ n. x / q.step * n) power.tens in
      ap (λ y. y ∷ map (quantize_floor q) xs) first
      ∙ ap (λ ys. x / q.step * 10 ^ power.digits ∷ ys) (floors-scaled xs)

  value-pow : value q ≡ 10 ^ power.digits
  value-pow = rw (power.unit, power.tens) (omega arith)

  short : (raw : List ℕ) → floor_units q raw < limit → any (is_long q) raw ≡ false
  unfolding is_long
  short [] h = refl
  short (x ∷ xs) h = ground (arith, short xs (omega (arith, h)), h)

  whole_units-exact :
      (a b : ℕ) → a < limit → whole_units q (a * 10 ^ power.digits) (b * 10 ^ power.digits) ≡ a - b
  unfolding whole_units
  whole_units-exact a b h =
      let t = power.digits in
      let less : a * 10 ^ t - b * 10 ^ t ≡ (a - b) * 10 ^ t = omega (arith, mul-sub (10 ^ t) a b) in
      rw (less, round-exact (a - b) t (omega (arith, h)), value-pow)
        (int_quotient-exact (a - b) (10 ^ t) (omega (arith, h)) (pow-positive t))

  module _ (raw : List ℕ) (units : ℕ) (low : floor_units q raw ≤ units)
      (high : units ≤ floor_units q raw + length raw) (fits : units < limit) where
    total_is : units * q.step ≡ units * 10 ^ power.digits
    total_is = ap (λ n. units * n) power.tens

    floored_sum : add_up 0 (map (quantize_floor q) raw) ≡ floor_units q raw * 10 ^ power.digits
    floored_sum =
        let nothing : 0 ≡ 0 * 10 ^ power.digits = omega arith in
        ap (add_up 0) (floors-scaled raw)
        ∙ ap (λ n. add_up n (scaled power.digits (units_of q raw))) nothing
        ∙ add_up-exact power.digits 0 (units_of q raw) (omega (arith, low, fits))
        ∙ omega arith

    left_over :
        whole_units q (units * q.step) (add_up 0 (map (quantize_floor q) raw))
        ≡ units - floor_units q raw
    left_over = rw (total_is, floored_sum) (whole_units-exact units (floor_units q raw) fits)

    no_deficit : whole_units q (add_up 0 (map (quantize_floor q) raw)) (units * q.step) ≡ 0
    no_deficit =
        rw (total_is, floored_sum)
          (whole_units-exact (floor_units q raw) units (omega (arith, low, fits))
            ∙ omega (arith, low))

    chosen : List Remainder
    chosen = take (units - floor_units q raw) (order q raw)

    length-chosen : length chosen ≡ units - floor_units q raw
    unfolding chosen
    length-chosen =
        length-take (units - floor_units q raw) (order q raw)
          (omega (arith, length-order q raw, high))

    settled : List ℕ
    settled = add_each 1 chosen (units_of q raw)

    amounts : plus_each (value q) chosen (map (quantize_floor q) raw) ≡ scaled power.digits settled
    unfolding settled
    amounts =
        rw (value-pow, floors-scaled raw)
          (plus_each-scaled power.digits chosen (units_of q raw)
            (omega (arith, length-chosen, low, fits)))

    distributed : distribute q raw (units * q.step) ≡ scaled power.digits settled
    unfolding distribute settled chosen
    distributed =
        rw (units_exact q raw power units low high, value-pow, floors-scaled raw)
          (add_each-scaled power.digits _ (units_of q raw))

    settled-le : sum settled < limit
    unfolding settled
    settled-le = omega (arith, sum-add_each-le chosen (units_of q raw), length-chosen, low, fits)

    amounts_sum : add_up 0 (distribute q raw (units * q.step)) ≡ units * q.step
    amounts_sum =
        let nothing : 0 ≡ 0 * 10 ^ power.digits = omega arith in
        ap (add_up 0) distributed
        ∙ ap (λ n. add_up n (scaled power.digits settled)) nothing
        ∙ add_up-exact power.digits 0 settled (omega (arith, settled-le))
        ∙ omega arith
        ∙ sym (sum-scaled power.digits settled)
        ∙ ap sum (sym distributed)
        ∙ sum-distribute q raw power units low high

    amounts_here :
        plus_each
          (value q)
          (take (units - floor_units q raw) (order q raw))
          (map (quantize_floor q) raw)
        ≡ scaled power.digits settled
    unfolding chosen
    amounts_here = amounts

    pub rounds_to_total :
        largest_remainder_round q raw (units * q.step) ≡ ok (distribute q raw (units * q.step))
    unfolding largest_remainder_round
    rounds_to_total =
        let same : plus_each (value q) (take (units - floor_units q raw) (order q raw))
              (map (quantize_floor q) raw)
            ≡ distribute q raw (units * q.step) =
          amounts_here ∙ sym distributed in
        rw (short raw (omega (arith, low, fits)), no_deficit, left_over, same, amounts_sum)
          (ground arith)
