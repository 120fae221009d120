-- ===== src/Royalties/Total.antt =====
-- The amounts that are distributed sum to the total.
use ugsync.Prelude.{
  subst, ℕ, zero, suc, ◌+◌, ◌-◌, ◌*◌, ◌^◌, ◌≤◌, ◌<◌, ◌≡◌, ◌∙◌, sym, List, map, arith, sum, take,
  length, All, All-take, length-take, length-map,
}
use native.Mathlib.Nat.{div-eq_of_eq-mul_left, mul-sub, pow-suc}
use ugsync.Prelude.Sort.{All-sort_by, length-sort_by}
use ugsync.Royalties.Rounding.{
  Quantum, value, Remainder, quantize_floor, remainders, order, comes_first, units_to_distribute,
  distribute,
}
use ugsync.Royalties.Sums.{
  floor_units, sum-floor, remainders-below, length-remainders, sum-add_each,
}

-- A quantum with coefficient one: a power of ten that is written with the single digit 1, such as 1
-- or 0.01, but not 10 or 1.00.
pub record IsUnit (q : Quantum) : Type 0 where
  pub digits : ℕ
  pub tens : q.step ≡ 10 ^ digits
  pub unit : q.coefficient ≡ 1

pub pow-positive : (n : ℕ) → 0 < 10 ^ n
pow-positive zero = omega arith
pow-positive (suc n) = rw (pow-suc 10 n) (omega (arith, pow-positive n))

pub unit-positive : {q : Quantum} → IsUnit q → 0 < q.step
unit-positive {q} power = rw power.tens (pow-positive power.digits)

one_quantum : {q : Quantum} → IsUnit q → 0 < value q
one_quantum {q} power = rw power.unit (omega (arith, unit-positive power))

scaled_difference :
    {q : Quantum} → IsUnit q → (a b : ℕ) → a * q.step - b * q.step ≡ (a - b) * value q
scaled_difference {q} power a b = rw power.unit (omega (arith, mul-sub q.step a b))

refill : {q : Quantum} → IsUnit q → (a b : ℕ) → b ≤ a → b * q.step + (a - b) * value q ≡ a * q.step
refill {q} power a b h =
    let scaled : b * q.step ≤ a * q.step = grind arith in
    omega (arith, scaled_difference power a b, scaled)

module _ (q : Quantum) (raw : List ℕ) where
  order-below : All (λ r. r.index < length raw) (order q raw)
  unfolding order
  order-below = All-sort_by comes_first _ (remainders q 0 raw) (
      subst (λ n. All (λ r. r.index < n) (remainders q 0 raw)) (omega arith)
        (remainders-below q 0 raw))

  pub length-order : length (order q raw) ≡ length raw
  unfolding order
  length-order =
      omega (arith, length-sort_by comes_first (remainders q 0 raw), length-remainders q 0 raw)

  module _ (power : IsUnit q) (units : ℕ) (low : floor_units q raw ≤ units)
      (high : units ≤ floor_units q raw + length raw) where
    pub units_exact :
        units_to_distribute q (units * q.step) (sum (map (quantize_floor q) raw))
        ≡ units - floor_units q raw
    unfolding units_to_distribute
    units_exact = rw (sum-floor q raw) (
        div-eq_of_eq-mul_left (one_quantum power)
          (scaled_difference power units (floor_units q raw)))

    pub sum-distribute : sum (distribute q raw (units * q.step)) ≡ units * q.step
    unfolding distribute
    sum-distribute =
        let k = units - floor_units q raw in
        let floored = map (quantize_floor q) raw in
        let chosen = take k (order q raw) in
        let fits : All (λ r. r.index < length floored) chosen =
          subst (λ n. All (λ (r : Remainder). r.index < n) chosen)
            (sym (length-map (quantize_floor q) raw)) (All-take _ k (order q raw) order-below) in
        let chosen_all : length chosen ≡ k =
          length-take k (order q raw) (omega (arith, length-order)) in
        rw units_exact (
          sum-add_each (value q) chosen floored fits
          ∙ rw (sum-floor q raw, chosen_all) (refill power units (floor_units q raw) low))
