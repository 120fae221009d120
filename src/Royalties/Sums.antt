-- ===== src/Royalties/Sums.antt =====
-- Sums of floors and of distributed units, in quanta.
use ugsync.Prelude.{
  subst, ℕ, zero, suc, ◌+◌, ◌*◌, ◌/◌, ◌≤◌, ◌<◌, ◌≡◌, refl, List, [], ◌∷◌, map, arith, sum, length,
  All,
}
use native.Mathlib.Nat.{div-mul-le_self, lt-div-mul-add}
use ugsync.Royalties.Rounding.{Quantum, Remainder, quantize_floor, remainders, add_at, add_each}

-- The whole quanta in each amount, together.
abbrev pub floor_units : Quantum → List ℕ → ℕ
floor_units q raw = sum (map (λ x. x / q.step) raw)

module _ (q : Quantum) where
  pub sum-floor : (raw : List ℕ) → sum (map (quantize_floor q) raw) ≡ floor_units q raw * q.step
  unfolding quantize_floor
  sum-floor [] = omega arith
  sum-floor (x ∷ xs) = omega (arith, sum-floor xs)

  pub floor_units-le : (raw : List ℕ) → floor_units q raw * q.step ≤ sum raw
  floor_units-le [] = omega arith
  floor_units-le (x ∷ xs) = omega (arith, floor_units-le xs, div-mul-le_self x q.step)

  pub sum-le-floor_units :
      (raw : List ℕ)
      → 0 < q.step
      → sum raw + length raw ≤ floor_units q raw * q.step + length raw * q.step
  sum-le-floor_units [] h = omega arith
  sum-le-floor_units (x ∷ xs) h = omega (arith, sum-le-floor_units xs h, lt-div-mul-add {a = x} h)

  pub remainders-below :
      (i : ℕ) (raw : List ℕ) → All (λ r. r.index < i + length raw) (remainders q i raw)
  unfolding remainders
  remainders-below i [] = tt
  remainders-below i (x ∷ xs) = (
    omega arith,
    subst (λ n. All (λ r. r.index < n) (remainders q (suc i) xs)) (omega arith)
        (remainders-below (suc i) xs),
  )

  pub length-remainders : (i : ℕ) (raw : List ℕ) → length (remainders q i raw) ≡ length raw
  unfolding remainders
  length-remainders i [] = refl
  length-remainders i (x ∷ xs) = omega (arith, length-remainders (suc i) xs)

pub length-add_at : (i v : ℕ) (xs : List ℕ) → length (add_at i v xs) ≡ length xs
unfolding add_at
length-add_at i v [] = refl
length-add_at zero v (x ∷ xs) = refl
length-add_at (suc i) v (x ∷ xs) = omega (arith, length-add_at i v xs)

pub sum-add_at : (i v : ℕ) (xs : List ℕ) → i < length xs → sum (add_at i v xs) ≡ sum xs + v
unfolding add_at
sum-add_at i v [] h = absurd (omega arith)
sum-add_at zero v (x ∷ xs) h = omega arith
sum-add_at (suc i) v (x ∷ xs) h = omega (arith, sum-add_at i v xs)

pub sum-add_each :
    (v : ℕ) (rs : List Remainder) (xs : List ℕ)
    → All (λ r. r.index < length xs) rs
    → sum (add_each v rs xs) ≡ sum xs + length rs * v
unfolding add_each
sum-add_each v [] xs h = omega arith
sum-add_each v (r ∷ rs) xs h = omega (
  arith,
  sum-add_each v rs (add_at r.index v xs) (rw (length-add_at r.index v xs) h.1),
  sum-add_at r.index v xs h.0,
)
