-- ===== src/Royalties/Fair.antt =====
-- The extra quanta of `_largest_remainder_round` go to the largest remainders, earlier lines first.
use ugsync.Prelude.{ℕ, ◌-◌, ◌≤◌, ◌<◌, ◌≡◌, ◌⊎◌, List, get_elem?, true, some}
use ugsync.Royalties.Rounding.{Quantum, Remainder, quantize_floor, comes_first}

-- `r` is the remainder of the amount at its index, counted from `i`.
abbrev IsRest : Quantum → ℕ → List ℕ → Remainder → Type 0
IsRest q i raw r =
    (i ≤ r.index)
    × ((x : ℕ) → get_elem? raw (r.index - i) ≡ some x → r.rest ≡ x - quantize_floor q x)

-- A later remainder with a given index, and what is known of it.
abbrev Picked : (Remainder → Type 0) → Remainder → ℕ → Type 0
Picked P a j = (b : Remainder) × (b.index ≡ j) × (comes_first a b ≡ true) × P b

-- `i` comes before `j` in the order of remainders of the raw amounts `x` and `y`.
abbrev pub GoesFirst : Quantum → (i x j y : ℕ) → Type 0
GoesFirst q i x j y =
    (y - quantize_floor q y < x - quantize_floor q x)
    ⊎ ((y - quantize_floor q y ≡ x - quantize_floor q x) × (i ≤ j))
