-- ===== src/Royalties/Quota.antt =====
-- The amounts of `_largest_remainder_round` in exact arithmetic, which Exact says it returns where 28
-- digits suffice.
use ugsync.Prelude.{
  ℕ, zero, suc, ◌+◌, ◌*◌, ◌≤◌, ◌<◌, ◌≡◌, ◌∙◌, refl, ◌⊎◌, inl, inr, List, [], ◌∷◌, map, arith, sum,
  take, drop, get_elem?, get_elem?-map, ◌==◌, if◌then◌else◌, some, ap,
}
use ugsync.Prelude.Sort.{sum-sort_by}
use ugsync.Royalties.Rounding.{
  Quantum, value, Remainder, quantize_floor, remainders, order, comes_first, add_at, add_each,
  units_to_distribute, distribute,
}

abbrev pub at_index : ℕ → Remainder → ℕ
at_index i r = if r.index == i then 1 else 0

-- how often an index stands in a list of remainders
abbrev pub count_index : ℕ → List Remainder → ℕ
count_index i rs = sum (map (at_index i) rs)

get_elem?-add_at :
    (i j v : ℕ) (xs : List ℕ) {x : ℕ}
    → get_elem? xs j ≡ some x
    → get_elem? (add_at i v xs) j ≡ some (x + v * (if i == j then 1 else 0))
unfolding add_at
get_elem?-add_at i j v [] h = absurd (ground arith)
get_elem?-add_at zero zero v (y ∷ ys) h = ground arith
get_elem?-add_at zero (suc j) v (y ∷ ys) h = ground arith
get_elem?-add_at (suc i) zero v (y ∷ ys) h = ground arith
get_elem?-add_at (suc i) (suc j) v (y ∷ ys) h = ground (arith, get_elem?-add_at i j v ys h)

get_elem?-add_each :
    (v : ℕ) (rs : List Remainder) (j : ℕ) (xs : List ℕ) {x : ℕ}
    → get_elem? xs j ≡ some x
    → get_elem? (add_each v rs xs) j ≡ some (x + v * count_index j rs)
unfolding add_each
get_elem?-add_each v [] j xs h = h ∙ ap some (omega arith)
get_elem?-add_each v (r ∷ rs) j xs {x} h =
    get_elem?-add_each v rs j (add_at r.index v xs) (get_elem?-add_at r.index j v xs h)
    ∙ ap some (omega arith)

count-remainders-below :
    (q : Quantum) (i j : ℕ) (raw : List ℕ) → j < i → count_index j (remainders q i raw) ≡ 0
unfolding remainders
count-remainders-below q i j [] h = refl
count-remainders-below q i j (x ∷ xs) h =
    ground (arith, count-remainders-below q (suc i) j xs (omega arith))

pub count-remainders-le_one :
    (q : Quantum) (i j : ℕ) (raw : List ℕ) → count_index j (remainders q i raw) ≤ 1
unfolding remainders
count-remainders-le_one q i j [] = omega arith
count-remainders-le_one q i j (x ∷ xs) =
    ground (arith, count-remainders-below q (suc i) j xs, count-remainders-le_one q (suc i) j xs)

pub count-order :
    (q : Quantum) (j : ℕ) (raw : List ℕ)
    → count_index j (order q raw) ≡ count_index j (remainders q 0 raw)
unfolding order
count-order q j raw = sum-sort_by comes_first (at_index j) (remainders q 0 raw)

pub count-split :
    (j k : ℕ) (rs : List Remainder)
    → count_index j (take k rs) + count_index j (drop k rs) ≡ count_index j rs
count-split j zero rs = omega arith
count-split j (suc k) [] = omega arith
count-split j (suc k) (r ∷ rs) = omega (arith, count-split j k rs)

pub zero_or_one : (n : ℕ) → n ≤ 1 → (n ≡ 0) ⊎ (n ≡ 1)
zero_or_one n h = omega arith

pub get_elem?-distribute :
    (q : Quantum) (raw : List ℕ) (total j : ℕ) {x : ℕ}
    → get_elem? raw j ≡ some x
    → get_elem? (distribute q raw total) j
      ≡ some (
          quantize_floor q x
          + value q
            * count_index j (
                take
                  (units_to_distribute q total (sum (map (quantize_floor q) raw)))
                  (order q raw)))
unfolding distribute
get_elem?-distribute q raw total j {x} h =
    get_elem?-add_each (value q) _ j (map (quantize_floor q) raw)
      (get_elem?-map (quantize_floor q) raw j x h)

pub floor_or_one_more :
    (q : Quantum) (raw : List ℕ) (total j : ℕ) {x : ℕ}
    → get_elem? raw j ≡ some x
    → (get_elem? (distribute q raw total) j ≡ some (quantize_floor q x))
      ⊎ (get_elem? (distribute q raw total) j ≡ some (quantize_floor q x + value q))
floor_or_one_more q raw total j {x} h =
    let k = units_to_distribute q total (sum (map (quantize_floor q) raw)) in
    let once : count_index j (take k (order q raw)) ≤ 1 = omega (
      arith,
      count-split j k (order q raw),
      count-order q j raw,
      count-remainders-le_one q 0 j raw,
    ) in
    elim (zero_or_one _ once) [
      | inl none_chosen ↦
          inl (get_elem?-distribute q raw total j h ∙ ap some (rw none_chosen (omega arith)))
      | inr chosen ↦ inr (get_elem?-distribute q raw total j h ∙ ap some (rw chosen (omega arith)))
    ]
