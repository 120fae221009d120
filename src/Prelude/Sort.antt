-- ===== src/Prelude/Sort.antt =====
-- Python's stable `sorted`, as insertion sort by a test `le a b`: "`a` may stand before `b`". Of two
-- items that may stand either way round, the one that came first stays first.
use ugsync.Prelude.{
  ℕ, ◌+◌, ◌≡◌, refl, inl, inr, Bool, true, false, List, [], ◌∷◌, arith, sum, map, length, All,
  Bool-cases, if◌then◌else◌,
}

module _ {ℓ} {A : Type ℓ} (le : A → A → Bool) where
  unfoldable pub insert_by : A → List A → List A
  insert_by x [] = x ∷ []
  insert_by x (y ∷ ys) = if le x y then x ∷ y ∷ ys else y ∷ insert_by x ys

  unfoldable pub sort_by : List A → List A
  unfolding insert_by
  sort_by [] = []
  sort_by (x ∷ xs) = insert_by x (sort_by xs)

  -- `a` may stand before each of the list's items.
  abbrev pub Before : A → List A → Type 0
  Before a [] = Unit
  Before a (x ∷ xs) = (le a x ≡ true) × Before a xs

  abbrev pub IsSorted : List A → Type 0
  IsSorted [] = Unit
  IsSorted (x ∷ xs) = Before x xs × IsSorted xs

module _ {ℓ} {A : Type ℓ} (le : A → A → Bool) where
  pub Before-insert_by :
      (a x : A) (xs : List A) → le a x ≡ true → Before le a xs → Before le a (insert_by le x xs)
  unfolding insert_by
  Before-insert_by a x [] p h = (p, tt)
  Before-insert_by a x (y ∷ ys) p h = ground (arith, Before-insert_by a x ys)

  module _ (total : (a b : A) → le a b ≡ false → le b a ≡ true)
      (trans : (a b c : A) → le a b ≡ true → le b c ≡ true → le a c ≡ true) where
    pub Before-trans : (a b : A) (xs : List A) → le a b ≡ true → Before le b xs → Before le a xs
    Before-trans a b [] p h = tt
    Before-trans a b (x ∷ xs) p h = (trans a b x p h.0, Before-trans a b xs p h.1)

    pub insert_by-IsSorted :
        (x : A) (xs : List A) → IsSorted le xs → IsSorted le (insert_by le x xs)
    unfolding insert_by
    insert_by-IsSorted x [] h = (tt, tt)
    insert_by-IsSorted x (y ∷ ys) h = ground (
      arith,
      insert_by-IsSorted x ys h.1,
      Before-trans x y ys,
      total x y,
      Before-insert_by y x ys,
    )

    pub sort_by-IsSorted : (xs : List A) → IsSorted le (sort_by le xs)
    unfolding sort_by
    sort_by-IsSorted [] = tt
    sort_by-IsSorted (x ∷ xs) = insert_by-IsSorted x (sort_by le xs) (sort_by-IsSorted xs)

  -- A sum over the items does not depend on their order.
  pub sum-insert_by :
      (f : A → ℕ) (x : A) (xs : List A) → sum (map f (insert_by le x xs)) ≡ f x + sum (map f xs)
  unfolding insert_by
  sum-insert_by f x [] = refl
  sum-insert_by f x (y ∷ ys) = ground (arith, sum-insert_by f x ys)

  pub sum-sort_by : (f : A → ℕ) (xs : List A) → sum (map f (sort_by le xs)) ≡ sum (map f xs)
  unfolding sort_by
  sum-sort_by f [] = refl
  sum-sort_by f (x ∷ xs) = ground (arith, sum-insert_by f x (sort_by le xs), sum-sort_by f xs)

  pub length-insert_by : (x : A) (xs : List A) → length (insert_by le x xs) ≡ length xs + 1
  unfolding insert_by
  length-insert_by x [] = refl
  length-insert_by x (y ∷ ys) = ground (arith, length-insert_by x ys)

  pub length-sort_by : (xs : List A) → length (sort_by le xs) ≡ length xs
  unfolding sort_by
  length-sort_by [] = refl
  length-sort_by (x ∷ xs) = omega (arith, length-insert_by x (sort_by le xs), length-sort_by xs)

  All-insert_by {κ} :
      (P : A → Type κ) (x : A) (xs : List A) → P x → All P xs → All P (insert_by le x xs)
  unfolding insert_by
  All-insert_by P x [] p h = (p, tt)
  All-insert_by P x (y ∷ ys) p h = elim (Bool-cases (le x y)) [
    | inl before ↦ rw before (p, h)
    | inr after ↦ rw after (h.0, All-insert_by P x ys p h.1)
  ]

  pub All-sort_by {κ} : (P : A → Type κ) (xs : List A) → All P xs → All P (sort_by le xs)
  unfolding sort_by
  All-sort_by P [] h = tt
  All-sort_by P (x ∷ xs) h = All-insert_by P x (sort_by le xs) h.0 (All-sort_by P xs h.1)
