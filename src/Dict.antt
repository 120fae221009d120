-- ===== src/Dict.antt =====
-- Python's `dict` with text keys, in insertion order: writing a present key keeps its place, and a
-- new key goes last. A sum over the values follows every write, by `weigh-put`.
pub mod Rewrite
use ugsync.Prelude.{
  All, ℕ, ◌+◌, ◌≤◌, ◌≡◌, refl, Bool, true, false, Option, none, some, List, [], ◌∷◌, String, str_eq,
  eq_iff, eq_refl, arith, is_some, ltb, if◌then◌else◌,
}

abbrev pub Dict {ℓ} : Type ℓ → Type ℓ
Dict V = List (String × V)

module _ {ℓ} {V : Type ℓ} where
  -- `d.get(k)`
  unfoldable pub get : Dict V → String → Option V
  get [] k = none
  get ((j, v) ∷ d) k = if str_eq j k then some v else get d k

  -- `d[k] = v`
  unfoldable pub put : Dict V → String → V → Dict V
  put [] k v = (k, v) ∷ []
  put ((j, w) ∷ d) k v = if str_eq j k then (j, v) ∷ d else (j, w) ∷ put d k v

  -- `d.values()`
  unfoldable pub values : Dict V → List V
  values [] = []
  values ((j, v) ∷ d) = v ∷ values d

  -- `d.keys()`
  unfoldable pub keys : Dict V → List String
  keys [] = []
  keys ((j, v) ∷ d) = j ∷ keys d

  -- `d.pop(k, None)`
  unfoldable pub delete : Dict V → String → Dict V
  delete [] k = []
  delete ((j, v) ∷ d) k = let rest = delete d k in if str_eq j k then rest else (j, v) ∷ rest

  -- the sum of `f(v)` over the values
  unfoldable pub weigh : (V → ℕ) → Dict V → ℕ
  weigh f [] = 0
  weigh f ((j, v) ∷ d) = f v + weigh f d

  -- the first value that passes a test
  unfoldable pub find_value : (V → Bool) → Dict V → Option V
  find_value p [] = none
  find_value p ((j, v) ∷ d) = if p v then some v else find_value p d

  abbrev pub weight_of : (V → ℕ) → Option V → ℕ
  weight_of f none = 0
  weight_of f (some v) = f v

module _ {ℓ} {V : Type ℓ} where
  pub get-put :
      (d : Dict V) (k j : String) (v : V)
      → get (put d k v) j ≡ (if str_eq k j then some v else get d j)
  unfolding get put
  get-put [] k j v = refl
  get-put ((i, w) ∷ d) k j v = ground (arith, eq_iff k j, eq_iff i k, eq_iff i j, get-put d k j v)

  pub get-delete :
      (d : Dict V) (k j : String) → get (delete d k) j ≡ (if str_eq k j then none else get d j)
  unfolding get delete
  get-delete [] k j = ground arith
  get-delete ((i, w) ∷ d) k j = ground (arith, eq_iff k j, eq_iff i k, eq_iff i j, get-delete d k j)

  pub get-put_same : (d : Dict V) (k : String) (v : V) → get (put d k v) k ≡ some v
  get-put_same d k v = ground (arith, get-put d k k v, eq_refl k)

  pub is_some-put : (d : Dict V) (k : String) (v : V) → is_some (get (put d k v) k) ≡ true
  is_some-put d k v = rw (get-put_same d k v) refl

  -- A write replaces the weight of the key's old value by that of the new.
  pub weigh-put :
      (f : V → ℕ) (d : Dict V) (k : String) (v : V)
      → weigh f (put d k v) + weight_of f (get d k) ≡ weigh f d + f v
  unfolding get put weigh
  weigh-put f [] k v = omega arith
  weigh-put f ((i, w) ∷ d) k v = ground (arith, weigh-put f d k v)

  pub weight_of-le-weigh : (f : V → ℕ) (d : Dict V) (k : String) → weight_of f (get d k) ≤ weigh f d
  unfolding get weigh
  weight_of-le-weigh f [] k = omega arith
  weight_of-le-weigh f ((i, w) ∷ d) k = ground (arith, weight_of-le-weigh f d k)

  abbrev pub counts : (V → Bool) → V → ℕ
  counts p v = if p v then 1 else 0

  -- A search finds something exactly when the values that pass are not zero in number.
  pub find_value-eq_count :
      (p : V → Bool) (d : Dict V) → is_some (find_value p d) ≡ ltb 0 (weigh (counts p) d)
  unfolding find_value weigh
  find_value-eq_count p [] = refl
  find_value-eq_count p ((i, w) ∷ d) = ground (arith, find_value-eq_count p d)

  pub find_value_holds : (p : V → Bool) (d : Dict V) (v : V) → find_value p d ≡ some v → p v ≡ true
  unfolding find_value
  find_value_holds p [] v h = ground arith
  find_value_holds p ((i, w) ∷ d) v h = ground (arith, find_value_holds p d v)

module _ {ℓ} {V : Type ℓ} (p : V → Bool) where
  -- A new value that alone passes is what a search finds.
  pub find_value-put :
      (d : Dict V) (k : String) (v : V)
      → find_value p d ≡ none
      → get d k ≡ none
      → p v ≡ true
      → find_value p (put d k v) ≡ some v
  unfolding find_value get put
  find_value-put [] k v h g passes = ground arith
  find_value-put ((i, w) ∷ d) k v h g passes = ground (arith, find_value-put d k v)

  pub find_value-none :
      (d : Dict V) (k : String) {v : V} → find_value p d ≡ none → get d k ≡ some v → p v ≡ false
  unfolding find_value get
  find_value-none [] k h g = absurd (ground arith)
  find_value-none ((i, w) ∷ d) k {v} h g = ground (arith, find_value-none d k {v = v})

-- Each value stands under the key that it names, and under no other.
abbrev pub IsKeyed {ℓ} : {V : Type ℓ} → (V → String) → Dict V → Type ℓ
IsKeyed key [] = Unit
IsKeyed key ((j, v) ∷ d) = (key v ≡ j) × (get d j ≡ none) × IsKeyed key d

module _ {ℓ} {V : Type ℓ} (key : V → String) where
  pub IsKeyed-put :
      (d : Dict V) (k : String) (v : V) → key v ≡ k → IsKeyed key d → IsKeyed key (put d k v)
  unfolding get put
  IsKeyed-put [] k v h keyed = (h, refl, tt)
  IsKeyed-put ((i, w) ∷ d) k v h keyed =
      ground (arith, IsKeyed-put d k v h keyed.2, eq_iff i k, eq_iff k i, get-put d k i v)

  -- A value that is found under a key names it.
  pub key_of_get : (d : Dict V) (k : String) {v : V} → IsKeyed key d → get d k ≡ some v → key v ≡ k
  unfolding get
  key_of_get [] k keyed found = absurd (ground arith)
  key_of_get ((i, w) ∷ d) k {v} keyed found =
      ground (arith, eq_iff i k, keyed.0, key_of_get d k {v = v} keyed.2)

  weaken :
      (i : String) (w : V) (d : Dict V) (vs : List V)
      → get d i ≡ none
      → All (λ v. get d (key v) ≡ some v) vs
      → All (λ v. get ((i, w) ∷ d) (key v) ≡ some v) vs
  unfolding get
  weaken i w d [] h all = tt
  weaken i w d (v ∷ vs) h all = (ground (arith, eq_iff i (key v), all.0), weaken i w d vs h all.1)

  -- A value that is listed is found under its key.
  pub values-get : (d : Dict V) → IsKeyed key d → All (λ v. get d (key v) ≡ some v) (values d)
  unfolding values
  values-get [] keyed = tt
  values-get ((i, w) ∷ d) keyed = (
    unfold get in ground (arith, eq_iff i (key w), keyed.0),
    weaken i w d (values d) keyed.1 (values-get d keyed.2),
  )

pub get-empty {ℓ} : {V : Type ℓ} (k : String) → get {V = V} [] k ≡ none
unfolding get
get-empty k = refl

pub ruleset dict_laws = (get-empty, get-put)

-- a value rewritten in place under every key
unfoldable pub map_values {ℓ} : {V : Type ℓ} → (V → V) → Dict V → Dict V
map_values f [] = []
map_values f ((j, v) ∷ d) = (j, f v) ∷ map_values f d
