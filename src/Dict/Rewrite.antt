-- ===== src/Dict/Rewrite.antt =====
-- Values rewritten in place, and sums over them.
use ugsync.Prelude.{
  All, ◌≤◌, ℕ, ◌≡◌, refl, Bool, true, false, Option, none, some, [], ◌∷◌, String, arith, Bool-cases,
  inl, inr, is_some,
}
use ugsync.Dict.{
  Dict, get, put, values, weigh, find_value, map_values, counts, weigh-put, IsKeyed,
  find_value-eq_count,
}

module _ {ℓ} {V : Type ℓ} where
  abbrev pub Option_map : (V → V) → Option V → Option V
  Option_map f none = none
  Option_map f (some v) = some (f v)

  pub get-map_values :
      (f : V → V) (d : Dict V) (k : String) → get (map_values f d) k ≡ Option_map f (get d k)
  unfolding get map_values
  get-map_values f [] k = refl
  get-map_values f ((j, v) ∷ d) k = ground (arith, get-map_values f d k)

  pub IsKeyed-map_values :
      (key : V → String) (f : V → V) (d : Dict V)
      → ((v : V) → key (f v) ≡ key v)
      → IsKeyed key d
      → IsKeyed key (map_values f d)
  unfolding map_values
  IsKeyed-map_values key f [] same keyed = tt
  IsKeyed-map_values key f ((j, v) ∷ d) same keyed = (
    ground (arith, same v, keyed.0),
    ground (arith, get-map_values f d j, keyed.1),
    IsKeyed-map_values key f d same keyed.2,
  )

  pub weigh-map_values-le :
      (w : V → ℕ) (f : V → V) (d : Dict V)
      → ((v : V) → w (f v) ≤ w v)
      → weigh w (map_values f d) ≤ weigh w d
  unfolding weigh map_values
  weigh-map_values-le w f [] smaller = omega arith
  weigh-map_values-le w f ((j, v) ∷ d) smaller =
      omega (arith, smaller v, weigh-map_values-le w f d smaller)

  pub count-map_values-zero :
      (q : V → Bool) (f : V → V) (d : Dict V)
      → All (λ v. q (f v) ≡ false) (values d)
      → weigh (counts q) (map_values f d) ≡ 0
  unfolding weigh map_values values
  count-map_values-zero q f [] h = refl
  count-map_values-zero q f ((j, v) ∷ d) h = ground (arith, h.0, count-map_values-zero q f d h.1)

-- At most one value passes `has (some x)`, for each text that is not empty.
abbrev pub Unique {ℓ} : {V : Type ℓ} → (V → Bool) → Dict V → Type 0
Unique q d = weigh (counts q) d ≤ 1

module _ {ℓ} {V : Type ℓ} (q : V → Bool) (d : Dict V) (k : String) (v : V) where
  -- A new value that passes is alone when none passed before.
  pub Unique-put :
      Unique q d → (q v ≡ true → is_some (find_value q d) ≡ false) → Unique q (put d k v)
  Unique-put unique alone = elim (Bool-cases (q v)) [
    | inr fails ↦ ground (arith, weigh-put (counts q) d k v, fails)
    | inl passes ↦
        ground (arith, weigh-put (counts q) d k v, passes, alone passes, find_value-eq_count q d)
  ]
