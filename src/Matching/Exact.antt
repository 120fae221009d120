-- ===== src/Matching/Exact.antt =====
-- What a lookup finds of a track: exactly the landmarks of its current fingerprint with that key.
use ugsync.Prelude.{
  ℕ, suc, ◌≡◌, refl, sym, ◌∙◌, subst, Bool, true, false, none, some, List, [], ◌∷◌, ◌++◌, String,
  str_eq, eq_iff, eq_refl, keep_if, arith, Bool-cases, Option-cases, inl, inr, if◌then◌else◌,
}
use ugsync.Prelude.Int.{ℤ}
use ugsync.Dict.{get, put, delete, get-put, get-delete}
use ugsync.Ingest.Store.{LandmarkHash}
use ugsync.Matching.Index.{
  Occurrence, Inverted, FingerprintIndex, has_key, change, occurrence, is_of, is_other, filter_each,
  append_from, drop_hashes, remove_track, insert_track, hashes_of,
}

-- The occurrences of a track under a key, read off its landmarks.
unfoldable pub entries :
    (track_id : String) → (hash_index : ℕ) → ℤ → ℕ → List LandmarkHash → List Occurrence
entries track_id i r d [] = []
entries track_id i r d (l ∷ ls) =
    let rest = entries track_id (suc i) r d ls in
    if has_key r d l then occurrence track_id i l ∷ rest else rest

-- The index as a table of fingerprints: of each track a lookup finds the entries of its landmarks.
abbrev pub IsExact : FingerprintIndex → Type 0
IsExact ix =
    (track_id : String) (r : ℤ) (d : ℕ)
    → keep_if (is_of track_id) (ix.inverted r d) ≡ entries track_id 0 r d (hashes_of track_id ix)

append_assoc : {A : Type 0} (xs ys zs : List A) → (xs ++ ys) ++ zs ≡ xs ++ (ys ++ zs)
append_assoc [] ys zs = refl
append_assoc (x ∷ xs) ys zs = cc (append_assoc xs ys zs)

append_nil : {A : Type 0} (xs : List A) → xs ++ [] ≡ xs
append_nil [] = refl
append_nil (x ∷ xs) = cc (append_nil xs)

append_from-eq :
    (track_id : String) (i : ℕ) (ls : List LandmarkHash) (inverted : Inverted) (r : ℤ) (d : ℕ)
    → append_from track_id i ls inverted r d ≡ inverted r d ++ entries track_id i r d ls
unfolding append_from entries
append_from-eq track_id i [] inverted r d = sym (append_nil (inverted r d))
append_from-eq track_id i (l ∷ ls) inverted r d =
    let o = occurrence track_id i l in
    let more = append_from-eq track_id (suc i) ls (change l (λ os. os ++ o ∷ []) inverted) r d in
    elim (Bool-cases (has_key r d l)) [
      | inl own ↦
          rw (more, own) (append_assoc (inverted r d) (o ∷ []) (entries track_id (suc i) r d ls))
      | inr other ↦ rw (more, other) refl
    ]

module _ {A : Type 0} (p : A → Bool) where
  keep_if-append : (xs ys : List A) → keep_if p (xs ++ ys) ≡ keep_if p xs ++ keep_if p ys
  keep_if-append [] ys = refl
  keep_if-append (x ∷ xs) ys = ground (arith, keep_if-append xs ys)

keep_own :
    (t : String) (i : ℕ) (r : ℤ) (d : ℕ) (ls : List LandmarkHash)
    → keep_if (is_of t) (entries t i r d ls) ≡ entries t i r d ls
unfolding entries
keep_own t i r d [] = refl
keep_own t i r d (l ∷ ls) = ground (arith, eq_refl t, keep_own t (suc i) r d ls)

keep_none :
    (t t' : String) (i : ℕ) (r : ℤ) (d : ℕ) (ls : List LandmarkHash)
    → str_eq t' t ≡ false
    → keep_if (is_of t) (entries t' i r d ls) ≡ []
unfolding entries
keep_none t t' i r d [] other = refl
keep_none t t' i r d (l ∷ ls) other = ground (arith, other, keep_none t t' (suc i) r d ls other)

-- Whether one of the landmarks has the key.
abbrev any_key : ℤ → ℕ → List LandmarkHash → Bool
any_key r d [] = false
any_key r d (l ∷ ls) = if has_key r d l then true else any_key r d ls

entries_none :
    (t : String) (i : ℕ) (r : ℤ) (d : ℕ) (ls : List LandmarkHash)
    → any_key r d ls ≡ false
    → entries t i r d ls ≡ []
unfolding entries
entries_none t i r d [] h = refl
entries_none t i r d (l ∷ ls) h = ground (arith, h, entries_none t (suc i) r d ls)

keep_others :
    (t t' : String) (os : List Occurrence)
    → str_eq t' t ≡ false
    → keep_if (is_of t) (keep_if (is_other t') os) ≡ keep_if (is_of t) os
keep_others t t' [] other = refl
keep_others t t' (o ∷ os) other =
    ground (arith, other, eq_iff o.track_id t, eq_iff o.track_id t', keep_others t t' os other)

keep_gone : (t : String) (os : List Occurrence) → keep_if (is_of t) (keep_if (is_other t) os) ≡ []
keep_gone t [] = refl
keep_gone t (o ∷ os) = ground (arith, keep_gone t os)

-- Of another track a removal keeps all.
filter_each-others :
    (t t' : String) (ls : List LandmarkHash) (inverted : Inverted) (r : ℤ) (d : ℕ)
    → str_eq t' t ≡ false
    → keep_if (is_of t) (filter_each t' ls inverted r d) ≡ keep_if (is_of t) (inverted r d)
unfolding filter_each
filter_each-others t t' [] inverted r d other = refl
filter_each-others t t' (l ∷ ls) inverted r d other =
    let more = filter_each-others t t' ls (change l (keep_if (is_other t')) inverted) r d other in
    elim (Bool-cases (has_key r d l)) [
      | inl own ↦ rw (more, own) (keep_others t t' (inverted r d) other)
      | inr free ↦ rw (more, free) refl
    ]

-- Of its own track it keeps nothing under the keys of the landmarks.
filter_each-own :
    (t : String) (ls : List LandmarkHash) (inverted : Inverted) (r : ℤ) (d : ℕ)
    → (any_key r d ls ≡ false → keep_if (is_of t) (inverted r d) ≡ [])
    → keep_if (is_of t) (filter_each t ls inverted r d) ≡ []
unfolding filter_each
filter_each-own t [] inverted r d h = h refl
filter_each-own t (l ∷ ls) inverted r d h = elim (Bool-cases (has_key r d l)) [
  | inl own ↦
      filter_each-own t ls (change l (keep_if (is_other t)) inverted) r d
        λ none_left. rw own (keep_gone t (inverted r d))
  | inr free ↦
      filter_each-own t ls (change l (keep_if (is_other t)) inverted) r d
        λ none_left. rw free (h (rw free none_left))
]

-- The landmarks that a track has after another, or the same one, was removed or put.
pub hashes_of-delete :
    (t t' : String) (ix : FingerprintIndex) (inverted : Inverted)
    → hashes_of t (record { inverted = inverted; track_hashes = delete ix.track_hashes t' })
      ≡ (if str_eq t' t then [] else hashes_of t ix)
unfolding hashes_of
hashes_of-delete t t' ix inverted = ground (arith, get-delete ix.track_hashes t' t)

pub hashes_of-put :
    (t t' : String) (ls : List LandmarkHash) (ix : FingerprintIndex) (inverted : Inverted)
    → hashes_of t (record { inverted = inverted; track_hashes = put ix.track_hashes t' ls })
      ≡ (if str_eq t' t then ls else hashes_of t ix)
unfolding hashes_of
hashes_of-put t t' ls ix inverted = ground (arith, get-put ix.track_hashes t' t ls)

dropped-IsExact :
    (t' : String) (ls : List LandmarkHash) (ix : FingerprintIndex)
    → get ix.track_hashes t' ≡ some ls
    → IsExact ix
    → IsExact (drop_hashes t' (some ls) ix)
unfolding hashes_of entries
dropped-IsExact t' ls ix found exact t r d = elim (Bool-cases (str_eq t' t)) [
  | inl own ↦
      let gone =
        filter_each-own t' ls ix.inverted r d
          λ none_left. rw (exact t' r d, found) (entries_none t' 0 r d ls none_left) in
      let same : t' ≡ t = ground (arith, eq_iff t' t, own) in
      rw (get-delete ix.track_hashes t' t, own)
        (subst (λ x. keep_if (is_of x) (filter_each t' ls ix.inverted r d) ≡ []) same gone)
  | inr other ↦
      rw (get-delete ix.track_hashes t' t, other)
        (filter_each-others t t' ls ix.inverted r d other ∙ exact t r d)
]

pub remove_track-IsExact :
    (t' : String) (ix : FingerprintIndex) → IsExact ix → IsExact (remove_track t' ix)
unfolding remove_track
remove_track-IsExact t' ix exact = elim (Option-cases (get ix.track_hashes t')) [
  | inl missing ↦ rw missing exact
  | inr (ls, found) ↦ rw found (dropped-IsExact t' ls ix found exact)
]

-- A track that the index does not have is put.
pub insert_track-IsExact :
    (t' : String) (ls : List LandmarkHash) (ix : FingerprintIndex)
    → get ix.track_hashes t' ≡ none
    → IsExact ix
    → IsExact (insert_track t' ls ix)
unfolding hashes_of entries
insert_track-IsExact t' ls ix missing exact t r d =
    rw
      (
        append_from-eq t' 0 ls ix.inverted r d,
        keep_if-append (is_of t) (ix.inverted r d) (entries t' 0 r d ls),
        get-put ix.track_hashes t' t ls,
      )
      (elim (Bool-cases (str_eq t' t)) [
        | inl own ↦
            let same : t' ≡ t = ground (arith, eq_iff t' t, own) in
            let gone : get ix.track_hashes t ≡ none =
              subst (λ x. get ix.track_hashes x ≡ none) same missing in
            rw (own, exact t r d, gone)
              (subst (λ x. keep_if (is_of t) (entries x 0 r d ls) ≡ entries t 0 r d ls) (sym same)
                (keep_own t 0 r d ls))
        | inr other ↦ rw (other, exact t r d, keep_none t t' 0 r d ls other) (append_nil _)
      ])

pub remove_track-get :
    (t : String) (ix : FingerprintIndex) → get (remove_track t ix).track_hashes t ≡ none
unfolding remove_track
remove_track-get t ix = elim (Option-cases (get ix.track_hashes t)) [
  | inl missing ↦ rw missing missing
  | inr (ls, found) ↦ rw found (ground (arith, get-delete ix.track_hashes t t, eq_refl t))
]
