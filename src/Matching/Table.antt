-- ===== src/Matching/Table.antt =====
-- The index refines a table of fingerprints by track.
use ugsync.Prelude.{
  ℕ, ◌≡◌, refl, sym, not, ◌&&◌, ◌||◌, List, [], ◌∷◌, String, str_eq, eq_iff, strip, is_blank,
  keep_if, arith, Bool-cases, Option-cases, inl, inr, if◌then◌else◌,
}
use ugsync.Prelude.Int.{ℤ}
use ugsync.Dict.{get, get-put, get-delete}
use ugsync.Ingest.Store.{LandmarkHash}
use ugsync.Ingest.Service.{Fingerprint}
use ugsync.Matching.Index.{
  FingerprintIndex, new_index, is_of, remove_track, insert_track, add_track, hashes_of,
}
use ugsync.Matching.Exact.{
  entries, IsExact, remove_track-IsExact, insert_track-IsExact, remove_track-get,
}

-- The index after a call of `add`, whether it raised or not.
abbrev pub add_after :
    (schema_id : String) → (track_id : String) → Fingerprint → FingerprintIndex → FingerprintIndex
add_after schema_id track_id fp ix = (add_track schema_id track_id fp ix).1

add_track-IsExact :
    (schema_id : String) (t : String) (fp : Fingerprint) (ix : FingerprintIndex)
    → IsExact ix
    → IsExact (add_after schema_id t fp ix)
unfolding add_track
add_track-IsExact schema_id t fp ix exact = elim (Bool-cases (is_blank t || is_blank (strip t))) [
  | inl blank ↦ rw (add_after, blank) exact
  | inr given ↦ elim (Bool-cases (str_eq fp.schema_id schema_id)) [
    | inr other ↦ rw (add_after, given, other) exact
    | inl same ↦ elim (Option-cases (get ix.track_hashes t)) [
      | inl missing ↦
          rw (add_after, given, same, missing) (insert_track-IsExact t fp.hashes ix missing exact)
      | inr (ls, found) ↦
          rw (add_after, given, same, found)
            (insert_track-IsExact t fp.hashes (remove_track t ix) (remove_track-get t ix)
              (remove_track-IsExact t ix exact))
    ]
  ]
]

pub data IndexCall : Type 0 where
  add : (track_id : String) → Fingerprint → IndexCall
  remove : (track_id : String) → IndexCall

-- Calls in sequence on the index of one schema.
unfoldable pub run_calls :
    (schema_id : String) → List IndexCall → FingerprintIndex → FingerprintIndex
run_calls schema_id [] ix = ix
run_calls schema_id (add t fp ∷ calls) ix = run_calls schema_id calls (add_after schema_id t fp ix)
run_calls schema_id (remove t ∷ calls) ix = run_calls schema_id calls (remove_track t ix)

-- The table of fingerprints that the calls describe: the latest one that was accepted for a track,
-- and none after its removal.
unfoldable pub table :
    (schema_id : String)
    → List IndexCall
    → (String → List LandmarkHash)
    → String
    → List LandmarkHash
table schema_id [] known = known
table schema_id (add t fp ∷ calls) known = table schema_id calls λ x.
    if not (is_blank t || is_blank (strip t)) && str_eq fp.schema_id schema_id && str_eq t x
    then fp.hashes
    else known x
table schema_id (remove t ∷ calls) known =
    table schema_id calls λ x. if str_eq t x then [] else known x

hashes_of-remove :
    (t x : String) (ix : FingerprintIndex)
    → hashes_of x (remove_track t ix) ≡ (if str_eq t x then [] else hashes_of x ix)
unfolding remove_track hashes_of
hashes_of-remove t x ix = elim (Option-cases (get ix.track_hashes t)) [
  | inl missing ↦ rw missing (ground (arith, missing, eq_iff t x))
  | inr (ls, found) ↦ rw found (ground (arith, get-delete ix.track_hashes t x))
]

hashes_of-insert :
    (t x : String) (ls : List LandmarkHash) (ix : FingerprintIndex)
    → hashes_of x (insert_track t ls ix) ≡ (if str_eq t x then ls else hashes_of x ix)
unfolding hashes_of
hashes_of-insert t x ls ix = ground (arith, get-put ix.track_hashes t x ls)

hashes_of-add :
    (schema_id : String) (t x : String) (fp : Fingerprint) (ix : FingerprintIndex)
    → hashes_of x (add_after schema_id t fp ix) ≡ (
        if not (is_blank t || is_blank (strip t)) && str_eq fp.schema_id schema_id && str_eq t x
        then fp.hashes
        else hashes_of x ix)
unfolding add_track
hashes_of-add schema_id t x fp ix = elim (Bool-cases (is_blank t || is_blank (strip t))) [
  | inl blank ↦ rw (add_after, blank) refl
  | inr given ↦ elim (Bool-cases (str_eq fp.schema_id schema_id)) [
    | inr other ↦ rw (add_after, given, other) refl
    | inl same ↦ elim (Option-cases (get ix.track_hashes t)) [
      | inl missing ↦ rw (add_after, given, same, missing) (hashes_of-insert t x fp.hashes ix)
      | inr (ls, found) ↦
          rw (add_after, given, same, found)
            (ground
              (arith, hashes_of-insert t x fp.hashes (remove_track t ix), hashes_of-remove t x ix))
    ]
  ]
]

pub run_calls-IsExact :
    (schema_id : String) (calls : List IndexCall) (ix : FingerprintIndex)
    → IsExact ix
    → IsExact (run_calls schema_id calls ix)
unfolding run_calls
run_calls-IsExact schema_id [] ix exact = exact
run_calls-IsExact schema_id (add t fp ∷ calls) ix exact =
    run_calls-IsExact schema_id calls _ (add_track-IsExact schema_id t fp ix exact)
run_calls-IsExact schema_id (remove t ∷ calls) ix exact =
    run_calls-IsExact schema_id calls _ (remove_track-IsExact t ix exact)

run_calls-Exact :
    (schema_id : String) (calls : List IndexCall) (ix : FingerprintIndex)
    (known : String → List LandmarkHash)
    → IsExact ix
    → ((x : String) → hashes_of x ix ≡ known x)
    → (x : String) (r : ℤ) (d : ℕ)
    → keep_if (is_of x) ((run_calls schema_id calls ix).inverted r d)
      ≡ entries x 0 r d (table schema_id calls known x)
unfolding run_calls table
run_calls-Exact schema_id [] ix known exact same = λ x r d. rw (sym (same x)) (exact x r d)
run_calls-Exact schema_id (add t fp ∷ calls) ix known exact same =
    run_calls-Exact schema_id calls (add_after schema_id t fp ix) _
      (add_track-IsExact schema_id t fp ix exact)
      λ x. rw (hashes_of-add schema_id t x fp ix, same x) refl
run_calls-Exact schema_id (remove t ∷ calls) ix known exact same =
    run_calls-Exact schema_id calls (remove_track t ix) _ (remove_track-IsExact t ix exact)
      λ x. rw (hashes_of-remove t x ix, same x) refl

pub new_index-IsExact : IsExact new_index
unfolding entries hashes_of get
new_index-IsExact x r d = refl

-- After any calls of `add` and `remove` on an empty index, some of which may have raised, a lookup
-- of a key finds, of each track, exactly the landmarks with that key of the fingerprint that the
-- track was last given, each once and in its order, and none of a track that was removed.
pub run_calls-Refines :
    (schema_id : String) (calls : List IndexCall) (x : String) (r : ℤ) (d : ℕ)
    → keep_if (is_of x) ((run_calls schema_id calls new_index).inverted r d)
      ≡ entries x 0 r d (table schema_id calls (λ y. []) x)
run_calls-Refines schema_id calls x r d =
    run_calls-Exact schema_id calls new_index (λ y. []) new_index-IsExact
      (λ y. unfold hashes_of get in refl) x r d
