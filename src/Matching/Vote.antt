-- ===== src/Matching/Vote.antt =====
-- matching/service.py: `vote_candidates`, over what it reads of a store.
use ugsync.Prelude.{
  ℕ, suc, max, Bool, true, false, ◌&&◌, ◌||◌, Option, none, some, List, [], ◌∷◌, ◌++◌, String,
  length, take, ltb, leb, any, ◌==◌, if◌then◌else◌,
}
use ugsync.Prelude.Int.{ℤ, pos}
use ugsync.Prelude.Sort.{sort_by}
use ugsync.Dict.{Dict, get, put}
use ugsync.Exec.{Result, ok, err}
use ugsync.Ingest.Store.{LandmarkHash}
use ugsync.Ingest.Service.{Fingerprint}
use ugsync.Matching.Index.{Occurrence, IndexError, value_error}
use ugsync.Matching.Hits.{
  Rounding, MatchConfig, LandmarkReader, Hits, VoteResult, around, count_all,
}

-- `occurrences`: none for a delta below 1
abbrev pub fetch_at : LandmarkReader → ℤ → ℤ → List Occurrence
fetch_at reader r (pos (suc d)) = reader.fetch r (suc d)
fetch_at reader r _ = []

unfoldable pub fetch_deltas : LandmarkReader → ℤ → List ℤ → List Occurrence
fetch_deltas reader r [] = []
fetch_deltas reader r (d ∷ ds) = fetch_at reader r d ++ fetch_deltas reader r ds

-- What the two loops over the tolerances go through, in order.
unfoldable pub fetch_near : LandmarkReader → List ℤ → List ℤ → List Occurrence
fetch_near reader [] ds = []
fetch_near reader (r ∷ rs) ds = fetch_deltas reader r ds ++ fetch_near reader rs ds

module _ (rounding : Rounding) (config : MatchConfig) (reader : LandmarkReader) where
  abbrev pub near : (scale : ℕ) → LandmarkHash → List Occurrence
  near scale l = fetch_near reader (around l.frequency_ratio_bin config.ratio_tolerance_bins) (
      around (pos (max 1 (rounding.scaled scale l.delta_frames)))
        config.tempo_delta_tolerance_frames)

  unfoldable pub vote_landmarks :
      (scale query_index : ℕ) → List LandmarkHash → List Hits → List Hits
  vote_landmarks scale q [] hits = hits
  vote_landmarks scale q (l ∷ ls) hits =
      vote_landmarks scale (suc q) ls
        (count_all scale (rounding.scaled scale l.anchor_frame) q (near scale l) [] hits)

  unfoldable pub vote_scales : (scales : List ℕ) → List LandmarkHash → List Hits → List Hits
  vote_scales [] ls hits = hits
  vote_scales (scale ∷ scales) ls hits = vote_scales scales ls (vote_landmarks scale 0 ls hits)

-- The candidate of the track, unless one with at least as many votes is there.
abbrev pub better : Option Hits → Hits → Bool
better none v = true
better (some current) v = ltb (length current.query_hits) (length v.query_hits)

-- `best_per_track`, in the order in which the tracks were first met
unfoldable pub best_per_track : List Hits → Dict Hits → Dict Hits
best_per_track [] best = best
best_per_track (v ∷ vs) best =
    best_per_track vs
      (if better (get best v.key.track_id) v then put best v.key.track_id v else best)

-- `(-votes, -query coverage, -track coverage, track)`, not after
abbrev pub ranks_before : (String → String → Bool) → VoteResult → VoteResult → Bool
ranks_before text_leb a b =
    ltb b.vote_count a.vote_count
    || (a.vote_count == b.vote_count
        && (ltb b.query_coverage a.query_coverage
            || (a.query_coverage == b.query_coverage
                && (ltb b.track_coverage a.track_coverage
                    || (a.track_coverage == b.track_coverage && text_leb a.track_id b.track_id)))))

abbrev pub result_of : Rounding → (query_count hash_count : ℕ) → Hits → VoteResult
result_of rounding query_count hash_count v = record {
  track_id = v.key.track_id;
  vote_count = length v.query_hits;
  query_coverage = rounding.ratio (length v.query_hits) query_count;
  track_coverage = rounding.ratio (length v.reference_hits) (max 1 hash_count);
  tempo_scale = v.key.scale;
  offset_seconds = rounding.seconds v.key.offset;
}

unfoldable pub collect_results :
    Rounding → LandmarkReader → (query_count min_votes : ℕ) → Dict Hits → List VoteResult
collect_results rounding reader query_count min_votes [] = []
collect_results rounding reader query_count min_votes ((track_id, v) ∷ rest) =
    let results = collect_results rounding reader query_count min_votes rest in
    if ltb (length v.query_hits) min_votes
    then results
    else result_of rounding query_count (reader.hash_count track_id) v ∷ results

-- `sorted({...})` of the scales
unfoldable pub distinct_scales : List ℕ → List ℕ
distinct_scales [] = []
distinct_scales (s ∷ ss) =
    let rest = distinct_scales ss in if any (λ x. x == s) rest then rest else s ∷ rest

abbrev pub sorted_scales : List ℕ → List ℕ
sorted_scales scales = sort_by leb (distinct_scales scales)

abbrev pub is_empty : {A : Type 0} → List A → Bool
is_empty [] = true
is_empty (x ∷ xs) = false

-- What the arguments make of a query: an error, no candidates, or the scales to vote with.
unfoldable pub scales_of :
    (min_votes limit : ℕ) → List LandmarkHash → List ℕ → Result IndexError (List ℕ)
scales_of min_votes limit hashes scales =
    if ltb min_votes 1
    then err value_error
    else if ltb limit 1 || is_empty hashes
    then ok []
    else if is_empty scales || any (λ s. s == 0) scales
    then err value_error
    else ok (sorted_scales scales)

unfoldable pub ranked : Rounding → (limit : ℕ) → List VoteResult → List VoteResult
ranked rounding limit results = take limit (sort_by (ranks_before rounding.text_leb) results)

module _ (rounding : Rounding) (config : MatchConfig) (reader : LandmarkReader) where
  abbrev pub candidates_of :
      (min_votes limit : ℕ)
      → List LandmarkHash
      → Result IndexError (List ℕ)
      → Result IndexError (List VoteResult)
  candidates_of min_votes limit hashes (err e) = err e
  candidates_of min_votes limit hashes (ok scales) = ok (
      ranked rounding limit (
        collect_results rounding reader (length hashes) min_votes
          (best_per_track (vote_scales rounding config reader scales hashes []) [])))

  unfoldable pub vote_candidates :
      Fingerprint
      → (min_votes : ℕ) → (scales : List ℕ) → (limit : ℕ) → Result IndexError (List VoteResult)
  vote_candidates query min_votes scales limit =
      candidates_of min_votes limit query.hashes (scales_of min_votes limit query.hashes scales)
