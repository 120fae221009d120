-- ===== src/Matching/Tests.antt =====
-- Runs of the landmark index, and its theorems at concrete inputs.
use ugsync.Prelude.{All, ◌≤◌, ◌≡◌, refl, List, [], ◌∷◌, keep_if, strip, lstrip, rstrip, true}
use ugsync.Prelude.Int.{pos}
use ugsync.Prelude.Sort.{sort_by, insert_by}
use ugsync.Dict.{get, put, delete}
use ugsync.Exec.{ok}
use ugsync.Ingest.Store.{LandmarkHash}
use ugsync.Ingest.Service.{Fingerprint}
use ugsync.Matching.Index.{
  new_index, is_of, occurrence, add_track, remove_track, filter_each, append_from, track_hash_count,
  hashes_of,
}
use ugsync.Matching.Exact.{entries}
use ugsync.Matching.Table.{IndexCall, add, run_calls, table, run_calls-Refines}
use ugsync.Matching.Hits.{Rounding, MatchConfig, VoteResult, span, count_all, add_hit}
use ugsync.Matching.Vote.{
  vote_candidates, collect_results, scales_of, vote_scales, vote_landmarks, fetch_near,
  fetch_deltas, best_per_track, ranked, distinct_scales,
}
use ugsync.Matching.Service.{in_memory, query_index, index_match, collect_matches, index_reader}
use ugsync.Matching.Bounds.{HasVotes, vote_candidates-HasVotes}
use ugsync.Matching.Same.{match-query_index}

abbrev first : LandmarkHash
first = record { anchor_frame = 0; frequency_ratio_bin = pos 5; delta_frames = 3 }

abbrev second : LandmarkHash
second = record { anchor_frame = 4; frequency_ratio_bin = pos 7; delta_frames = 2 }

abbrev print_of : List LandmarkHash → Fingerprint
print_of hashes = record { schema_id = "s"; duration_micros = 1_000_000; hashes = hashes }

-- A track is registered, and replaced.
abbrev calls : List IndexCall
calls = add "t" (print_of (first ∷ [])) ∷ add "t" (print_of (second ∷ first ∷ [])) ∷ []

run_calls-Refines_example :
    keep_if (is_of "t") ((run_calls "s" calls new_index).inverted (pos 5) 3)
    ≡ entries "t" 0 (pos 5) 3 (table "s" calls (λ y. []) "t")
run_calls-Refines_example = run_calls-Refines "s" calls "t" (pos 5) 3

-- The landmark stands once, at its new index.
replaced : entries "t" 0 (pos 5) 3 (table "s" calls (λ y. []) "t") ≡ occurrence "t" 1 first ∷ []
unfolding entries table strip lstrip rstrip
replaced = refl

abbrev rounding : Rounding
rounding = record { scaled = λ s n. n; ratio = λ a b. a; seconds = λ n. n; text_leb = λ a b. true }

abbrev config : MatchConfig
config = record { ratio_tolerance_bins = 1; tempo_delta_tolerance_frames = 1 }

match-query_index_example :
    index_match rounding config
      (run_calls "s" calls new_index)
      "s"
      (print_of (first ∷ second ∷ []))
      1
      (100_000 ∷ [])
      5
    ≡ query_index
        (in_memory "s")
        rounding
        config
        (run_calls "s" calls new_index)
        (print_of (first ∷ second ∷ []))
        1
        (100_000 ∷ [])
        5
match-query_index_example =
    match-query_index rounding config "s" calls (print_of (first ∷ second ∷ [])) 1 (100_000 ∷ []) 5

-- Both landmarks of the query vote for the track.
abbrev found : VoteResult
found = record {
  track_id = "t";
  vote_count = 2;
  query_coverage = 2;
  track_coverage = 2;
  tempo_scale = 100_000;
  offset_seconds = pos 0;
}

both_vote :
    index_match rounding config
      (run_calls "s" calls new_index)
      "s"
      (print_of (first ∷ second ∷ []))
      1
      (100_000 ∷ [])
      5
    ≡ ok (found ∷ [])
unfolding index_match scales_of collect_matches best_per_track vote_scales sort_by insert_by
    distinct_scales vote_landmarks count_all fetch_near span fetch_deltas run_calls add_track
    remove_track filter_each strip lstrip rstrip append_from get put delete add_hit ranked
both_vote = refl

both_found :
    vote_candidates rounding config
      (index_reader (run_calls "s" calls new_index))
      (print_of (first ∷ second ∷ []))
      1
      (100_000 ∷ [])
      5
    ≡ ok (found ∷ [])
unfolding vote_candidates scales_of collect_results best_per_track vote_scales sort_by insert_by
    distinct_scales vote_landmarks count_all fetch_near span fetch_deltas run_calls add_track
    remove_track filter_each strip lstrip rstrip append_from get put delete add_hit ranked
    track_hash_count hashes_of
both_found = refl

vote_candidates-HasVotes_example : (1 ≤ 5) × All (HasVotes 1 2) (found ∷ [])
vote_candidates-HasVotes_example =
    vote_candidates-HasVotes rounding config (index_reader (run_calls "s" calls new_index))
      (print_of (first ∷ second ∷ [])) 1 (100_000 ∷ []) 5 both_found
