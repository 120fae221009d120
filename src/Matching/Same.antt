-- ===== src/Matching/Same.antt =====
-- `match` of the reference index and `query` of the service over it are the same.
use ugsync.Prelude.{
  All, ℕ, zero, suc, ◌≡◌, refl, ap, Bool, true, none, List, [], ◌∷◌, ◌++◌, String, str_eq, eq_refl,
  is_some, keep_if, length, any, ltb, arith, Bool-cases, Option-cases, inl, inr, if◌then◌else◌,
}
use ugsync.Prelude.Int.{ℤ, pos, negsuc}
use ugsync.Dict.{Dict, get, put}
use ugsync.Exec.{Result, ok, err}
use ugsync.Ingest.Store.{LandmarkHash}
use ugsync.Ingest.Service.{Fingerprint}
use ugsync.Matching.Index.{
  Occurrence, FingerprintIndex, IndexError, new_index, is_of, hashes_of, track_hash_count,
}
use ugsync.Matching.Exact.{IsExact, entries}
use ugsync.Matching.Table.{IndexCall, run_calls, run_calls-IsExact, new_index-IsExact}
use ugsync.Matching.Hits.{
  Rounding, MatchConfig, LandmarkReader, Hits, CandidateKey, add_hit, alignment, count_all,
  same_key,
}
use ugsync.Matching.Vote.{
  fetch_at, fetch_deltas, fetch_near, vote_landmarks, vote_scales, better, best_per_track,
  collect_results, scales_of, vote_candidates, candidates_of,
}
use ugsync.Matching.Service.{
  in_memory, query_index, collect_matches, index_reader, index_match, matches_of, reader_of,
}

module _ (ix : FingerprintIndex) where
  -- A track that has been registered.
  abbrev Known : String → Type 0
  Known t = is_some (get ix.track_hashes t) ≡ true

  abbrev KnownOccurrence : Occurrence → Type 0
  KnownOccurrence o = Known o.track_id

  abbrev KnownHits : Hits → Type 0
  KnownHits v = Known v.key.track_id

  all_known :
      (os : List Occurrence)
      → ((t : String) → get ix.track_hashes t ≡ none → keep_if (is_of t) os ≡ [])
      → All KnownOccurrence os
  all_known [] h = tt
  all_known (o ∷ os) h = (
    elim (Option-cases (get ix.track_hashes o.track_id)) [
      | inl missing ↦ absurd (ground (arith, h o.track_id missing, eq_refl o.track_id))
      | inr (ls, found) ↦ rw found refl
    ],
    all_known os λ t missing. ground (arith, h t missing),
  )

  found_known : IsExact ix → (r : ℤ) (d : ℕ) → All KnownOccurrence (ix.inverted r d)
  unfolding hashes_of entries
  found_known exact r d = all_known (ix.inverted r d) λ t missing. rw (exact t r d, missing) refl

  All-append :
      (xs ys : List Occurrence)
      → All KnownOccurrence xs
      → All KnownOccurrence ys
      → All KnownOccurrence (xs ++ ys)
  All-append [] ys h k = k
  All-append (x ∷ xs) ys (h, hs) k = (h, All-append xs ys hs k)

  module _ (exact : IsExact ix) where
    fetch_at-known : (r d : ℤ) → All KnownOccurrence (fetch_at (index_reader ix) r d)
    fetch_at-known r (pos (suc d)) = found_known exact r (suc d)
    fetch_at-known r (pos zero) = tt
    fetch_at-known r (negsuc n) = tt

    fetch_deltas-known :
        (r : ℤ) (ds : List ℤ) → All KnownOccurrence (fetch_deltas (index_reader ix) r ds)
    unfolding fetch_deltas
    fetch_deltas-known r [] = tt
    fetch_deltas-known r (d ∷ ds) =
        All-append (fetch_at (index_reader ix) r d) _ (fetch_at-known r d) (fetch_deltas-known r ds)

    fetch_near-known : (rs ds : List ℤ) → All KnownOccurrence (fetch_near (index_reader ix) rs ds)
    unfolding fetch_near
    fetch_near-known [] ds = tt
    fetch_near-known (r ∷ rs) ds =
        All-append (fetch_deltas (index_reader ix) r ds) _ (fetch_deltas-known r ds)
          (fetch_near-known rs ds)

  add_hit-Known :
      (key : CandidateKey) (q h : ℕ) (vs : List Hits)
      → Known key.track_id
      → All KnownHits vs
      → All KnownHits (add_hit key q h vs)
  unfolding add_hit
  add_hit-Known key q h [] known all = (known, tt)
  add_hit-Known key q h (v ∷ vs) known (this, rest) = elim (Bool-cases (same_key v.key key)) [
    | inl same ↦ rw same (this, rest)
    | inr other ↦ rw other (this, add_hit-Known key q h vs known rest)
  ]

  count_all-known :
      (scale anchor q : ℕ) (os : List Occurrence) (seen : List CandidateKey) (vs : List Hits)
      → All KnownOccurrence os
      → All KnownHits vs
      → All KnownHits (count_all scale anchor q os seen vs)
  unfolding count_all
  count_all-known scale anchor q [] seen vs known all = all
  count_all-known scale anchor q (o ∷ os) seen vs (this, rest) all =
      elim (Bool-cases (any (same_key (alignment scale anchor o)) seen)) [
        | inl before ↦ rw before (count_all-known scale anchor q os seen vs rest all)
        | inr new ↦ rw new (
            count_all-known scale anchor q os _ _ rest
              (add_hit-Known (alignment scale anchor o) q o.hash_index vs this all))
      ]

  put-Known :
      (best : Dict Hits) (t : String) (v : Hits)
      → Known t
      → All (λ (x, w). Known x) best
      → All (λ (x, w). Known x) (put best t v)
  unfolding put
  put-Known [] t v known all = (known, tt)
  put-Known ((x, w) ∷ best) t v known (this, rest) = elim (Bool-cases (str_eq x t)) [
    | inl own ↦ rw own (this, rest)
    | inr other ↦ rw other (this, put-Known best t v known rest)
  ]

  best-Known :
      (vs : List Hits) (best : Dict Hits)
      → All KnownHits vs
      → All (λ (t, v). Known t) best
      → All (λ (t, v). Known t) (best_per_track vs best)
  unfolding best_per_track
  best-Known [] best known all = all
  best-Known (v ∷ vs) best (this, rest) all =
      elim (Bool-cases (better (get best v.key.track_id) v)) [
        | inl wins ↦ rw wins (best-Known vs _ rest (put-Known best v.key.track_id v this all))
        | inr loses ↦ rw loses (best-Known vs best rest all)
      ]

  collect-same :
      (rounding : Rounding) (count min_votes : ℕ) (best : Dict Hits)
      → All (λ (t, v). Known t) best
      → collect_matches rounding ix count min_votes best
        ≡ ok (collect_results rounding (index_reader ix) count min_votes best)
  unfolding collect_matches collect_results track_hash_count hashes_of
  collect-same rounding count min_votes [] all = refl
  collect-same rounding count min_votes ((t, v) ∷ best) (this, rest) =
      let more = collect-same rounding count min_votes best rest in
      elim (Bool-cases (ltb (length v.query_hits) min_votes)) [
        | inl few ↦ rw (few, more) refl
        | inr enough ↦ elim (Option-cases (get ix.track_hashes t)) [
          | inl missing ↦ absurd (ground (arith, this, missing))
          | inr (ls, found) ↦ rw (enough, found, more) refl
        ]
      ]

module _ (rounding : Rounding) (config : MatchConfig) (ix : FingerprintIndex)
    (exact : IsExact ix) where
  vote_landmarks-known :
      (scale q : ℕ) (ls : List LandmarkHash) (vs : List Hits)
      → All (KnownHits ix) vs
      → All (KnownHits ix) (vote_landmarks rounding config (index_reader ix) scale q ls vs)
  unfolding vote_landmarks
  vote_landmarks-known scale q [] vs all = all
  vote_landmarks-known scale q (l ∷ ls) vs all =
      vote_landmarks-known scale (suc q) ls _
        (count_all-known ix scale _ q _ [] vs (fetch_near-known ix exact _ _) all)

  vote_scales-known :
      (scales : List ℕ) (ls : List LandmarkHash) (vs : List Hits)
      → All (KnownHits ix) vs
      → All (KnownHits ix) (vote_scales rounding config (index_reader ix) scales ls vs)
  unfolding vote_scales
  vote_scales-known [] ls vs all = all
  vote_scales-known (s ∷ scales) ls vs all =
      vote_scales-known scales ls _ (vote_landmarks-known s 0 ls vs all)

  matches-same :
      (min_votes limit : ℕ) (ls : List LandmarkHash) (scales : Result IndexError (List ℕ))
      → matches_of rounding config ix min_votes limit ls scales
        ≡ candidates_of rounding config (index_reader ix) min_votes limit ls scales
  matches-same min_votes limit ls (err e) = refl
  matches-same min_votes limit ls (ok scales) =
      rw
        (collect-same ix rounding (length ls) min_votes _
          (best-Known ix _ [] (vote_scales-known scales ls [] tt) tt))
        refl

  -- What the store in memory reads, by whether the schema is its own.
  abbrev read_if : Bool → LandmarkReader
  read_if own = record {
    fetch = λ r d. if own then ix.inverted r d else [];
    hash_count = λ t. if own then track_hash_count t ix else 0;
  }

  read-same :
      (schema_id : String) (query : Fingerprint)
      → str_eq query.schema_id schema_id ≡ true
      → reader_of (in_memory schema_id) query.schema_id ix ≡ index_reader ix
  read-same schema_id query own = ap read_if own

  match-same :
      (schema_id : String) (query : Fingerprint) (min_votes : ℕ) (scales : List ℕ) (limit : ℕ)
      → index_match rounding config ix schema_id query min_votes scales limit
        ≡ query_index (in_memory schema_id) rounding config ix query min_votes scales limit
  unfolding index_match query_index vote_candidates
  match-same schema_id query min_votes scales limit =
      elim (Bool-cases (str_eq query.schema_id schema_id)) [
        | inr other ↦ rw other refl
        | inl same ↦
            rw (same, read-same schema_id query same)
              (matches-same min_votes limit query.hashes
                (scales_of min_votes limit query.hashes scales))
      ]

-- After any calls of `add` and `remove` on an empty index, `match` of the reference index and
-- `query` of the service over the store in memory give the same candidates, or the same error, to
-- any query; `match` finds the hashes of every track that it looks up.
pub match-query_index :
    (rounding : Rounding) (config : MatchConfig) (schema_id : String) (calls : List IndexCall)
    (query : Fingerprint) (min_votes : ℕ) (scales : List ℕ) (limit : ℕ)
    → index_match rounding config
        (run_calls schema_id calls new_index)
        schema_id
        query
        min_votes
        scales
        limit
      ≡ query_index
          (in_memory schema_id)
          rounding
          config
          (run_calls schema_id calls new_index)
          query
          min_votes
          scales
          limit
match-query_index rounding config schema_id calls =
    match-same rounding config (run_calls schema_id calls new_index)
      (run_calls-IsExact schema_id calls new_index new_index-IsExact) schema_id
