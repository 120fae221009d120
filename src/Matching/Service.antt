-- ===== src/Matching/Service.antt =====
-- matching/store.py and matching/service.py: the interface of a landmark store, the store in memory,
-- and `LandmarkIndexService`; `match` of audio/fingerprint.py beside them.
use ugsync.Prelude.{
  ℕ, not, Option, none, some, List, [], ◌∷◌, String, str_eq, length, ltb, if◌then◌else◌,
}
use ugsync.Prelude.Int.{ℤ}
use ugsync.Dict.{Dict, get, keys}
use ugsync.Exec.{Exec, Result, ok, err, gets, raise_if, ◌>>◌}
use ugsync.Ingest.Store.{LandmarkHash}
use ugsync.Ingest.Service.{Fingerprint}
use ugsync.Matching.Index.{
  Occurrence, FingerprintIndex, IndexError, value_error, key_error, track_hash_count, add_track,
  remove_track,
}
use ugsync.Matching.Hits.{Rounding, MatchConfig, LandmarkReader, Hits, VoteResult}
use ugsync.Matching.Vote.{
  vote_candidates, vote_scales, best_per_track, result_of, ranked, scales_of, is_empty,
}

pub record LandmarkIndexStore (State : Type 0) : Type 0 where
  pub schema_id : String
  pub register : (track_id : String) → Fingerprint → Exec IndexError State ℕ
  pub remove : (track_id : String) → State → State
  pub fetch : (schema_id : String) → State → ℤ → ℕ → List Occurrence
  pub hash_count : (schema_id : String) → State → (track_id : String) → ℕ
  pub track_count : State → ℕ

unfoldable pub register_track :
    (schema_id track_id : String) → Fingerprint → Exec IndexError FingerprintIndex ℕ
register_track schema_id track_id fingerprint = do
  add_track schema_id track_id fingerprint
  gets (track_hash_count track_id)

-- `InMemoryLandmarkStore`
abbrev pub in_memory : (schema_id : String) → LandmarkIndexStore FingerprintIndex
in_memory own = record {
  schema_id = own;
  register = register_track own;
  remove = remove_track;
  fetch = λ schema_id ix r d. if str_eq schema_id own then ix.inverted r d else [];
  hash_count =
      λ schema_id ix track_id. if str_eq schema_id own then track_hash_count track_id ix else 0;
  track_count = λ ix. length (keys ix.track_hashes);
}

module _ {State : Type 0} (store : LandmarkIndexStore State) where
  -- `enroll`
  unfoldable pub enroll : (track_id : String) → Fingerprint → Exec IndexError State ℕ
  enroll track_id fingerprint = do
    raise_if (not (str_eq fingerprint.schema_id store.schema_id)) value_error
    raise_if (is_empty fingerprint.hashes) value_error
    store.register track_id fingerprint

  abbrev pub reader_of : (schema_id : String) → State → LandmarkReader
  reader_of schema_id s = record {
    fetch = store.fetch schema_id s;
    hash_count = store.hash_count schema_id s;
  }

  -- `query`
  unfoldable pub query_index :
      Rounding
      → MatchConfig
      → State
      → Fingerprint
      → (min_votes : ℕ) → (scales : List ℕ) → (limit : ℕ) → Result IndexError (List VoteResult)
  query_index rounding config s query min_votes scales limit =
      if str_eq query.schema_id store.schema_id
      then vote_candidates rounding config (reader_of query.schema_id s) query min_votes scales
          limit
      else err value_error

abbrev pub cons_match :
    VoteResult → Result IndexError (List VoteResult) → Result IndexError (List VoteResult)
cons_match v (err e) = err e
cons_match v (ok vs) = ok (v ∷ vs)

-- `len(self._track_hashes[track_id])`
abbrev pub with_hashes :
    Rounding
    → ℕ
    → Hits
    → Option (List LandmarkHash)
    → Result IndexError (List VoteResult)
    → Result IndexError (List VoteResult)
with_hashes rounding query_count v none rest = err key_error
with_hashes rounding query_count v (some hashes) rest =
    cons_match (result_of rounding query_count (length hashes) v) rest

unfoldable pub collect_matches :
    Rounding
    → FingerprintIndex
    → (query_count min_votes : ℕ) → Dict Hits
    → Result IndexError (List VoteResult)
collect_matches rounding ix query_count min_votes [] = ok []
collect_matches rounding ix query_count min_votes ((track_id, v) ∷ rest) =
    let results = collect_matches rounding ix query_count min_votes rest in
    if ltb (length v.query_hits) min_votes
    then results
    else with_hashes rounding query_count v (get ix.track_hashes track_id) results

abbrev pub rank_matches :
    Rounding
    → (limit : ℕ) → Result IndexError (List VoteResult)
    → Result IndexError (List VoteResult)
rank_matches rounding limit (err e) = err e
rank_matches rounding limit (ok results) = ok (ranked rounding limit results)

abbrev pub index_reader : FingerprintIndex → LandmarkReader
index_reader ix = record {
  fetch = ix.inverted;
  hash_count = λ track_id. track_hash_count track_id ix;
}

module _ (rounding : Rounding) (config : MatchConfig) (ix : FingerprintIndex) where
  abbrev pub matches_of :
      (min_votes limit : ℕ)
      → List LandmarkHash
      → Result IndexError (List ℕ)
      → Result IndexError (List VoteResult)
  matches_of min_votes limit hashes (err e) = err e
  matches_of min_votes limit hashes (ok scales) = rank_matches rounding limit (
      collect_matches rounding ix (length hashes) min_votes
        (best_per_track (vote_scales rounding config (index_reader ix) scales hashes []) []))

  -- `InMemoryFingerprintIndex.match`
  unfoldable pub index_match :
      (schema_id : String)
      → Fingerprint
      → (min_votes : ℕ) → (scales : List ℕ) → (limit : ℕ) → Result IndexError (List VoteResult)
  index_match schema_id query min_votes scales limit =
      if str_eq query.schema_id schema_id
      then matches_of min_votes limit query.hashes (scales_of min_votes limit query.hashes scales)
      else err value_error
