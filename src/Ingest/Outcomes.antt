-- ===== src/Ingest/Outcomes.antt =====
-- What one call of `ingest` does to the store.
use mathlib.Core.List.{append-nil}
use ugsync.Prelude.{
  ◌⊎◌, ℕ, ◌≡◌, refl, sym, not, ◌&&◌, Option, none, some, List, [], ◌∷◌, ◌++◌, map, String, str_eq,
  eq_refl, length, ◌==◌, if◌then◌else◌, arith, Bool-cases, inl, inr,
}
use ugsync.Dict.{get, put, get-put, IsKeyed, IsKeyed-put, find_value-put}
use ugsync.Exec.{Result, ok, err}
use ugsync.Exec.Rules.{Result-cases}
use ugsync.Ingest.Store.{
  ChunkManifest, MatchCandidate, ChunkRow, IngestionStore, IngestError, unknown_source,
  record_match_jobs, chunk_with_id, chunk_row, match_job,
}
use ugsync.Ingest.Service.{
  LandmarkIndex, IngestionResult, manifest_to_fingerprint, replay_of, receipt_of, ingested_event,
  match_chunk, ingest,
}

abbrev pub IsIngestion : IngestionStore → Type 0
IsIngestion s = IsKeyed (λ c. c.edge_chunk_id) s.chunks

-- The arguments of a call.
pub record Arrival : Type 0 where
  pub index : Option LandmarkIndex
  pub manifest : ChunkManifest
  pub request_id : Option String
  pub min_votes : ℕ
  pub receipt_id : String
  pub audit_id : String

abbrev pub run : Arrival → IngestionStore → Result IngestError IngestionResult × IngestionStore
run a s = ingest a.index a.manifest a.request_id a.min_votes a.receipt_id a.audit_id s

-- The candidates for a chunk: the answer of an index with its schema, else none.
abbrev pub answer :
    Option LandmarkIndex → ChunkManifest → ℕ → Result IngestError (List MatchCandidate)
answer none m min_votes = ok []
answer (some index) m min_votes =
    if str_eq m.fingerprint_schema_id index.schema_id && not (length m.landmarks == 0)
    then index.query (manifest_to_fingerprint m) min_votes
    else ok []

abbrev pub matched_row : Arrival → (source_id : String) → List MatchCandidate → ChunkRow
matched_row a source_id candidates =
    record (chunk_row a.receipt_id a.manifest.edge_chunk_id source_id a.manifest.device_id
      a.manifest) { candidate_count = length candidates }

pub record Recorded (a : Arrival) (s : IngestionStore) (r : IngestionResult) (s' : IngestionStore)
    : Type 0 where
  pub source_id : String
  pub candidates : List MatchCandidate
  pub provisioned : get s.sources a.manifest.source_code ≡ some source_id
  pub matched : answer a.index a.manifest a.min_votes ≡ ok candidates
  pub was_new : get s.chunks a.manifest.edge_chunk_id ≡ none
  pub result : r ≡ receipt_of a.index a.manifest a.receipt_id source_id candidates
  pub chunks :
      (k : String)
      → get s'.chunks k ≡ (
          if str_eq a.manifest.edge_chunk_id k
          then some (matched_row a source_id candidates)
          else get s.chunks k)
  pub match_jobs : s'.match_jobs ≡ s.match_jobs ++ map (match_job a.receipt_id) candidates
  pub audit_events :
      s'.audit_events
      ≡ s.audit_events
        ++ ingested_event a.index a.manifest a.request_id a.audit_id a.receipt_id candidates ∷ []
  pub sources : s'.sources ≡ s.sources
  pub keyed : IsIngestion s'

pub data Ingests (a : Arrival) (s : IngestionStore)
    : Result IngestError IngestionResult → IngestionStore → Type 0 where
  replay :
      (row : ChunkRow)
      → get s.chunks a.manifest.edge_chunk_id ≡ some row
      → Ingests a s (ok (replay_of a.index a.manifest row)) s
  unprovisioned :
      get s.chunks a.manifest.edge_chunk_id ≡ none
      → get s.sources a.manifest.source_code ≡ none
      → Ingests a s (err unknown_source) s
  unmatched :
      (e : IngestError)
      → get s.chunks a.manifest.edge_chunk_id ≡ none
      → answer a.index a.manifest a.min_votes ≡ err e
      → Ingests a s (err e) s
  recorded : {r : IngestionResult} {s' : IngestionStore} → Recorded a s r s' → Ingests a s (ok r) s'

-- A store with the new chunk in it, before it is matched.
abbrev pub with_chunk : Arrival → (source_id : String) → IngestionStore → IngestionStore
with_chunk a source_id s = record s {
  chunks =
      put s.chunks a.manifest.edge_chunk_id
        (chunk_row a.receipt_id a.manifest.edge_chunk_id source_id a.manifest.device_id a.manifest);
}

-- The stores in which matching left a new chunk.
pub record Matched (a : Arrival) (source_id : String) (s : IngestionStore)
    (candidates : List MatchCandidate) (s' : IngestionStore) : Type 0 where
  pub chunks :
      (k : String)
      → get s'.chunks k ≡ (
          if str_eq a.manifest.edge_chunk_id k
          then some (matched_row a source_id candidates)
          else get s.chunks k)
  pub match_jobs : s'.match_jobs ≡ s.match_jobs ++ map (match_job a.receipt_id) candidates
  pub audit_events : s'.audit_events ≡ s.audit_events
  pub sources : s'.sources ≡ s.sources
  pub keyed : IsIngestion s'

unmatched_chunk :
    (a : Arrival) (source_id : String) (s : IngestionStore)
    → IsIngestion s
    → Matched a source_id s [] (with_chunk a source_id s)
unmatched_chunk a source_id s keyed = record {
  chunks = λ k. get-put s.chunks a.manifest.edge_chunk_id k _;
  match_jobs = sym (append-nil s.match_jobs);
  audit_events = refl;
  sources = refl;
  keyed = IsKeyed-put _ s.chunks a.manifest.edge_chunk_id _ refl keyed;
}

-- Where no chunk has the new receipt's identifier, the new chunk is the one that it finds.
find-new :
    (a : Arrival) (source_id : String) (s : IngestionStore)
    → chunk_with_id a.receipt_id s ≡ none
    → get s.chunks a.manifest.edge_chunk_id ≡ none
    → chunk_with_id a.receipt_id (with_chunk a source_id s)
      ≡ some (
          chunk_row a.receipt_id a.manifest.edge_chunk_id source_id a.manifest.device_id a.manifest)
unfolding chunk_with_id
find-new a source_id s fresh new =
    find_value-put _ s.chunks a.manifest.edge_chunk_id _ fresh new (eq_refl a.receipt_id)

abbrev pub joined :
    Arrival → (source_id : String) → IngestionStore → List MatchCandidate → IngestionStore
joined a source_id s candidates = record (with_chunk a source_id s) {
  chunks =
      put (with_chunk a source_id s).chunks a.manifest.edge_chunk_id
        (matched_row a source_id candidates);
  match_jobs = s.match_jobs ++ map (match_job a.receipt_id) candidates;
}

joined-Matched :
    (a : Arrival) (source_id : String) (s : IngestionStore) (candidates : List MatchCandidate)
    → IsIngestion s
    → Matched a source_id s candidates (joined a source_id s candidates)
joined-Matched a source_id s candidates keyed = record {
  chunks = λ k. ground (
    arith,
    get-put (with_chunk a source_id s).chunks a.manifest.edge_chunk_id k
        (matched_row a source_id candidates),
    get-put s.chunks a.manifest.edge_chunk_id k
        (chunk_row a.receipt_id a.manifest.edge_chunk_id source_id a.manifest.device_id a.manifest),
  );
  match_jobs = refl;
  audit_events = refl;
  sources = refl;
  keyed =
      IsKeyed-put _ (with_chunk a source_id s).chunks a.manifest.edge_chunk_id _ refl
        (IsKeyed-put _ s.chunks a.manifest.edge_chunk_id _ refl keyed);
}

-- How the matching of a new chunk ends.
abbrev pub MatchEnds : Arrival → (source_id : String) → IngestionStore → Type 0
MatchEnds a source_id s =
    ((candidates : List MatchCandidate) × (s' : IngestionStore) × (match_chunk a.index a.manifest
          a.receipt_id a.min_votes (with_chunk a source_id s)
        ≡ (ok candidates, s'))
      × (answer a.index a.manifest a.min_votes ≡ ok candidates)
      × Matched a source_id s candidates s')
    ⊎ ((e : IngestError) × (s' : IngestionStore) × (match_chunk a.index a.manifest a.receipt_id
            a.min_votes (with_chunk a source_id s)
          ≡ (err e, s'))
        × (answer a.index a.manifest a.min_votes ≡ err e))

module _ (a : Arrival) (source_id : String) (s : IngestionStore) (keyed : IsIngestion s)
    (fresh : chunk_with_id a.receipt_id s ≡ none)
    (new : get s.chunks a.manifest.edge_chunk_id ≡ none) where
  pub match-ends : (index : Option LandmarkIndex) → a.index ≡ index → MatchEnds a source_id s
  unfolding record_match_jobs
  match-ends none is =
      inl
        ([], with_chunk a source_id s, rw is refl, rw is refl, unmatched_chunk a source_id s keyed)
  match-ends (some index) is =
      elim (Bool-cases (
        str_eq a.manifest.fingerprint_schema_id index.schema_id
        && not (length a.manifest.landmarks == 0))) [
          | inr skipped ↦ inl (
            [],
            with_chunk a source_id s,
            rw (is, skipped) refl,
            rw (is, skipped) refl,
            unmatched_chunk a source_id s keyed,
          )
          | inl asked ↦
              elim (Result-cases (index.query (manifest_to_fingerprint a.manifest) a.min_votes)) [
                | inl (candidates, found) ↦ inl (
                  candidates,
                  joined a source_id s candidates,
                  rw (is, asked, found, find-new a source_id s fresh new) refl,
                  rw (is, asked) found,
                  joined-Matched a source_id s candidates keyed,
                )
                | inr (e, failed) ↦ inr (
                  e,
                  with_chunk a source_id s,
                  rw (is, asked, failed) refl,
                  rw (is, asked) failed,
                )
              ]
        ]
