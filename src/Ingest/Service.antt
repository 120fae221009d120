-- ===== src/Ingest/Service.antt =====
-- ingestion_api/service.py. The landmark index is an interface: a schema and a query, which may
-- raise ValueError.
use ugsync.Prelude.{
  ℕ, ◌-◌, Bool, true, false, not, ◌&&◌, Option, none, some, List, [], String, str_eq, length, ◌==◌,
  if◌then◌else◌,
}
use ugsync.Dict.{get}
use ugsync.Exec.{Result, pure, gets, transaction, ◌>>=◌, ◌>>◌}
use ugsync.Ingest.Store.{
  LandmarkHash, ChunkManifest, MatchCandidate, ChunkRow, IngestAudit, IngestError, Ingest,
  resolve_source, record_chunk, record_match_jobs, write_ingest_audit,
}

-- A query fingerprint; peaks are not uploaded.
pub record Fingerprint : Type 0 where
  pub schema_id : String
  pub duration_micros : ℕ
  pub hashes : List LandmarkHash

pub record LandmarkIndex : Type 0 where
  pub schema_id : String
  pub query : Fingerprint → (min_votes : ℕ) → Result IngestError (List MatchCandidate)

-- `max(0.0, duration_seconds)`
abbrev pub manifest_to_fingerprint : ChunkManifest → Fingerprint
manifest_to_fingerprint m = record {
  schema_id = m.fingerprint_schema_id;
  duration_micros = m.ended_at - m.started_at;
  hashes = m.landmarks;
}

pub record IngestionResult : Type 0 where
  pub edge_chunk_id : String
  pub receipt_id : String
  pub replayed : Bool
  pub landmark_count : ℕ
  pub candidate_count : ℕ
  pub candidates : List MatchCandidate
  pub schema_compatible : Bool
  pub source_id : String

abbrev pub is_compatible : Option LandmarkIndex → ChunkManifest → Bool
is_compatible none m = true
is_compatible (some index) m = str_eq m.fingerprint_schema_id index.schema_id

abbrev pub replay_of : Option LandmarkIndex → ChunkManifest → ChunkRow → IngestionResult
replay_of index m existing = record {
  edge_chunk_id = m.edge_chunk_id;
  receipt_id = existing.id;
  replayed = true;
  landmark_count = length m.landmarks;
  candidate_count = existing.candidate_count;
  candidates = [];
  schema_compatible = is_compatible index m;
  source_id = existing.source_id;
}

abbrev pub ingested_event :
    Option LandmarkIndex
    → ChunkManifest
    → (request_id : Option String) → (audit_id chunk_id : String) → List MatchCandidate
    → IngestAudit
ingested_event index m request_id audit_id chunk_id candidates = record {
  id = audit_id;
  action = "capture.ingested";
  entity_type = "capture_chunk";
  entity_id = chunk_id;
  request_id = request_id;
  edge_chunk_id = m.edge_chunk_id;
  source_code = m.source_code;
  device_id = m.device_id;
  schema_id = m.fingerprint_schema_id;
  landmarks = length m.landmarks;
  candidates = length candidates;
  schema_compatible = is_compatible index m;
}

abbrev pub receipt_of :
    Option LandmarkIndex
    → ChunkManifest
    → (chunk_id source_id : String) → List MatchCandidate
    → IngestionResult
receipt_of index m chunk_id source_id candidates = record {
  edge_chunk_id = m.edge_chunk_id;
  receipt_id = chunk_id;
  replayed = false;
  landmark_count = length m.landmarks;
  candidate_count = length candidates;
  candidates = candidates;
  schema_compatible = is_compatible index m;
  source_id = source_id;
}

abbrev pub lift : Result IngestError (List MatchCandidate) → Ingest (List MatchCandidate)
lift r s = (r, s)

-- The matching of a new chunk against an index with its schema.
abbrev pub query_and_record :
    LandmarkIndex
    → ChunkManifest
    → (chunk_id : String) → (min_votes : ℕ) → Ingest (List MatchCandidate)
query_and_record index m chunk_id min_votes = do
  candidates ← lift (index.query (manifest_to_fingerprint m) min_votes)
  record_match_jobs chunk_id candidates
  pure candidates

-- `if self._index is not None and schema_compatible and manifest.landmarks`
abbrev pub match_chunk :
    Option LandmarkIndex
    → ChunkManifest
    → (chunk_id : String) → (min_votes : ℕ) → Ingest (List MatchCandidate)
match_chunk none m chunk_id min_votes s = pure [] s
match_chunk (some index) m chunk_id min_votes s =
    (if str_eq m.fingerprint_schema_id index.schema_id && not (length m.landmarks == 0)
      then query_and_record index m chunk_id min_votes s
      else pure [] s)

abbrev pub ingest_new :
    Option LandmarkIndex
    → ChunkManifest
    → (request_id : Option String) → (min_votes : ℕ) → (receipt_id audit_id : String)
    → Ingest IngestionResult
ingest_new index m request_id min_votes receipt_id audit_id = do
  source_id ← resolve_source m.source_code
  chunk_id ← record_chunk receipt_id m.edge_chunk_id source_id m.device_id m
  candidates ← match_chunk index m chunk_id min_votes
  write_ingest_audit (ingested_event index m request_id audit_id chunk_id candidates)
  pure (receipt_of index m chunk_id source_id candidates)

abbrev pub ingest_found :
    Option LandmarkIndex
    → ChunkManifest
    → (request_id : Option String) → (min_votes : ℕ) → (receipt_id audit_id : String)
    → Option ChunkRow
    → Ingest IngestionResult
ingest_found index m request_id min_votes receipt_id audit_id (some existing) =
    pure (replay_of index m existing)
ingest_found index m request_id min_votes receipt_id audit_id none =
    ingest_new index m request_id min_votes receipt_id audit_id

unfoldable pub ingest :
    Option LandmarkIndex
    → ChunkManifest
    → (request_id : Option String) → (min_votes : ℕ) → (receipt_id audit_id : String)
    → Ingest IngestionResult
ingest index m request_id min_votes receipt_id audit_id = transaction (do
  existing ← gets (λ s. get s.chunks m.edge_chunk_id)
  ingest_found index m request_id min_votes receipt_id audit_id existing)
