-- ===== src/Ingest/Store.antt =====
-- ingestion_api/stores.py, `InMemoryIngestionStore`, with the data of manifests.py and of
-- matching/service.py that it keeps. Confidences and time offsets are whole numbers of the decimal
-- places that the source rounds to; each `uuid4()` is an argument. A dictionary that a method changes
-- in place is written back under its own chunk.
use ugsync.Prelude.{ℕ, Bool, Option, List, [], ◌∷◌, ◌++◌, map, String, str_eq, length}
use ugsync.Prelude.Int.{ℤ}
use ugsync.Dict.{Dict, get, put, find_value}
use ugsync.Exec.{Exec, pure, gets, modify, or_raise, ◌>>=◌, ◌>>◌}

pub record LandmarkHash : Type 0 where
  pub anchor_frame : ℕ
  pub frequency_ratio_bin : ℤ
  pub delta_frames : ℕ

pub record ChunkManifest : Type 0 where
  pub edge_chunk_id : String
  pub source_code : String
  pub device_id : String
  pub started_at : ℕ
  pub ended_at : ℕ
  pub content_sha256 : String
  pub byte_count : ℕ
  pub fingerprint_schema_id : String
  pub capture_policy : String
  pub encrypted_object_key : Option String
  pub matcher_hint : Option String
  pub landmarks : List LandmarkHash

pub record MatchCandidate : Type 0 where
  pub track_id : String
  pub vote_count : ℕ
  pub confidence_hint : ℕ
  pub tempo_scale : ℕ
  pub offset_micros : ℤ
  pub matcher_version : String

pub record ChunkRow : Type 0 where
  pub id : String
  pub edge_chunk_id : String
  pub source_id : String
  pub source_code : String
  pub device_id : String
  pub started_at : ℕ
  pub ended_at : ℕ
  pub byte_count : ℕ
  pub content_sha256 : String
  pub capture_policy : String
  pub fingerprint_schema_id : String
  pub landmark_count : ℕ
  pub candidate_count : ℕ
  pub received_at : ℕ

pub record MatchJob : Type 0 where
  pub capture_chunk_id : String
  pub recording_id : String
  pub vote_count : ℕ
  pub confidence_hint : ℕ
  pub tempo_scale : ℕ
  pub offset_micros : ℤ
  pub matcher_version : String
  pub status : String

pub record IngestAudit : Type 0 where
  pub id : String
  pub action : String
  pub entity_type : String
  pub entity_id : String
  pub request_id : Option String
  pub edge_chunk_id : String
  pub source_code : String
  pub device_id : String
  pub schema_id : String
  pub landmarks : ℕ
  pub candidates : ℕ
  pub schema_compatible : Bool

pub record IngestionStore : Type 0 where
  pub sources : Dict String
  pub chunks : Dict ChunkRow
  pub match_jobs : List MatchJob
  pub audit_events : List IngestAudit

pub data IngestError : Type 0 where
  unknown_source stop_iteration value_error : IngestError

abbrev pub Ingest : Type 0 → Type 0
Ingest A = Exec IngestError IngestionStore A

unfoldable pub register_source : (source_code source_id : String) → IngestionStore → IngestionStore
register_source source_code source_id s = record s { sources = put s.sources source_code source_id }

unfoldable pub resolve_source : String → Ingest String
resolve_source source_code = do
  found ← gets (λ s. get s.sources source_code)
  or_raise found unknown_source

abbrev pub chunk_row :
    (receipt_id edge_chunk_id source_id device_id : String) → ChunkManifest → ChunkRow
chunk_row receipt_id edge_chunk_id source_id device_id m = record {
  id = receipt_id;
  edge_chunk_id = edge_chunk_id;
  source_id = source_id;
  source_code = m.source_code;
  device_id = device_id;
  started_at = m.started_at;
  ended_at = m.ended_at;
  byte_count = m.byte_count;
  content_sha256 = m.content_sha256;
  capture_policy = m.capture_policy;
  fingerprint_schema_id = m.fingerprint_schema_id;
  landmark_count = length m.landmarks;
  candidate_count = 0;
  received_at = m.ended_at;
}

unfoldable pub record_chunk :
    (receipt_id edge_chunk_id source_id device_id : String) → ChunkManifest → Ingest String
record_chunk receipt_id edge_chunk_id source_id device_id m = do
  modify (λ s. record s {
    chunks = put s.chunks edge_chunk_id (chunk_row receipt_id edge_chunk_id source_id device_id m);
  })
  pure receipt_id

abbrev pub match_job : String → MatchCandidate → MatchJob
match_job chunk_id c = record {
  capture_chunk_id = chunk_id;
  recording_id = c.track_id;
  vote_count = c.vote_count;
  confidence_hint = c.confidence_hint;
  tempo_scale = c.tempo_scale;
  offset_micros = c.offset_micros;
  matcher_version = c.matcher_version;
  status = "candidate";
}

-- `next(c for c in self.chunks.values() if c["id"] == chunk_id)`
unfoldable pub chunk_with_id : String → IngestionStore → Option ChunkRow
chunk_with_id chunk_id s = find_value (λ c. str_eq c.id chunk_id) s.chunks

unfoldable pub record_match_jobs : String → List MatchCandidate → Ingest ℕ
record_match_jobs chunk_id candidates = do
  chunk ← or_raise (← gets (chunk_with_id chunk_id)) stop_iteration
  modify (λ s. record s {
    chunks =
        put s.chunks chunk.edge_chunk_id (record chunk { candidate_count = length candidates });
    match_jobs = s.match_jobs ++ map (match_job chunk_id) candidates;
  })
  pure (length candidates)

unfoldable pub write_ingest_audit : IngestAudit → Ingest (Unit {0})
write_ingest_audit event = modify (λ s. record s { audit_events = s.audit_events ++ event ∷ [] })
