-- ===== src/Review/Store.antt =====
-- review/store.py, `InMemoryReviewStore`. A row that a method changes in place is written back to
-- its dictionary. Each `uuid4()` and each `_utcnow()` is an argument. The snapshot of a transaction
-- is kept by `Exec.transaction`, not in the state.
use ugsync.Prelude.{
  keep_if, ℕ, ◌-◌, max, Bool, true, false, ◌&&◌, Option, none, some, List, [], map, String, str_eq,
  is_some, leb, take, drop, length, if◌then◌else◌,
}
use ugsync.Prelude.Int.{ℤ}
use ugsync.Prelude.Sort.{sort_by}
use ugsync.Dict.{Dict, get, put, values, find_value}
use ugsync.Review.Models.{
  DetectionStatus, candidate, detection_status_text, DisputeStatus, open_status, upheld, dismissed,
  DetectionEvidence, Dispute,
}

pub record DetectionRow : Type 0 where
  pub id : String
  pub capture_chunk_id : String
  pub source_id : String
  pub source_code : String
  pub recording_id : String
  pub started_at : ℕ
  pub ended_at : ℕ
  pub duration_micros : ℕ
  pub matcher_version : String
  pub fingerprint_schema_id : String
  pub matched_hash_count : ℕ
  pub match_confidence : ℕ
  pub tempo_scale : Option ℕ
  pub offset_micros : ℤ
  pub status : DetectionStatus
  pub reviewed_by : Option String
  pub reviewed_at : Option ℕ
  pub review_note : Option String

-- The metadata of an audit event, by the call that writes it.
pub data Metadata : Type 0 where
  decision_made : (note from_status : String) → Metadata
  dispute_opened : (detection_event_id reason : String) → Metadata
  dispute_resolved : (detection_event_id resulting_status : String) → Metadata

pub record AuditEvent : Type 0 where
  pub id : String
  pub action : String
  pub entity_type : String
  pub entity_id : String
  pub actor_id : String
  pub request_id : Option String
  pub metadata : Metadata

pub record ReviewStore : Type 0 where
  pub detections : Dict DetectionRow
  pub disputes : Dict Dispute
  pub audit_events : List AuditEvent

abbrev pub new_store : ReviewStore
new_store = record { detections = []; disputes = []; audit_events = [] }

-- The arguments of `record_candidate`.
pub record CandidateInput : Type 0 where
  pub source_id : String
  pub source_code : String
  pub recording_id : String
  pub capture_chunk_id : String
  pub started_at : ℕ
  pub ended_at : ℕ
  pub matcher_version : String
  pub fingerprint_schema_id : String
  pub matched_hash_count : ℕ
  pub match_confidence : ℕ
  pub tempo_scale : Option ℕ
  pub offset_micros : ℤ

abbrev pub candidate_row : String → CandidateInput → DetectionRow
candidate_row detection_id c = record {
  id = detection_id;
  capture_chunk_id = c.capture_chunk_id;
  source_id = c.source_id;
  source_code = c.source_code;
  recording_id = c.recording_id;
  started_at = c.started_at;
  ended_at = c.ended_at;
  duration_micros = max 100_000 (c.ended_at - c.started_at);
  matcher_version = c.matcher_version;
  fingerprint_schema_id = c.fingerprint_schema_id;
  matched_hash_count = c.matched_hash_count;
  match_confidence = c.match_confidence;
  tempo_scale = c.tempo_scale;
  offset_micros = c.offset_micros;
  status = candidate;
  reviewed_by = none;
  reviewed_at = none;
  review_note = none;
}

unfoldable pub record_candidate : String → CandidateInput → ReviewStore → ReviewStore
record_candidate detection_id c s = record s {
  detections = put s.detections detection_id (candidate_row detection_id c);
}

abbrev pub is_open : DisputeStatus → Bool
is_open open_status = true
is_open upheld = false
is_open dismissed = false

abbrev pub is_open_for : String → Dispute → Bool
is_open_for detection_id d = str_eq d.detection_event_id detection_id && is_open d.status

unfoldable pub open_dispute_of : String → ReviewStore → Option Dispute
open_dispute_of detection_id s = find_value (is_open_for detection_id) s.disputes

abbrev pub status_of : Option Dispute → Option DisputeStatus
status_of none = none
status_of (some d) = some d.status

unfoldable pub to_evidence : ReviewStore → DetectionRow → DetectionEvidence
to_evidence s row =
    let dispute = open_dispute_of row.id s in
    record {
      id = row.id;
      capture_chunk_id = row.capture_chunk_id;
      source_id = row.source_id;
      source_code = row.source_code;
      recording_id = row.recording_id;
      started_at = row.started_at;
      ended_at = row.ended_at;
      duration_micros = row.duration_micros;
      matcher_version = row.matcher_version;
      fingerprint_schema_id = row.fingerprint_schema_id;
      matched_hash_count = row.matched_hash_count;
      match_confidence = row.match_confidence;
      tempo_scale = row.tempo_scale;
      offset_micros = row.offset_micros;
      status = row.status;
      reviewed_by = row.reviewed_by;
      reviewed_at = row.reviewed_at;
      review_note = row.review_note;
      has_dispute = is_some dispute;
      dispute_status = status_of dispute;
    }

abbrev pub evidence_of : ReviewStore → Option DetectionRow → Option DetectionEvidence
evidence_of s none = none
evidence_of s (some row) = some (to_evidence s row)

unfoldable pub get_detection : String → ReviewStore → Option DetectionEvidence
get_detection detection_id s = evidence_of s (get s.detections detection_id)

-- `if value: rows = [row for row in rows if row[field] == value]`
unfoldable pub keep_field : {A : Type 0} → (A → String) → Option String → List A → List A
keep_field field none rows = rows
keep_field field (some value) rows =
    if str_eq value "" then rows else keep_if (λ row. str_eq (field row) value) rows

-- newest first
abbrev pub newest_detection : DetectionRow → DetectionRow → Bool
newest_detection a b = leb b.started_at a.started_at

unfoldable pub list_detections :
    Option String
    → Option String
    → Option String
    → (limit offset : ℕ) → ReviewStore
    → List DetectionEvidence × ℕ
list_detections status source_code recording_id limit offset s =
    let by_status : List DetectionRow =
      keep_field (λ row. detection_status_text row.status) status (values s.detections) in
    let by_source : List DetectionRow = keep_field (λ row. row.source_code) source_code by_status in
    let by_recording : List DetectionRow =
      keep_field (λ row. row.recording_id) recording_id by_source in
    let rows : List DetectionRow = sort_by newest_detection by_recording in
    (map (to_evidence s) (take limit (drop offset rows)), length rows)
