-- ===== src/Review/Models.antt =====
-- review/models.py and review/errors.py: the values of the reviewer and dispute portal. Instants
-- are microseconds. The matcher's scores are rounded before they come here: the confidence to
-- ten-thousandths, the tempo scale to 10^-5 and the offset to microseconds. The service builds no
-- text but notes and actions; error messages are left out.
use ugsync.Prelude.{ℕ, Bool, Option, List, [], ◌∷◌, String, contains}
use ugsync.Prelude.Int.{ℤ}

abbrev pub roles : List String
roles = "viewer" ∷ "catalog_editor" ∷ "reviewer" ∷ "finance_reviewer" ∷ "catalog_admin" ∷ []

pub data DetectionStatus : Type 0 where
  candidate verified rejected disputed expired : DetectionStatus

abbrev pub detection_status_text : DetectionStatus → String
detection_status_text candidate = "candidate"
detection_status_text verified = "verified"
detection_status_text rejected = "rejected"
detection_status_text disputed = "disputed"
detection_status_text expired = "expired"

pub data ReviewDecision : Type 0 where
  verified rejected : ReviewDecision

pub data DisputeStatus : Type 0 where
  open_status upheld dismissed : DisputeStatus

pub data DisputeResolution : Type 0 where
  upheld dismissed : DisputeResolution

pub record PortalUser : Type 0 where
  pub user_id : String
  pub role : String
  pub display_name : String
  pub party_id : Option String

abbrev pub has_role : PortalUser → List String → Bool
has_role user names = contains names user.role

pub record DetectionEvidence : Type 0 where
  pub id : String
  pub capture_chunk_id : String
  pub source_id : String
  pub source_code : String
  pub recording_id : String
  pub started_at : ℕ
  pub ended_at : ℕ
  pub duration_micros : ℕ
  pub matcher_version : String
  pub fingerprint_schema_id : String
  pub matched_hash_count : ℕ
  pub match_confidence : ℕ
  pub tempo_scale : Option ℕ
  pub offset_micros : ℤ
  pub status : DetectionStatus
  pub reviewed_by : Option String
  pub reviewed_at : Option ℕ
  pub review_note : Option String
  pub has_dispute : Bool
  pub dispute_status : Option DisputeStatus

pub record Dispute : Type 0 where
  pub id : String
  pub detection_event_id : String
  pub raised_by_user_id : String
  pub raised_by_party_id : Option String
  pub reason : String
  pub detail : String
  pub status : DisputeStatus
  pub resolved_by_user_id : Option String
  pub resolution_note : Option String
  pub created_at : ℕ
  pub resolved_at : Option ℕ

pub data ReviewError : Type 0 where
  validation forbidden not_found state_conflict : ReviewError
  missing_key : ReviewError  -- Python's `KeyError`, which no handler turns into a response

abbrev pub http_status : ReviewError → ℕ
http_status validation = 422
http_status forbidden = 403
http_status not_found = 404
http_status state_conflict = 409
http_status missing_key = 500
