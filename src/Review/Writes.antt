-- ===== src/Review/Writes.antt =====
-- review/store.py, `InMemoryReviewStore`: the methods that the service calls inside a transaction.
use text.Mathlib.Text.{starts_with}
use Prim.Native.String.{◌++◌}
use ugsync.Prelude.{ℕ, Option, none, some, List, [], ◌∷◌, String, take, if◌then◌else◌}
use mathlib.Core.List.{◌++◌ as append}
use ugsync.Prelude.Sort.{sort_by}
use ugsync.Prelude.{Bool, leb}
use ugsync.Dict.{get, put, values}
use ugsync.Exec.{Exec, pure, gets, modify, or_raise, ◌>>=◌, ◌>>◌}
use ugsync.Review.Models.{
  DetectionStatus, DisputeStatus, open_status, upheld, dismissed, Dispute, ReviewError, missing_key,
}
use ugsync.Review.Store.{DetectionRow, ReviewStore, Metadata, AuditEvent, keep_field}

abbrev pub Action : Type 0 → Type 0
Action A = Exec ReviewError ReviewStore A

abbrev pub set_detection : String → DetectionRow → ReviewStore → ReviewStore
set_detection k row s = record s { detections = put s.detections k row }

abbrev pub set_dispute : String → Dispute → ReviewStore → ReviewStore
set_dispute k d s = record s { disputes = put s.disputes k d }

-- The four fields that a review writes.
abbrev pub reviewed :
    DetectionRow
    → DetectionStatus
    → (reviewed_by : String) → (now : ℕ) → (note : String) → DetectionRow
reviewed row status reviewed_by now note = record row {
  status = status;
  reviewed_by = some reviewed_by;
  reviewed_at = some now;
  review_note = some note;
}

-- `self.detections[detection_id]` raises on a missing key.
unfoldable pub set_detection_status :
    String
    → DetectionStatus
    → (reviewed_by : String) → (now : ℕ) → (note : String) → Action (Unit {0})
set_detection_status detection_id status reviewed_by now note = do
  row ← or_raise (← gets (λ s. get s.detections detection_id)) missing_key
  modify (set_detection detection_id (reviewed row status reviewed_by now note))

abbrev pub new_dispute :
    (dispute_id detection_id user_id : String)
    → (party_id : Option String) → (reason detail : String) → (now : ℕ) → Dispute
new_dispute dispute_id detection_id user_id party_id reason detail now = record {
  id = dispute_id;
  detection_event_id = detection_id;
  raised_by_user_id = user_id;
  raised_by_party_id = party_id;
  reason = reason;
  detail = detail;
  status = open_status;
  resolved_by_user_id = none;
  resolution_note = none;
  created_at = now;
  resolved_at = none;
}

unfoldable pub create_dispute :
    (dispute_id detection_id user_id : String)
    → (party_id : Option String) → (reason detail : String) → (now : ℕ) → Action String
create_dispute dispute_id detection_id user_id party_id reason detail now = do
  modify (
      set_dispute dispute_id
        (new_dispute dispute_id detection_id user_id party_id reason detail now))
  pure dispute_id

unfoldable pub get_dispute : String → ReviewStore → Option Dispute
get_dispute dispute_id s = get s.disputes dispute_id

abbrev pub dispute_status_text : DisputeStatus → String
dispute_status_text open_status = "open"
dispute_status_text upheld = "upheld"
dispute_status_text dismissed = "dismissed"

abbrev pub resolved : Dispute → DisputeStatus → (resolved_by note : String) → (now : ℕ) → Dispute
resolved d status resolved_by note now = record d {
  status = status;
  resolved_by_user_id = some resolved_by;
  resolution_note = some note;
  resolved_at = some now;
}

-- A detection that is no longer there is passed over.
abbrev pub close_detection :
    Option DetectionRow
    → DetectionStatus
    → (resolved_by : String) → (now : ℕ) → (note : String) → (detection_id : String) → ReviewStore
    → ReviewStore
close_detection none status resolved_by now note detection_id s = s
close_detection (some row) status resolved_by now note detection_id s =
    set_detection detection_id (reviewed row status resolved_by now note) s

abbrev pub resolution_text : String → DisputeStatus → String → String
resolution_text dispute_id status note =
    "dispute " ++ dispute_id ++ " " ++ dispute_status_text status ++ ": " ++ note

-- The two `_utcnow()` calls give `now` and `later`.
unfoldable pub resolve_dispute :
    String
    → DisputeStatus
    → (resolved_by note : String) → DetectionStatus
    → (now later : ℕ) → Action Dispute
resolve_dispute dispute_id status resolved_by note resulting_status now later = do
  row ← or_raise (← gets (λ s. get s.disputes dispute_id)) missing_key
  let closed = resolved row status resolved_by note now
  modify (set_dispute dispute_id closed)
  detection ← gets (λ s. get s.detections row.detection_event_id)
  modify (
      close_detection detection resulting_status resolved_by later
        (resolution_text dispute_id status note) row.detection_event_id)
  pure closed

-- newest first
abbrev pub newest_dispute : Dispute → Dispute → Bool
newest_dispute a b = leb b.created_at a.created_at

unfoldable pub list_disputes : Option String → (limit : ℕ) → ReviewStore → List Dispute
list_disputes status limit s = take limit (
    sort_by newest_dispute
      (keep_field (λ d. dispute_status_text d.status) status (values s.disputes)))

-- The event that `ReviewService._audit` builds, as `write_audit` stores it.
abbrev pub audit_event :
    (id action entity_id actor_id : String) → (request_id : Option String) → Metadata → AuditEvent
audit_event id action entity_id actor_id request_id metadata = record {
  id = id;
  action = action;
  entity_type = if starts_with action "detection" then "detection_event" else "dispute";
  entity_id = entity_id;
  actor_id = actor_id;
  request_id = request_id;
  metadata = metadata;
}

unfoldable pub write_audit : AuditEvent → Action (Unit {0})
write_audit event = modify λ s. record s { audit_events = append s.audit_events (event ∷ []) }
