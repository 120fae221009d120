-- ===== src/Review/Service.antt =====
-- review/service.py, `ReviewService`. A request's arguments are texts; `none` for a note is a value
-- that is no text. `Supply` holds what the two `uuid4()` and the `_utcnow()` calls of one request
-- return, in order.
use Prim.Native.String.{◌++◌}
use ugsync.Prelude.{
  Bool, true, false, not, Option, none, some, List, String, str_eq, contains, if◌then◌else◌,
}
use ugsync.Prelude.Int.{ℤ}
use ugsync.Exec.{pure, raise_if, gets, or_raise, transaction, ◌>>=◌, ◌>>◌}
use ugsync.Review.Models.{
  DetectionStatus, candidate, disputed, detection_status_text, ReviewDecision, DisputeStatus,
  DisputeResolution, PortalUser, DetectionEvidence, Dispute, validation, not_found, state_conflict,
}
use ugsync.Review.Store.{
  AuditEvent, get_detection, list_detections, decision_made, dispute_opened, dispute_resolved,
  is_open,
}
use ugsync.Review.Writes.{
  Action, set_detection_status, create_dispute, get_dispute, resolve_dispute, list_disputes,
  write_audit, audit_event,
}
use ugsync.Review.Guards.{
  QueuePage, Supply, bounded_limit, dispute_reasons, dispute_resolution_roles, non_negative,
  require_authenticated, require_note, require_role, review_roles,
}

unfoldable pub service_list_detections :
    PortalUser
    → (status source_code recording_id : Option String) → (limit offset : ℤ) → Action QueuePage
service_list_detections user status source_code recording_id limit offset = do
  require_authenticated user
  bound ← bounded_limit limit
  start ← non_negative offset
  (items, total) ← gets (list_detections status source_code recording_id bound start)
  pure (record { items = items; total = total; limit = bound; offset = start })

unfoldable pub service_get_detection : PortalUser → String → Action DetectionEvidence
service_get_detection user detection_id = do
  require_authenticated user
  or_raise (← gets (get_detection detection_id)) not_found

-- `decision not in (VERIFIED, REJECTED)`
abbrev pub parse_decision : String → Option ReviewDecision
parse_decision text =
    if str_eq text "verified"
    then some ReviewDecision.verified
    else if str_eq text "rejected"
    then some ReviewDecision.rejected
    else none

abbrev pub decided_status : ReviewDecision → DetectionStatus
decided_status ReviewDecision.verified = DetectionStatus.verified
decided_status ReviewDecision.rejected = DetectionStatus.rejected

abbrev pub is_candidate : DetectionStatus → Bool
is_candidate candidate = true
is_candidate _ = false

abbrev pub is_disputable : DetectionStatus → Bool
is_disputable candidate = true
is_disputable DetectionStatus.verified = true
is_disputable _ = false

abbrev pub decision_event :
    Supply → PortalUser → String → ReviewDecision → String → Option String → AuditEvent
decision_event supply user detection_id decision note request_id =
    audit_event supply.audit_id ("detection." ++ detection_status_text (decided_status decision))
      detection_id user.user_id request_id (decision_made note "candidate")

unfoldable pub decide_in :
    Supply
    → PortalUser
    → String
    → ReviewDecision
    → String
    → Option String
    → Action (Option DetectionEvidence)
decide_in supply user detection_id decision note request_id = do
  evidence ← or_raise (← gets (get_detection detection_id)) not_found
  raise_if (not (is_candidate evidence.status)) state_conflict
  set_detection_status detection_id (decided_status decision) user.user_id supply.now note
  write_audit (decision_event supply user detection_id decision note request_id)
  gets (get_detection detection_id)

unfoldable pub decide :
    Supply
    → PortalUser
    → (detection_id decision : String) → (note : Option String) → (request_id : Option String)
    → Action (Option DetectionEvidence)
decide supply user detection_id decision note request_id = do
  require_role user review_roles
  choice ← or_raise (parse_decision decision) validation
  cleaned ← require_note note 10
  transaction (decide_in supply user detection_id choice cleaned request_id)

abbrev pub opening_event :
    Supply → PortalUser → (dispute_id detection_id reason : String) → Option String → AuditEvent
opening_event supply user dispute_id detection_id reason request_id =
    audit_event supply.audit_id "dispute.opened" dispute_id user.user_id request_id
      (dispute_opened detection_id reason)

unfoldable pub open_dispute_in :
    Supply
    → PortalUser
    → (detection_id reason detail : String) → (request_id : Option String) → Action (Option Dispute)
open_dispute_in supply user detection_id reason detail request_id = do
  evidence ← or_raise (← gets (get_detection detection_id)) not_found
  raise_if (not (is_disputable evidence.status)) state_conflict
  raise_if evidence.has_dispute state_conflict
  dispute_id ←
      create_dispute supply.dispute_id detection_id user.user_id user.party_id reason detail
        supply.now
  set_detection_status detection_id disputed user.user_id supply.later
      ("dispute " ++ dispute_id ++ " opened: " ++ reason)
  write_audit (opening_event supply user dispute_id detection_id reason request_id)
  gets (get_dispute dispute_id)

unfoldable pub require_reason : String → Action (Unit {0})
require_reason reason = raise_if (not (contains dispute_reasons reason)) validation

unfoldable pub open_dispute :
    Supply
    → PortalUser
    → (detection_id reason : String) → (detail request_id : Option String) → Action (Option Dispute)
open_dispute supply user detection_id reason detail request_id = do
  require_authenticated user
  require_reason reason
  cleaned ← require_note detail 20
  transaction (open_dispute_in supply user detection_id reason cleaned request_id)

-- `resolution not in (UPHELD, DISMISSED)`
abbrev pub parse_resolution : String → Option DisputeResolution
parse_resolution text =
    if str_eq text "upheld"
    then some DisputeResolution.upheld
    else if str_eq text "dismissed"
    then some DisputeResolution.dismissed
    else none

abbrev pub resolved_status : DisputeResolution → DisputeStatus
resolved_status DisputeResolution.upheld = DisputeStatus.upheld
resolved_status DisputeResolution.dismissed = DisputeStatus.dismissed

abbrev pub resulting_status : DisputeResolution → DetectionStatus
resulting_status DisputeResolution.upheld = DetectionStatus.rejected
resulting_status DisputeResolution.dismissed = DetectionStatus.verified

abbrev pub resolution_action : DisputeResolution → String
resolution_action DisputeResolution.upheld = "dispute.upheld"
resolution_action DisputeResolution.dismissed = "dispute.dismissed"

abbrev pub resolution_event :
    Supply → PortalUser → String → DisputeResolution → Dispute → Option String → AuditEvent
resolution_event supply user dispute_id resolution dispute request_id =
    audit_event supply.audit_id (resolution_action resolution) dispute_id user.user_id request_id (
      dispute_resolved dispute.detection_event_id
        (detection_status_text (resulting_status resolution)))

unfoldable pub resolve_dispute_in :
    Supply → PortalUser → String → DisputeResolution → String → Option String → Action Dispute
resolve_dispute_in supply user dispute_id resolution note request_id = do
  dispute ← or_raise (← gets (get_dispute dispute_id)) not_found
  raise_if (not (is_open dispute.status)) state_conflict
  resolved ←
      resolve_dispute dispute_id (resolved_status resolution) user.user_id note
        (resulting_status resolution) supply.now supply.later
  write_audit (resolution_event supply user dispute_id resolution dispute request_id)
  pure resolved

unfoldable pub service_resolve_dispute :
    Supply
    → PortalUser
    → (dispute_id resolution : String) → (note request_id : Option String) → Action Dispute
service_resolve_dispute supply user dispute_id resolution note request_id = do
  require_role user dispute_resolution_roles
  choice ← or_raise (parse_resolution resolution) validation
  cleaned ← require_note note 10
  transaction (resolve_dispute_in supply user dispute_id choice cleaned request_id)

unfoldable pub service_list_disputes : PortalUser → Option String → ℤ → Action (List Dispute)
service_list_disputes user status limit = do
  require_authenticated user
  bound ← bounded_limit limit
  gets (list_disputes status bound)
