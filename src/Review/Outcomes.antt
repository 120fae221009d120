-- ===== src/Review/Outcomes.antt =====
-- What the transaction of each request of review/service.py does to the store when it succeeds.
use ugsync.Prelude.{◌≡◌, true, Option, none, some, [], ◌∷◌, String, arith, Option-cases, inl, inr}
use mathlib.Core.List.{◌++◌}
use Prim.Native.String.{◌++◌ as join}
use ugsync.Dict.{get, put}
use ugsync.Exec.{ok}
use ugsync.Review.Models.{
  candidate, disputed, open_status, PortalUser, Dispute, DetectionEvidence, ReviewDecision,
  DisputeResolution,
}
use ugsync.Review.Store.{DetectionRow, ReviewStore, get_detection, open_dispute_of, to_evidence}
use ugsync.Review.Writes.{
  reviewed, resolved, new_dispute, resolution_text, close_detection, set_detection_status,
  create_dispute, resolve_dispute, get_dispute, write_audit,
}
use ugsync.Review.Guards.{Supply}
use ugsync.Review.Service.{
  decide_in, open_dispute_in, resolve_dispute_in, decided_status, decision_event, opening_event,
  resolution_event, is_disputable, resolved_status, resulting_status,
}

module _ (supply : Supply) (user : PortalUser) (detection_id : String) (choice : ReviewDecision)
    (note : String) (request_id : Option String) (s s' : ReviewStore) where
  pub record Decided : Type 0 where
    pub row : DetectionRow
    pub found : get s.detections detection_id ≡ some row
    pub was_candidate : row.status ≡ candidate
    pub detections :
        s'.detections
        ≡ put s.detections detection_id
            (reviewed row (decided_status choice) user.user_id supply.now note)
    pub disputes : s'.disputes ≡ s.disputes
    pub audited :
        s'.audit_events
        ≡ s.audit_events ++ decision_event supply user detection_id choice note request_id ∷ []

  pub decide_in-Decided :
      {r : Option DetectionEvidence}
      → decide_in supply user detection_id choice note request_id s ≡ (ok r, s')
      → Decided
  unfolding decide_in get_detection set_detection_status write_audit to_evidence
  decide_in-Decided h = elim (Option-cases (get s.detections detection_id)) [
    | inl missing ↦ absurd (ground arith)
    | inr (row, found) ↦ record {
      row = row;
      found = found;
      was_candidate = ground arith;
      detections = ground arith;
      disputes = ground arith;
      audited = ground arith;
    }
  ]

module _ (supply : Supply) (user : PortalUser) (detection_id reason detail : String)
    (request_id : Option String) (s s' : ReviewStore) where
  pub record Opened : Type 0 where
    pub row : DetectionRow
    pub found : get s.detections detection_id ≡ some row
    pub was_disputable : is_disputable row.status ≡ true
    pub none_open : open_dispute_of row.id s ≡ none
    pub detections :
        s'.detections
        ≡ put s.detections detection_id (
            reviewed row disputed user.user_id supply.later
              (join "dispute " (join supply.dispute_id (join " opened: " reason))))
    pub disputes :
        s'.disputes
        ≡ put s.disputes supply.dispute_id (
            new_dispute supply.dispute_id detection_id user.user_id user.party_id reason detail
              supply.now)
    pub audited :
        s'.audit_events
        ≡ s.audit_events
          ++ opening_event supply user supply.dispute_id detection_id reason request_id ∷ []

  pub open_dispute_in-Opened :
      {r : Option Dispute}
      → open_dispute_in supply user detection_id reason detail request_id s ≡ (ok r, s')
      → Opened
  unfolding open_dispute_in get_detection set_detection_status create_dispute write_audit
      to_evidence
  open_dispute_in-Opened h = elim (Option-cases (get s.detections detection_id)) [
    | inl missing ↦ absurd (ground arith)
    | inr (row, found) ↦ record {
      row = row;
      found = found;
      was_disputable = ground arith;
      none_open = ground arith;
      detections = ground arith;
      disputes = ground arith;
      audited = ground arith;
    }
  ]

module _ (supply : Supply) (user : PortalUser) (dispute_id : String)
    (resolution : DisputeResolution) (note : String) (request_id : Option String)
    (s s' : ReviewStore) where
  pub record Resolved : Type 0 where
    pub dispute : Dispute
    pub found : get s.disputes dispute_id ≡ some dispute
    pub was_open : dispute.status ≡ open_status
    pub disputes :
        s'.disputes
        ≡ put s.disputes dispute_id
            (resolved dispute (resolved_status resolution) user.user_id note supply.now)
    pub detections :
        s'.detections
        ≡ (close_detection
            (get s.detections dispute.detection_event_id)
            (resulting_status resolution)
            user.user_id
            supply.later
            (resolution_text dispute_id (resolved_status resolution) note)
            dispute.detection_event_id
            s).detections
    pub audited :
        s'.audit_events
        ≡ s.audit_events
          ++ resolution_event supply user dispute_id resolution dispute request_id ∷ []

  pub resolve_dispute_in-Resolved :
      {r : Dispute}
      → resolve_dispute_in supply user dispute_id resolution note request_id s ≡ (ok r, s')
      → Resolved
  unfolding resolve_dispute_in get_dispute resolve_dispute write_audit
  resolve_dispute_in-Resolved h = elim (Option-cases (get s.disputes dispute_id)) [
    | inl missing ↦ absurd (ground arith)
    | inr (dispute, found) ↦ record {
      dispute = dispute;
      found = found;
      was_open = ground arith;
      disputes = ground arith;
      detections = ground arith;
      audited = ground arith;
    }
  ]
