-- ===== src/Review/Audit.antt =====
-- The audit trail of the review portal, and what a permitted decision achieves.
use ugsync.Prelude.{
  ◌≤◌, ◌≡◌, refl, ◌⊎◌, inl, inr, true, false, Option, some, [], ◌∷◌, String, arith, contains,
  eq_refl, str_eq, len, strip,
}
use mathlib.Core.List.{◌++◌}
use ugsync.Dict.{get, get-put}
use ugsync.Exec.{ok}
use ugsync.Review.Models.{candidate, PortalUser, ReviewDecision, DetectionEvidence}
use ugsync.Review.Store.{DetectionRow, ReviewStore, AuditEvent, get_detection, to_evidence}
use ugsync.Review.Writes.{reviewed, set_detection_status, write_audit}
use ugsync.Review.Guards.{Supply, review_roles, max_note, require_role, require_note}
use ugsync.Review.Service.{
  decide, open_dispute, service_resolve_dispute, parse_decision, decided_status, decide_in,
}
use ugsync.Review.Requests.{decide-DecideOk, open_dispute-OpenOk, resolve-ResolveOk}
use ugsync.Review.Atomic.{
  decide_error_unchanged, open_dispute_error_unchanged, resolve_error_unchanged,
}
use ugsync.Review.Run.{
  Request, submit, review, challenge, resolve, after, actor, returned, raised, ended,
}

-- A request of a user has changed nothing, or has added one audit event that names the user.
abbrev pub Audited : PortalUser → ReviewStore → ReviewStore → Type 0
Audited user s s' =
    (s' ≡ s)
    ⊎ ((event : AuditEvent) × (s'.audit_events ≡ s.audit_events ++ event ∷ [])
        × (event.actor_id ≡ user.user_id))

-- Every request of a user either leaves the whole store as it was or adds exactly one audit event,
-- at the end, whose actor is that user; events are never changed or removed.
pub requests-Audited :
    (q : Request) (s : ReviewStore) (user : PortalUser)
    → actor q ≡ some user
    → Audited user s (after q s)
unfolding after
requests-Audited (submit id c) s user by = absurd (ground arith)
requests-Audited (review supply u id decision note request_id) s user by =
    elim (ended (decide supply u id decision note request_id s)) [
      | returned r h ↦
          let d = decide-DecideOk supply u id decision note request_id s _ {r = r} h in
          inr (_, d.done.audited, ground arith)
      | raised e h ↦ inl (decide_error_unchanged supply u s id decision note request_id h)
    ]
requests-Audited (challenge supply u id reason detail request_id) s user by =
    elim (ended (open_dispute supply u id reason detail request_id s)) [
      | returned r h ↦
          let d = open_dispute-OpenOk supply u id reason detail request_id s _ {r = r} h in
          inr (_, d.done.audited, ground arith)
      | raised e h ↦ inl (open_dispute_error_unchanged supply u s id reason detail request_id h)
    ]
requests-Audited (resolve supply u id resolution note request_id) s user by =
    elim (ended (service_resolve_dispute supply u id resolution note request_id s)) [
      | returned r h ↦
          let d = resolve-ResolveOk supply u id resolution note request_id s _ {r = r} h in
          inr (_, d.done.audited, ground arith)
      | raised e h ↦ inl (resolve_error_unchanged supply u s id resolution note request_id h)
    ]

-- A reviewer or catalog admin who is signed in and gives a valid decision on a candidate, with a
-- note of 10 to 2000 characters once stripped, gets the detection's new evidence: its status is the
-- decision, and its reviewer that user.
pub decide_accepts :
    (supply : Supply) (user : PortalUser) (id decision text : String) (choice : ReviewDecision)
    (request_id : Option String) (row : DetectionRow) (s : ReviewStore)
    → str_eq user.user_id "" ≡ false
    → contains review_roles user.role ≡ true
    → parse_decision decision ≡ some choice
    → 10 ≤ len (strip text)
    → len (strip text) ≤ max_note
    → get s.detections id ≡ some row
    → row.status ≡ candidate
    → (evidence : DetectionEvidence) × ((decide supply user id decision (some text) request_id s).0
        ≡ ok (some evidence))
      × (evidence.status ≡ decided_status choice)
      × (evidence.reviewed_by ≡ some user.user_id)
      × (evidence.review_note ≡ some (strip text))
unfolding decide require_role require_note decide_in get_detection set_detection_status write_audit
    to_evidence
decide_accepts supply user id decision text choice request_id row s signed role chosen low high
      found cand =
    let row' = reviewed row (decided_status choice) user.user_id supply.now (strip text) in
    (
      to_evidence (decide supply user id decision (some text) request_id s).1 row',
      ground (arith, get-put s.detections id id row', eq_refl id),
      refl,
      refl,
      refl,
    )
