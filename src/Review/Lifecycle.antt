-- ===== src/Review/Lifecycle.antt =====
-- The lifecycle of a detection under the requests of the review portal, and who moves it.
use ugsync.Prelude.{
  ◌≡◌, ◌∙◌, refl, ◌⊎◌, inl, true, false, Option, none, some, String, arith, contains, eq_iff,
  eq_refl, str_eq,
}
use ugsync.Dict.{get, get-put, counts, weight_of-le-weigh}
use ugsync.Review.Models.{DetectionStatus, candidate, verified, rejected, disputed, expired}
use ugsync.Review.Store.{
  DetectionRow, ReviewStore, record_candidate, candidate_row, new_store, is_open_for,
}
use ugsync.Review.Guards.{review_roles, dispute_resolution_roles}
use ugsync.Review.Service.{decide, open_dispute, service_resolve_dispute}
use ugsync.Review.Consistent.{IsConsistent}
use ugsync.Review.Requests.{decide-DecideOk, open_dispute-OpenOk, resolve-ResolveOk}
use ugsync.Review.Atomic.{
  decide_error_unchanged, open_dispute_error_unchanged, resolve_error_unchanged,
}
use ugsync.Review.Run.{
  Request, submit, review, challenge, resolve, after, IsFresh, step, Reach, here, next, Reach-trans,
  returned, raised, ended,
}
use ugsync.Review.Reachable.{Reach-IsConsistent}

-- The moves that a request may make, with the role that it needs.
abbrev pub Moves : Request → DetectionStatus → DetectionStatus → Type 0
Moves (submit _ _) a b = ⊥
Moves (review _ user _ _ _ _) a b =
    (a ≡ candidate) × (b ≡ verified ⊎ b ≡ rejected) × (contains review_roles user.role ≡ true)
Moves (challenge _ user _ _ _ _) a b =
    (a ≡ candidate ⊎ a ≡ verified) × (b ≡ disputed) × (str_eq user.user_id "" ≡ false)
Moves (resolve _ user _ _ _ _) a b =
    (a ≡ disputed)
    × (b ≡ rejected ⊎ b ≡ verified)
    × (contains dispute_resolution_roles user.role ≡ true)

-- The detection `k` is still there, with its status or one that the request may move it to.
abbrev pub Follows : Request → DetectionRow → Option DetectionRow → Type 0
Follows q row none = ⊥
Follows q row (some row') = (row'.status ≡ row.status) ⊎ Moves q row.status row'.status

module _ (k : String) (row : DetectionRow) (s : ReviewStore) (there : get s.detections k ≡ some row)
    (inv : IsConsistent s) where
  Follows-after : (q : Request) → IsFresh q s → Follows q row (get (after q s).detections k)
  unfolding after record_candidate
  Follows-after (submit id c) fresh =
      ground (arith, get-put s.detections id k (candidate_row id c), eq_iff id k)
  Follows-after (review supply user id decision note request_id) fresh =
      elim (ended (decide supply user id decision note request_id s)) [
        | returned r h ↦
            let d = decide-DecideOk supply user id decision note request_id s _ {r = r} h in
            grind (
              arith,
              d.allowed,
              d.done.found,
              d.done.was_candidate,
              d.done.detections,
              get-put,
              eq_iff id k,
            )
        | raised e h ↦
            rw (decide_error_unchanged supply user s id decision note request_id h)
              (rw there (inl refl))
      ]
  Follows-after (challenge supply user id reason detail request_id) fresh =
      elim (ended (open_dispute supply user id reason detail request_id s)) [
        | returned r h ↦
            let d = open_dispute-OpenOk supply user id reason detail request_id s _ {r = r} h in
            grind (
              arith,
              d.authenticated,
              d.done.found,
              d.done.was_disputable,
              d.done.detections,
              get-put,
              eq_iff id k,
            )
        | raised e h ↦
            rw (open_dispute_error_unchanged supply user s id reason detail request_id h)
              (rw there (inl refl))
      ]
  Follows-after (resolve supply user id resolution note request_id) fresh =
      elim (ended (service_resolve_dispute supply user id resolution note request_id s)) [
        | returned r h ↦
            let d = resolve-ResolveOk supply user id resolution note request_id s _ {r = r} h in
            let e : String = d.done.dispute.detection_event_id in
            let weighed = weight_of-le-weigh (counts (is_open_for e)) s.disputes id in
            grind (
              arith,
              d.allowed,
              d.done.found,
              d.done.was_open,
              d.done.detections,
              get-put,
              eq_iff e k,
              eq_refl e,
              inv.one_open e,
            )
        | raised e h ↦
            rw (resolve_error_unchanged supply user s id resolution note request_id h)
              (rw there (inl refl))
      ]

-- In every reachable store a request, with a new identifier for a candidate or a dispute, leaves each detection in place, and with its status, or moves
-- it: a reviewer or catalog admin from candidate to verified or rejected, a signed-in user from
-- candidate or verified to disputed, a finance reviewer or catalog admin from disputed to rejected
-- or verified. Submitting a candidate moves none.
pub status_moves :
    (q : Request) (k : String) (row : DetectionRow) {s : ReviewStore}
    → Reach new_store s
    → IsFresh q s
    → get s.detections k ≡ some row
    → Follows q row (get (after q s).detections k)
status_moves q k row {s} r fresh there = Follows-after k row s there (Reach-IsConsistent r) q fresh

-- a status that no request moves
abbrev pub IsFinal : DetectionStatus → Type 0
IsFinal a = (a ≡ rejected) ⊎ (a ≡ expired)

keeps_final :
    (q : Request) (k : String) (row : DetectionRow) (o : Option DetectionRow)
    → IsFinal row.status
    → Follows q row o
    → (row' : DetectionRow) × (o ≡ some row') × (row'.status ≡ row.status)
keeps_final q k row none final f = absurd f
keeps_final (submit _ _) k row (some row') final f = (row', refl, ground arith)
keeps_final (review _ _ _ _ _ _) k row (some row') final f = (row', refl, ground arith)
keeps_final (challenge _ _ _ _ _ _) k row (some row') final f = (row', refl, ground arith)
keeps_final (resolve _ _ _ _ _ _) k row (some row') final f = (row', refl, ground arith)

-- A detection that is rejected or expired in a reachable store keeps that status under any further
-- requests, with new identifiers for candidates and disputes, and is never removed.
pub final_stays :
    {s t : ReviewStore} (k : String) (row : DetectionRow)
    → Reach new_store s
    → Reach s t
    → get s.detections k ≡ some row
    → IsFinal row.status
    → (row' : DetectionRow) × (get t.detections k ≡ some row') × (row'.status ≡ row.status)
final_stays k row r here there final = (row, there, refl)
final_stays k row r (next {t} more (step q _ fresh)) there final =
    let (mid, found, same) = final_stays k row r more there final in
    let (row', found', same') =
      keeps_final q k mid _ (rw same final)
        (status_moves q k mid (Reach-trans r more) fresh found) in
    (row', found', same' ∙ same)
