-- ===== src/Review/Reachable.antt =====
-- Invariants of every store that the review portal can reach.
use ugsync.Prelude.{◌≡◌, some, String, arith}
use ugsync.Review.Models.{DetectionEvidence}
use ugsync.Review.Store.{
  ReviewStore, new_store, get_detection, to_evidence, open_dispute_of, is_open_for,
}
use ugsync.Dict.{find_value-eq_count}
use ugsync.Review.Service.{decide, open_dispute, service_resolve_dispute}
use ugsync.Review.Consistent.{
  IsConsistent, is_disputed, new_store-IsConsistent, record_candidate-IsConsistent,
  Decided-IsConsistent, Opened-IsConsistent, Resolved-IsConsistent,
}
use ugsync.Review.Requests.{decide-DecideOk, open_dispute-OpenOk, resolve-ResolveOk}
use ugsync.Review.Atomic.{
  decide_error_unchanged, open_dispute_error_unchanged, resolve_error_unchanged,
}
use ugsync.Review.Run.{
  Request, submit, review, challenge, resolve, after, IsFresh, Step, step, Reach, here, next,
  returned, raised, ended,
}

after-IsConsistent :
    (q : Request) (s : ReviewStore) → IsFresh q s → IsConsistent s → IsConsistent (after q s)
unfolding after
after-IsConsistent (submit id c) s fresh inv = record_candidate-IsConsistent id c s fresh inv
after-IsConsistent (review supply user id decision note request_id) s fresh inv =
    elim (ended (decide supply user id decision note request_id s)) [
      | returned r h ↦
          Decided-IsConsistent inv
            (decide-DecideOk supply user id decision note request_id s _ {r = r} h).done
      | raised e h ↦ rw (decide_error_unchanged supply user s id decision note request_id h) inv
    ]
after-IsConsistent (challenge supply user id reason detail request_id) s fresh inv =
    elim (ended (open_dispute supply user id reason detail request_id s)) [
      | returned r h ↦
          Opened-IsConsistent inv fresh
            (open_dispute-OpenOk supply user id reason detail request_id s _ {r = r} h).done
      | raised e h ↦
          rw (open_dispute_error_unchanged supply user s id reason detail request_id h) inv
    ]
after-IsConsistent (resolve supply user id resolution note request_id) s fresh inv =
    elim (ended (service_resolve_dispute supply user id resolution note request_id s)) [
      | returned r h ↦
          Resolved-IsConsistent inv
            (resolve-ResolveOk supply user id resolution note request_id s _ {r = r} h).done
      | raised e h ↦ rw (resolve_error_unchanged supply user s id resolution note request_id h) inv
    ]

Step-IsConsistent : {s t : ReviewStore} → Step s t → IsConsistent s → IsConsistent t
Step-IsConsistent (step q s fresh) inv = after-IsConsistent q s fresh inv

-- Whatever requests are sent to an empty store, refused ones included, with new identifiers for
-- candidates and disputes, each row stands under its own identifier, and every detection has as many open disputes as its status says: one if it is
-- disputed, none if it is not.
pub Reach-IsConsistent : {s : ReviewStore} → Reach new_store s → IsConsistent s
Reach-IsConsistent here = new_store-IsConsistent
Reach-IsConsistent (next r st) = Step-IsConsistent st (Reach-IsConsistent r)

-- In every store that such requests reach the evidence shown for a detection reports an open dispute exactly when
-- the detection is disputed.
pub has_dispute_exact :
    {s : ReviewStore} (id : String) (evidence : DetectionEvidence)
    → Reach new_store s
    → get_detection id s ≡ some evidence
    → evidence.has_dispute ≡ is_disputed evidence.status
unfolding get_detection to_evidence open_dispute_of
has_dispute_exact {s} id evidence r h =
    let inv = Reach-IsConsistent r in
    grind (arith, inv.one_open id, inv.keyed, find_value-eq_count (is_open_for id) s.disputes)
