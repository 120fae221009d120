-- ===== src/Review/Consistent.antt =====
-- The store of the review portal keeps detections and disputes in step: a detection is disputed
-- exactly while it has one open dispute, and has never more than one.
use ugsync.Prelude.{
  ℕ, ◌≡◌, refl, Bool, true, false, Option, none, some, String, arith, eq_iff, eq_refl,
  if◌then◌else◌,
}
use ugsync.Dict.{get, weigh, counts, get-put, weigh-put, weight_of-le-weigh}
use ugsync.Review.Models.{DetectionStatus, disputed, PortalUser, ReviewDecision, DisputeResolution}
use ugsync.Review.Store.{
  DetectionRow, ReviewStore, CandidateInput, candidate_row, new_store, record_candidate,
  is_open_for,
}
use ugsync.Review.Guards.{Supply}
use ugsync.Review.Outcomes.{Decided, Opened, Resolved}

abbrev pub is_disputed : DetectionStatus → Bool
is_disputed disputed = true
is_disputed _ = false

-- The number of open disputes that a detection should have.
abbrev pub expected : Option DetectionRow → ℕ
expected none = 0
expected (some row) = if is_disputed row.status then 1 else 0

-- The number of open disputes on a detection.
abbrev pub open_count : String → ReviewStore → ℕ
open_count detection_id s = weigh (counts (is_open_for detection_id)) s.disputes

pub record IsConsistent (s : ReviewStore) : Type 0 where
  pub keyed : (k : String) (row : DetectionRow) → get s.detections k ≡ some row → row.id ≡ k
  pub one_open : (k : String) → open_count k s ≡ expected (get s.detections k)

pub new_store-IsConsistent : IsConsistent new_store
unfolding weigh get
new_store-IsConsistent = record { keyed = λ k row h. cc; one_open = λ k. refl }

pub record_candidate-IsConsistent :
    (id : String) (c : CandidateInput) (s : ReviewStore)
    → get s.detections id ≡ none
    → IsConsistent s
    → IsConsistent (record_candidate id c s)
unfolding record_candidate
record_candidate-IsConsistent id c s fresh inv = record {
  keyed = λ k row h.
      ground
        (arith, get-put s.detections id k (candidate_row id c), eq_iff id k, inv.keyed k row, h);
  one_open = λ k.
      ground (arith, get-put s.detections id k (candidate_row id c), eq_iff id k, inv.one_open k);
}

module _ {s s' : ReviewStore} (inv : IsConsistent s) where
  pub Decided-IsConsistent :
      {supply : Supply} {user : PortalUser} {id : String} {choice : ReviewDecision} {note : String}
      {request_id : Option String}
      → Decided supply user id choice note request_id s s'
      → IsConsistent s'
  Decided-IsConsistent {supply} {user} {id} {choice} {note} {request_id} d = record {
    keyed = λ k row h. grind (arith, get-put, eq_iff id k, inv.keyed);
    one_open = λ k. grind (arith, get-put, eq_iff id k, inv.one_open k);
  }

  pub Opened-IsConsistent :
      {supply : Supply} {user : PortalUser} {id reason detail : String} {request_id : Option String}
      → get s.disputes supply.dispute_id ≡ none
      → Opened supply user id reason detail request_id s s'
      → IsConsistent s'
  Opened-IsConsistent {supply} {user} {id} {reason} {detail} {request_id} fresh o = record {
    keyed = λ k row h. grind (arith, get-put, eq_iff id k, inv.keyed);
    one_open = λ k. grind (arith, get-put, weigh-put, eq_iff id k, inv.one_open k);
  }

  pub Resolved-IsConsistent :
      {supply : Supply} {user : PortalUser} {id : String} {resolution : DisputeResolution}
      {note : String} {request_id : Option String}
      → Resolved supply user id resolution note request_id s s'
      → IsConsistent s'
  Resolved-IsConsistent {supply} {user} {id} {resolution} {note} {request_id} r =
      let e : String = r.dispute.detection_event_id in
      let weighed = weight_of-le-weigh (counts (is_open_for e)) s.disputes id in
      record {
        keyed = λ k row h. grind (arith, get-put, eq_iff e k, inv.keyed, inv.one_open e, eq_refl e);
        one_open = λ k.
            grind
              (arith, get-put, weigh-put, eq_iff e k, inv.one_open k, inv.one_open e, eq_refl e);
      }
