-- ===== src/Review/Run.antt =====
-- Sequences of requests to the review portal, as a step relation: the pipeline records candidates,
-- and users decide, dispute and resolve. What raises changes nothing. An identifier from `uuid4()`
-- is one that its dictionary does not hold yet.
use ugsync.Prelude.{◌≡◌, refl, Option, none, some, String}
use ugsync.Dict.{get}
use ugsync.Exec.{Result, ok, err}
use ugsync.Review.Models.{PortalUser, ReviewError}
use ugsync.Review.Store.{ReviewStore, CandidateInput, record_candidate}
use ugsync.Review.Guards.{Supply}
use ugsync.Review.Service.{decide, open_dispute, service_resolve_dispute}

pub data Request : Type 0 where
  submit : (detection_id : String) → CandidateInput → Request
  review :
      Supply
      → PortalUser
      → (detection_id decision : String) → (note request_id : Option String) → Request
  challenge :
      Supply
      → PortalUser
      → (detection_id reason : String) → (detail request_id : Option String) → Request
  resolve :
      Supply
      → PortalUser
      → (dispute_id resolution : String) → (note request_id : Option String) → Request

-- The store after a request, whether it succeeds or raises.
unfoldable pub after : Request → ReviewStore → ReviewStore
after (submit id c) s = record_candidate id c s
after (review supply user id decision note request_id) s =
    (decide supply user id decision note request_id s).1
after (challenge supply user id reason detail request_id) s =
    (open_dispute supply user id reason detail request_id s).1
after (resolve supply user id resolution note request_id) s =
    (service_resolve_dispute supply user id resolution note request_id s).1

abbrev pub IsFresh : Request → ReviewStore → Type 0
IsFresh (submit id c) s = get s.detections id ≡ none
IsFresh (review _ _ _ _ _ _) _ = Unit
IsFresh (challenge supply user id reason detail request_id) s =
    get s.disputes supply.dispute_id ≡ none
IsFresh (resolve _ _ _ _ _ _) _ = Unit

pub data Step : ReviewStore → ReviewStore → Type 0 where
  step : (q : Request) (s : ReviewStore) → IsFresh q s → Step s (after q s)

pub data Reach (s : ReviewStore) : ReviewStore → Type 0 where
  here : Reach s s
  next : {t u : ReviewStore} → Reach s t → Step t u → Reach s u

-- A call ended with a value or raised.
pub data Ended {A : Type 0} (p : Result ReviewError A × ReviewStore) : Type 0 where
  returned : (a : A) → p ≡ (ok a, p.1) → Ended p
  raised : (e : ReviewError) → p ≡ (err e, p.1) → Ended p

pub ended : {A : Type 0} (p : Result ReviewError A × ReviewStore) → Ended p
ended (ok a, s) = returned a refl
ended (err e, s) = raised e refl

pub Reach-trans : {s t u : ReviewStore} → Reach s t → Reach t u → Reach s u
Reach-trans r here = r
Reach-trans r (next more st) = next (Reach-trans r more) st

-- who sends a request; the pipeline sends candidates
abbrev pub actor : Request → Option PortalUser
actor (submit _ _) = none
actor (review _ user _ _ _ _) = some user
actor (challenge _ user _ _ _ _) = some user
actor (resolve _ user _ _ _ _) = some user
