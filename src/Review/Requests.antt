-- ===== src/Review/Requests.antt =====
-- The requests of review/service.py as a whole: their guards before the transaction, and the
-- transaction itself.
use ugsync.Prelude.{
  ℕ, ◌≤◌, ◌≡◌, refl, true, false, Option, none, some, List, String, arith, contains, len, strip,
  str_eq,
}
use ugsync.Exec.{ok}
use ugsync.Exec.Rules.{continue-eq_ok, or_raise-eq_ok, raise_if-eq_ok, commit-eq_ok}
use ugsync.Review.Models.{PortalUser, Dispute, DetectionEvidence, ReviewDecision, DisputeResolution}
use ugsync.Review.Store.{ReviewStore}
use ugsync.Review.Guards.{
  Supply, review_roles, dispute_resolution_roles, dispute_reasons, max_note, require_authenticated,
  require_role, require_note,
}
use ugsync.Review.Service.{
  require_reason, parse_decision, parse_resolution, decide, open_dispute, service_resolve_dispute,
}
use ugsync.Review.Outcomes.{
  Decided, decide_in-Decided, Opened, open_dispute_in-Opened, Resolved, resolve_dispute_in-Resolved,
}

-- A note that a request accepts: a text whose stripped length is in range.
pub record IsNote (minimum : ℕ) (note : Option String) (cleaned : String) : Type 0 where
  pub text : String
  pub given : note ≡ some text
  pub stripped : cleaned ≡ strip text
  pub at_least : minimum ≤ len cleaned
  pub at_most : len cleaned ≤ max_note

require_note-IsNote :
    (minimum : ℕ) (note : Option String) (s : ReviewStore) {cleaned : String} {s' : ReviewStore}
    → require_note note minimum s ≡ (ok cleaned, s')
    → IsNote minimum note cleaned × (s' ≡ s)
unfolding require_note
require_note-IsNote minimum none s h = absurd (ground arith)
require_note-IsNote minimum (some note) s h = (
  record {
    text = note;
    given = refl;
    stripped = ground arith;
    at_least = ground arith;
    at_most = ground arith;
  },
  ground arith,
)

require_authenticated-eq_ok :
    (user : PortalUser) (s : ReviewStore) {u : Unit {0}} {s' : ReviewStore}
    → require_authenticated user s ≡ (ok u, s')
    → (str_eq user.user_id "" ≡ false) × (s' ≡ s)
unfolding require_authenticated
require_authenticated-eq_ok user s h = raise_if-eq_ok _ _ s h

require_reason-eq_ok :
    (reason : String) (s : ReviewStore) {u : Unit {0}} {s' : ReviewStore}
    → require_reason reason s ≡ (ok u, s')
    → (contains dispute_reasons reason ≡ true) × (s' ≡ s)
unfolding require_reason
require_reason-eq_ok reason s h = (ground arith, ground arith)

require_role-eq_ok :
    (user : PortalUser) (allowed : List String) (s : ReviewStore) {u : Unit {0}} {s' : ReviewStore}
    → require_role user allowed s ≡ (ok u, s')
    → (contains allowed user.role ≡ true) × (s' ≡ s)
unfolding require_role
require_role-eq_ok user allowed s h = (ground arith, ground arith)

module _ (supply : Supply) (user : PortalUser) (detection_id decision : String)
    (note request_id : Option String) (s s' : ReviewStore) where
  pub record DecideOk : Type 0 where
    pub choice : ReviewDecision
    pub cleaned : String
    pub chosen : parse_decision decision ≡ some choice
    pub allowed : contains review_roles user.role ≡ true
    pub noted : IsNote 10 note cleaned
    pub done : Decided supply user detection_id choice cleaned request_id s s'

  pub decide-DecideOk :
      {r : Option DetectionEvidence}
      → decide supply user detection_id decision note request_id s ≡ (ok r, s')
      → DecideOk
  unfolding decide
  decide-DecideOk {r} h =
      let (u, s1, roled, h1) = continue-eq_ok _ _ h in
      let (choice, s2, chosen, h2) = continue-eq_ok _ _ h1 in
      let (cleaned, s3, noted, h3) = continue-eq_ok _ _ h2 in
      let inner = commit-eq_ok s3 _ h3 in
      let (allowed, same1) = require_role-eq_ok user review_roles s roled in
      let (found, same2) = or_raise-eq_ok _ _ s1 chosen in
      let (fits, same3) = require_note-IsNote 10 note s2 noted in
      record {
        choice = choice;
        cleaned = cleaned;
        chosen = found;
        allowed = allowed;
        noted = fits;
        done =
            decide_in-Decided supply user detection_id choice cleaned request_id s s' {r = r}
              (rw (same3, same2, same1) at inner);
      }

module _ (supply : Supply) (user : PortalUser) (detection_id reason : String)
    (detail request_id : Option String) (s s' : ReviewStore) where
  pub record OpenOk : Type 0 where
    pub cleaned : String
    pub authenticated : str_eq user.user_id "" ≡ false
    pub known_reason : contains dispute_reasons reason ≡ true
    pub noted : IsNote 20 detail cleaned
    pub done : Opened supply user detection_id reason cleaned request_id s s'

  pub open_dispute-OpenOk :
      {r : Option Dispute}
      → open_dispute supply user detection_id reason detail request_id s ≡ (ok r, s')
      → OpenOk
  unfolding open_dispute
  open_dispute-OpenOk {r} h =
      let (u, s1, auth, h1) = continue-eq_ok _ _ h in
      let (v, s2, known, h2) = continue-eq_ok _ _ h1 in
      let (cleaned, s3, noted, h3) = continue-eq_ok _ _ h2 in
      let inner = commit-eq_ok s3 _ h3 in
      let (signed_in, same1) = require_authenticated-eq_ok user s auth in
      let (listed, same2) = require_reason-eq_ok reason s1 known in
      let (fits, same3) = require_note-IsNote 20 detail s2 noted in
      record {
        cleaned = cleaned;
        authenticated = signed_in;
        known_reason = listed;
        noted = fits;
        done =
            open_dispute_in-Opened supply user detection_id reason cleaned request_id s s' {r = r}
              (rw (same3, same2, same1) at inner);
      }

module _ (supply : Supply) (user : PortalUser) (dispute_id resolution : String)
    (note request_id : Option String) (s s' : ReviewStore) where
  pub record ResolveOk : Type 0 where
    pub choice : DisputeResolution
    pub cleaned : String
    pub chosen : parse_resolution resolution ≡ some choice
    pub allowed : contains dispute_resolution_roles user.role ≡ true
    pub noted : IsNote 10 note cleaned
    pub done : Resolved supply user dispute_id choice cleaned request_id s s'

  pub resolve-ResolveOk :
      {r : Dispute}
      → service_resolve_dispute supply user dispute_id resolution note request_id s ≡ (ok r, s')
      → ResolveOk
  unfolding service_resolve_dispute
  resolve-ResolveOk {r} h =
      let (u, s1, roled, h1) = continue-eq_ok _ _ h in
      let (choice, s2, chosen, h2) = continue-eq_ok _ _ h1 in
      let (cleaned, s3, noted, h3) = continue-eq_ok _ _ h2 in
      let inner = commit-eq_ok s3 _ h3 in
      let (allowed, same1) = require_role-eq_ok user dispute_resolution_roles s roled in
      let (found, same2) = or_raise-eq_ok _ _ s1 chosen in
      let (fits, same3) = require_note-IsNote 10 note s2 noted in
      record {
        choice = choice;
        cleaned = cleaned;
        chosen = found;
        allowed = allowed;
        noted = fits;
        done =
            resolve_dispute_in-Resolved supply user dispute_id choice cleaned request_id s s'
              {r = r} (rw (same3, same2, same1) at inner);
      }
