-- ===== src/Catalog/Once.antt =====
-- Onboardings under a key: what a call writes, and that a key is answered once.
use ugsync.Prelude.{
  ◌≡◌, refl, true, false, not, none, some, [], ◌∷◌, ◌++◌, String, eq_iff, is_blank, Bool-cases,
  Option-cases, inl, inr, ◌==◌, arith,
}
use ugsync.Dict.{get, put, get-put, get-put_same}
use ugsync.Exec.{ok}
use ugsync.Exec.Triples.{
  Holds, continue-Holds, raise_if-Holds, or_raise-Holds, holds, Holds-of_ok, Holds-post,
}
use ugsync.Catalog.Documents.{OnboardingDocument}
use ugsync.Catalog.Store.{CatalogStore, CatalogAudit, Session, OnboardingResult, new_id}
use ugsync.Catalog.Writes.{begin_onboarding, finish_onboarding}
use ugsync.Catalog.Sheets.{store_activate, write_catalog_audit, is_draft, lines_of, total_of}
use ugsync.Catalog.Persist.{persist}
use ugsync.Catalog.Service.{Host, Call, onboard, onboard_new, onboard_once, onboarded_event}
use ugsync.Catalog.Stable.{KeepsOf, session-Holds}
use ugsync.Catalog.Onboarded.{persist-Keeps}
use ugsync.Catalog.Framed.{Framed, Anything, Framed-Stable, OldOrDraft}
use ugsync.Catalog.Run.{Reach, Reach-keeps}

-- What `onboard` has written for a document: one event of the audit, which names the catalog of
-- the result, and draft sheets only. Answers to other keys are as they were.
pub record Onboards (call : Call) (d : OnboardingDocument) (s : CatalogStore) (r : OnboardingResult)
    (s' : CatalogStore) : Type 0 where
  pub audit_id : String
  pub audited : s'.audit_events ≡ s.audit_events ++ onboarded_event call d r audit_id ∷ []
  pub drafts : OldOrDraft s.split_sheets s'.split_sheets

-- The two ways in which a call with a key succeeds.
pub data Answers (call : Call) (d : OnboardingDocument) (key : String) (s : CatalogStore)
    (r : OnboardingResult) : CatalogStore → Type 0 where
  replayed : get s.onboardings key ≡ some r → Answers call d key s r s
  recorded :
      {s' : CatalogStore}
      → get s.onboardings key ≡ none
      → Onboards call d s r s'
      → s'.onboardings ≡ put s.onboardings key r
      → Answers call d key s r s'

Framed-refl : (s : CatalogStore) → Framed s s
Framed-refl s = (refl, refl, λ id row there. inl there)

module _ (host : Host) (call : Call) where
  onboard_new-Onboards :
      (d : OnboardingDocument) (s : Session)
      → Holds
          (λ r t. Onboards call d s.store r t.store × (t.store.onboardings ≡ s.store.onboardings))
          (onboard_new host call d s)
  unfolding onboard_new write_catalog_audit new_id
  onboard_new-Onboards d s =
      continue-Holds (λ c t. Framed s.store t.store) (persist host.lower d s) _
        (persist-Keeps (Framed s.store) Anything (Framed-Stable s.store) host.lower d s
          (Framed-refl s.store))
        λ c t (answers, audit, drafts).
          holds
            ((record { audit_id = t.uuids 0; audited = rw audit refl; drafts = drafts }), answers)

  onboard_once-Answers :
      (d : OnboardingDocument) (key : String) (s : Session)
      → Holds (λ r t. Answers call d key s.store r t.store) (onboard_once host call d key s)
  unfolding onboard_once begin_onboarding finish_onboarding
  onboard_once-Answers d key s = elim (Option-cases (get s.store.onboardings key)) [
    | inr (result, known) ↦ rw known (holds (replayed known))
    | inl new ↦ rw new (
        continue-Holds
          (λ r t. Onboards call d s.store r t.store × (t.store.onboardings ≡ s.store.onboardings))
          (onboard_new host call d s) _ (onboard_new-Onboards d s)
          λ r t (done, answers). holds (
            recorded new
              (record { audit_id = done.audit_id; audited = done.audited; drafts = done.drafts })
              (rw answers refl)))
  ]

  ensures-Answers :
      (d : OnboardingDocument) (key : String) (s : CatalogStore)
      → is_blank key ≡ false
      → Holds (Answers call d key s) (onboard host call (some d) (some key) s)
  unfolding onboard
  ensures-Answers d key s given = rw given (
      raise_if-Holds (not (host.is_uuid key)) _ _ _ λ formed.
        session-Holds (Answers call d key s) s
          (onboard_once host call d key
            (record { store = s; uuids = call.uuids; days = call.days }))
          (onboard_once-Answers d key _))

  -- A call with a key that succeeds returns the result that the key has, and leaves the store as it
  -- was; or, where the key is new, it has onboarded the document and stored the result under it.
  pub onboard-Answers :
      (d : OnboardingDocument) (key : String) (s : CatalogStore) {r : OnboardingResult}
      {s' : CatalogStore}
      → is_blank key ≡ false
      → onboard host call (some d) (some key) s ≡ (ok r, s')
      → Answers call d key s r s'
  onboard-Answers d key s given ran = Holds-of_ok (ensures-Answers d key s given) ran

accepted_key :
    (host : Host) (call : Call) (d : OnboardingDocument) (key : String) (s : CatalogStore)
    {r : OnboardingResult} {s' : CatalogStore}
    → is_blank key ≡ false
    → onboard host call (some d) (some key) s ≡ (ok r, s')
    → host.is_uuid key ≡ true
unfolding onboard
accepted_key host call d key s given ran = elim (Bool-cases (host.is_uuid key)) [
  | inl formed ↦ formed
  | inr malformed ↦ absurd (ground arith)
]

Answers-stored :
    (call : Call) (d : OnboardingDocument) (key : String) (s : CatalogStore) {r : OnboardingResult}
    {s' : CatalogStore}
    → Answers call d key s r s'
    → get s'.onboardings key ≡ some r
Answers-stored call d key s (replayed known) = known
Answers-stored call d key s {r} (recorded new done stored) =
    rw stored (get-put_same s.onboardings key r)

module _ (host : Host) (key : String) (r : OnboardingResult) where
  abbrev HasAnswer : CatalogStore → Type 0
  HasAnswer s = get s.onboardings key ≡ some r

  stays :
      (call : Call) (d : OnboardingDocument) (other : String) (s : CatalogStore)
      (r' : OnboardingResult) {t : CatalogStore}
      → Answers call d other s r' t
      → HasAnswer s
      → HasAnswer t
  stays call d other s r' (replayed known) there = there
  stays call d other s r' (recorded new done stored) there =
      ground (arith, stored, new, there, get-put s.onboardings other key r', eq_iff other key)

  -- A new onboarding leaves the answers as they were.
  onboard_new-HasAnswer :
      (call : Call) (d : OnboardingDocument) → KeepsOf HasAnswer (onboard_new host call d)
  onboard_new-HasAnswer call d s there =
      Holds-post (onboard_new-Onboards host call d s) λ r t (done, answers). rw answers there

  onboard_once-HasAnswer :
      (call : Call) (d : OnboardingDocument) (other : String)
      → KeepsOf HasAnswer (onboard_once host call d other)
  onboard_once-HasAnswer call d other s there =
      Holds-post (onboard_once-Answers host call d other s)
        λ r' t answer. stays call d other s.store r' answer there

  store_activate-HasAnswer :
      (id approver now : String) → KeepsOf HasAnswer (store_activate id approver now)
  unfolding store_activate
  store_activate-HasAnswer id approver now s there =
      or_raise-Holds (get s.store.split_sheets id) _ _ _ λ sheet found.
        raise_if-Holds (not (is_draft sheet.status)) _ _ _ λ drafted.
          raise_if-Holds (not (total_of (lines_of id s.store) == 10_000)) _ _ _ λ whole. holds there

  write_catalog_audit-HasAnswer :
      (event : String → CatalogAudit) → KeepsOf HasAnswer (write_catalog_audit event)
  unfolding write_catalog_audit new_id
  write_catalog_audit-HasAnswer event s there = holds there

  Reach-HasAnswer : {s t : CatalogStore} → Reach host s t → HasAnswer s → HasAnswer t
  Reach-HasAnswer =
      Reach-keeps host HasAnswer onboard_new-HasAnswer onboard_once-HasAnswer
        store_activate-HasAnswer write_catalog_audit-HasAnswer

  replays :
      (call : Call) (d : OnboardingDocument) (s : CatalogStore)
      → is_blank key ≡ false
      → host.is_uuid key ≡ true
      → HasAnswer s
      → onboard host call (some d) (some key) s ≡ (ok r, s)
  unfolding onboard onboard_once begin_onboarding
  replays call d s given formed there = rw (given, formed, there) refl

-- After an onboarding with a key has succeeded, and any calls after it, a call with the same key
-- and any document that can be read returns the first result, and leaves the store as it is.
pub onboarded_once :
    (host : Host) (call again : Call) (d d' : OnboardingDocument) (key : String) (s : CatalogStore)
    {r : OnboardingResult} {s' t : CatalogStore}
    → is_blank key ≡ false
    → onboard host call (some d) (some key) s ≡ (ok r, s')
    → Reach host s' t
    → onboard host again (some d') (some key) t ≡ (ok r, t)
onboarded_once host call again d d' key s {r} given ran more =
    replays host key r again d' _ given (accepted_key host call d key s given ran) (
      Reach-HasAnswer host key r more
        (Answers-stored call d key s (onboard-Answers host call d key s given ran)))
