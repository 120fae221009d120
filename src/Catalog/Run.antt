-- ===== src/Catalog/Run.antt =====
-- Calls of the catalog service in sequence, and what they keep of the catalog's invariant.
use ugsync.Prelude.{
  not, Option, none, some, String, is_blank, Bool-cases, Option-cases, inl, inr, ◌==◌, arith,
}
use ugsync.Dict.{get, weigh}
use ugsync.Exec.{Result, commit}
use ugsync.Exec.Triples.{Holds, continue-Holds, raise_if-Holds, or_raise-Holds, holds, fails}
use ugsync.Catalog.Documents.{CatalogError, OnboardingDocument}
use ugsync.Catalog.Store.{
  CatalogStore, CatalogAudit, Session, Action, in_session, new_catalog_store,
}
use ugsync.Catalog.Writes.{begin_onboarding, finish_onboarding}
use ugsync.Catalog.Sheets.{get_split_sheet, store_activate, write_catalog_audit, is_draft}
use ugsync.Catalog.Persist.{persist}
use ugsync.Catalog.Service.{
  Host, Call, onboard, onboard_new, onboard_once, activate_split_sheet, activate_in,
  service_get_split_sheet, onboarded_event, activated_event, build_result,
}
use ugsync.Catalog.Invariant.{IsCatalog, Keeps}
use ugsync.Catalog.Stable.{KeepsOf}
use ugsync.Catalog.Kept.{IsDraft, IsCatalog-Stable, store_activate-Keeps, write_catalog_audit-Keeps}
use ugsync.Catalog.Onboarded.{persist-Keeps}

pub data CatalogRequest : Type 0 where
  onboarding : Call → Option OnboardingDocument → (idempotency_key : Option String) → CatalogRequest
  activation : Call → (split_sheet_id approver_party_id : String) → CatalogRequest
  reading : Call → (split_sheet_id : String) → CatalogRequest

-- The store after a request, whether it raised or not.
abbrev pub after : Host → CatalogRequest → CatalogStore → CatalogStore
after host (onboarding call d key) s = (onboard host call d key s).1
after host (activation call id approver) s = (activate_split_sheet host call id approver s).1
after host (reading call id) s = (service_get_split_sheet host call id s).1

pub data Reach (host : Host) : CatalogStore → CatalogStore → Type 0 where
  here : {s : CatalogStore} → Reach host s s
  next : {s t : CatalogStore} (r : CatalogRequest) → Reach host (after host r s) t → Reach host s t

new_catalog_store-IsCatalog : IsCatalog new_catalog_store
unfolding weigh get
new_catalog_store-IsCatalog = (
  (λ x given. omega arith, λ x given. omega arith, λ x given. omega arith, λ x given. omega arith),
  (tt, λ r w t. omega arith, λ id row there is_on. absurd (ground arith)),
)

module _ (P : CatalogStore → Type 0) {A : Type 0} where
  committed :
      (s : CatalogStore) (p : Result CatalogError A × Session)
      → P s
      → Holds (λ a t. P t.store) p
      → P (commit s (p.0, p.1.store)).1
  committed s (_, _) before (holds after) = after
  committed s (_, _) before fails = before

  -- A call in a transaction keeps what its body keeps on success.
  pub session-keeps :
      (call : Call) (m : Action A)
      → KeepsOf P m
      → (s : CatalogStore) → P s
      → P (in_session call.uuids call.days m s).1
  session-keeps call m keeps s before =
      committed s (m (record { store = s; uuids = call.uuids; days = call.days })) before
        (keeps _ before)

-- What holds of the store, and is kept by each kind of call, is kept by calls in sequence.
module _ (host : Host) (P : CatalogStore → Type 0)
    (new : (call : Call) (d : OnboardingDocument) → KeepsOf P (onboard_new host call d))
    (once : (call : Call) (d : OnboardingDocument) (key : String)
      → KeepsOf P (onboard_once host call d key))
    (activates : (id approver now : String) → KeepsOf P (store_activate id approver now))
    (audits : (event : String → CatalogAudit) → KeepsOf P (write_catalog_audit event)) where
  onboard-keeps :
      (call : Call) (o : Option OnboardingDocument) (key : Option String) (s : CatalogStore)
      → P s
      → P (onboard host call o key s).1
  unfolding onboard
  onboard-keeps call none key s inv = inv
  onboard-keeps call (some d) none s inv =
      session-keeps P call (onboard_new host call d) (new call d) s inv
  onboard-keeps call (some d) (some key) s inv = elim (Bool-cases (is_blank key)) [
    | inl blank ↦ rw blank (session-keeps P call (onboard_new host call d) (new call d) s inv)
    | inr given ↦ elim (Bool-cases (host.is_uuid key)) [
      | inr malformed ↦ rw (given, malformed) inv
      | inl formed ↦
          rw (given, formed)
            (session-keeps P call (onboard_once host call d key) (once call d key) s inv)
    ]
  ]

  get_split_sheet-Keeps : (id : String) → KeepsOf P (get_split_sheet id)
  unfolding get_split_sheet
  get_split_sheet-Keeps id s inv =
      or_raise-Holds (get s.store.split_sheets id) _ _ _ λ sheet found. holds inv

  activate_in-Keeps :
      (call : Call) (id approver : String) → KeepsOf P (activate_in call id approver)
  unfolding activate_in
  activate_in-Keeps call id approver s inv =
      continue-Holds (λ a t. P t.store) (get_split_sheet id s) _ (get_split_sheet-Keeps id s inv)
        λ view t kept. raise_if-Holds (not (is_draft view.sheet.status)) _ _ _ λ drafted.
          raise_if-Holds (not (view.total_basis_points == 10_000)) _ _ _ λ whole.
            continue-Holds (λ a t. P t.store) (store_activate id approver call.now t) _
              (activates id approver call.now t kept)
              λ u t kept.
                continue-Holds (λ a t. P t.store)
                  (write_catalog_audit (activated_event call id approver view) t) _
                  (audits _ t kept) λ u. get_split_sheet-Keeps id

  activate-keeps :
      (call : Call) (id approver : String) (s : CatalogStore)
      → P s
      → P (activate_split_sheet host call id approver s).1
  unfolding activate_split_sheet
  activate-keeps call id approver s inv = elim (Bool-cases (host.is_uuid id)) [
    | inr malformed ↦ rw malformed inv
    | inl formed ↦ elim (Bool-cases (host.is_uuid approver)) [
      | inr malformed ↦ rw (formed, malformed) inv
      | inl signed ↦
          rw (formed, signed)
            (session-keeps P call (activate_in call id approver)
              (activate_in-Keeps call id approver) s inv)
    ]
  ]

  reading-keeps :
      (call : Call) (id : String) (s : CatalogStore)
      → P s
      → P (service_get_split_sheet host call id s).1
  unfolding service_get_split_sheet
  reading-keeps call id s inv = elim (Bool-cases (host.is_uuid id)) [
    | inr malformed ↦ rw malformed inv
    | inl formed ↦
        rw formed (session-keeps P call (get_split_sheet id) (get_split_sheet-Keeps id) s inv)
  ]

  pub after-keeps : (r : CatalogRequest) (s : CatalogStore) → P s → P (after host r s)
  after-keeps (onboarding call d key) s inv = onboard-keeps call d key s inv
  after-keeps (activation call id approver) s inv = activate-keeps call id approver s inv
  after-keeps (reading call id) s inv = reading-keeps call id s inv

  pub Reach-keeps : {s t : CatalogStore} → Reach host s t → P s → P t
  Reach-keeps here inv = inv
  Reach-keeps {s} (next r more) inv = Reach-keeps more (after-keeps r s inv)

module _ (host : Host) where
  onboard_new-Keeps : (call : Call) (d : OnboardingDocument) → Keeps (onboard_new host call d)
  unfolding onboard_new
  onboard_new-Keeps call d s inv =
      continue-Holds (λ a t. IsCatalog t.store) (persist host.lower d s) _
        (persist-Keeps IsCatalog IsDraft IsCatalog-Stable host.lower d s inv)
        λ c t kept.
          continue-Holds (λ a t. IsCatalog t.store)
            (write_catalog_audit (onboarded_event call d (build_result c)) t) _
            (write_catalog_audit-Keeps _ t kept) λ u t kept. holds kept

  onboard_once-Keeps :
      (call : Call) (d : OnboardingDocument) (key : String) → Keeps (onboard_once host call d key)
  unfolding onboard_once begin_onboarding finish_onboarding
  onboard_once-Keeps call d key s inv = elim (Option-cases (get s.store.onboardings key)) [
    | inr (result, known) ↦ rw known (holds inv)
    | inl new ↦ rw new (
        continue-Holds (λ a t. IsCatalog t.store) (onboard_new host call d s) _
          (onboard_new-Keeps call d s inv) λ result t kept. holds kept)
  ]

  -- Whatever calls have been made since the store was empty: no two recordings share an ISRC or an
  -- audio digest, no two works an ISWC and no two releases a UPC, where one is given; each split
  -- sheet stands under its own identifier, at most one is active for an asset and a right, and the
  -- lines of an active one total exactly 10,000 basis points.
  pub Reach-IsCatalog : {s : CatalogStore} → Reach host new_catalog_store s → IsCatalog s
  Reach-IsCatalog reach =
      Reach-keeps host IsCatalog onboard_new-Keeps onboard_once-Keeps store_activate-Keeps
        write_catalog_audit-Keeps reach new_catalog_store-IsCatalog
