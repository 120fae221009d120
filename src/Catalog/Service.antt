-- ===== src/Catalog/Service.antt =====
-- catalog/service.py, `CatalogService`. A payload has been read by `parse_onboarding_document`,
-- whose refusal is an error of the call. `is_uuid` is whether `UUID(text)` of the host accepts it.
use Prim.Native.String.{◌++◌ as join}
use ugsync.Prelude.{
  ℕ, Bool, not, Option, none, some, List, [], ◌∷◌, ◌++◌, contains, String, is_blank, length, ◌==◌,
  if◌then◌else◌,
}
use ugsync.Dict.{Dict, put}
use ugsync.Exec.{Exec, pure, raise, raise_if, ◌>>=◌, ◌>>◌}
use ugsync.Catalog.Documents.{
  OnboardingDocument, SplitSheetDocument, SplitLineDocument, CatalogError, validation,
  overflow_error, state_error,
}
use ugsync.Ingest.Fields.{Json}
use ugsync.Catalog.Checks.{Reader}
use ugsync.Catalog.References.{
  ParsedDocument, accepted, refused, overflowed, parse_onboarding_document, document_total,
}
use ugsync.Catalog.Store.{
  Action, CatalogStore, CatalogAudit, onboarded, sheet_activated, OnboardingResult, in_session,
}
use ugsync.Catalog.Writes.{begin_onboarding, finish_onboarding}
use ugsync.Catalog.Sheets.{
  SplitSheetView, get_split_sheet, store_activate, write_catalog_audit, is_draft,
}
use ugsync.Catalog.Persist.{CatalogContext, SheetIds, persist}

-- `f"{right_type}:{asset_local_id}"`
abbrev pub sheet_keys : SheetIds → Dict String → Dict String
sheet_keys [] d = d
sheet_keys (((right_type, asset), sheet_id) ∷ rest) d =
    sheet_keys rest (put d (join right_type (join ":" asset)) sheet_id)

unfoldable pub build_result : CatalogContext → OnboardingResult
build_result c = record {
  catalog_id = c.catalog_id;
  organization_ids = c.organization_ids;
  party_ids = c.party_ids;
  artist_ids = [];
  work_ids = c.work_ids;
  release_ids = c.release_ids;
  recording_ids = c.recording_ids;
  split_sheet_ids = sheet_keys c.split_sheet_ids [];
}

-- What the host provides: `str.lower`, and whether `UUID(text)` takes the text.
pub record Host : Type 0 where
  pub lower : String → String
  pub is_uuid : String → Bool

-- Who calls, and what the call draws.
pub record Call : Type 0 where
  pub uuids : ℕ → String
  pub days : ℕ → String
  pub now : String
  pub actor_id : Option String
  pub request_id : Option String

abbrev pub onboarded_event : Call → OnboardingDocument → OnboardingResult → String → CatalogAudit
onboarded_event call d result audit_id = record {
  id = audit_id;
  catalog_id = some result.catalog_id;
  actor_id = call.actor_id;
  action = "catalog.onboarded";
  entity_type = "catalog";
  entity_id = some result.catalog_id;
  request_id = call.request_id;
  metadata =
      onboarded (length d.organizations) (length d.parties) (length d.recordings) (length d.works)
        (length d.releases) (length d.split_sheets);
}

-- The part of `onboard` that writes, and the result under its key.
unfoldable pub onboard_new : Host → Call → OnboardingDocument → Action OnboardingResult
onboard_new host call d = do
  context ← persist host.lower d
  write_catalog_audit (onboarded_event call d (build_result context))
  pure (build_result context)

abbrev pub or_onboard : Option OnboardingResult → Action OnboardingResult → Action OnboardingResult
or_onboard none m = m
or_onboard (some result) m = pure result

-- With a key: the stored result, or a new one that is stored.
unfoldable pub onboard_once :
    Host → Call → OnboardingDocument → (idempotency_key : String) → Action OnboardingResult
onboard_once host call d key = do
  existing ← begin_onboarding key
  or_onboard existing
      (do result ← onboard_new host call d; finish_onboarding key result; pure result)

-- A key that is empty counts as none.
unfoldable pub onboard :
    Host
    → Call
    → Option OnboardingDocument
    → (idempotency_key : Option String) → Exec CatalogError CatalogStore OnboardingResult
onboard host call none key = raise validation
onboard host call (some d) none = in_session call.uuids call.days (onboard_new host call d)
onboard host call (some d) (some key) =
    if is_blank key
    then in_session call.uuids call.days (onboard_new host call d)
    else (raise_if (not (host.is_uuid key)) validation
        >> in_session call.uuids call.days (onboard_once host call d key))

-- `actor_id or approver_party_id`
abbrev pub or_approver : Option String → String → String
or_approver none approver = approver
or_approver (some actor) approver = if is_blank actor then approver else actor

abbrev pub activated_event :
    Call → (split_sheet_id approver_party_id : String) → SplitSheetView → String → CatalogAudit
activated_event call split_sheet_id approver_party_id view audit_id = record {
  id = audit_id;
  catalog_id = some view.sheet.catalog_id;
  actor_id = some (or_approver call.actor_id approver_party_id);
  action = "split_sheet.activated";
  entity_type = "split_sheet";
  entity_id = some split_sheet_id;
  request_id = call.request_id;
  metadata =
      sheet_activated view.sheet.right_type view.sheet.version view.total_basis_points
        (length view.lines);
}

unfoldable pub activate_in :
    Call → (split_sheet_id approver_party_id : String) → Action SplitSheetView
activate_in call split_sheet_id approver_party_id = do
  view ← get_split_sheet split_sheet_id
  raise_if (not (is_draft view.sheet.status)) state_error
  raise_if (not (view.total_basis_points == 10_000)) state_error
  store_activate split_sheet_id approver_party_id call.now
  write_catalog_audit (activated_event call split_sheet_id approver_party_id view)
  get_split_sheet split_sheet_id

unfoldable pub activate_split_sheet :
    Host
    → Call
    → (split_sheet_id approver_party_id : String) → Exec CatalogError CatalogStore SplitSheetView
activate_split_sheet host call split_sheet_id approver_party_id = do
  raise_if (not (host.is_uuid split_sheet_id)) validation
  raise_if (not (host.is_uuid approver_party_id)) validation
  in_session call.uuids call.days (activate_in call split_sheet_id approver_party_id)

unfoldable pub service_get_split_sheet :
    Host → Call → (split_sheet_id : String) → Exec CatalogError CatalogStore SplitSheetView
service_get_split_sheet host call split_sheet_id = do
  raise_if (not (host.is_uuid split_sheet_id)) validation
  in_session call.uuids call.days (get_split_sheet split_sheet_id)

-- The rest of `onboard` after `parse_onboarding_document`, whose ValidationProblem it translates. An
-- OverflowError passes through.
abbrev pub onboard_parsed :
    Host
    → Call
    → ParsedDocument
    → (idempotency_key : Option String) → Exec CatalogError CatalogStore OnboardingResult
onboard_parsed host call (accepted d) key = onboard host call (some d) key
onboard_parsed host call (refused problems) key = onboard host call none key
onboard_parsed host call overflowed key = raise overflow_error

-- `CatalogService.onboard`, from the payload.
unfoldable pub onboard_payload :
    Reader
    → Host
    → Call
    → Json
    → (idempotency_key : Option String) → Exec CatalogError CatalogStore OnboardingResult
onboard_payload reader host call payload key =
    onboard_parsed host call (parse_onboarding_document reader payload) key

pub data SheetProblem : Type 0 where
  not_whole : (total : ℕ) → SheetProblem
  not_onboarded : (party_local_id : String) → SheetProblem

unfoldable pub missing_parties :
    (party_ids : List String) → List SplitLineDocument → List SheetProblem
missing_parties party_ids [] = []
missing_parties party_ids (l ∷ ls) =
    (if contains party_ids l.party_local_id then [] else not_onboarded l.party_local_id ∷ [])
    ++ missing_parties party_ids ls

unfoldable pub validate_split_sheet :
    SplitSheetDocument → (party_ids : List String) → List SheetProblem
validate_split_sheet d party_ids =
    (if document_total d.lines == 10_000 then [] else not_whole (document_total d.lines) ∷ [])
    ++ missing_parties party_ids d.lines
