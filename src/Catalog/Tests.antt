-- ===== src/Catalog/Tests.antt =====
-- Runs of the catalog service, and its theorems at concrete inputs.
use ugsync.Prelude.{◌≡◌, refl, true, none, some, [], ◌∷◌, String, ℕ, zero, suc}
use ugsync.Dict.{get, put, map_values, find_value}
use ugsync.Exec.{ok, err}
use ugsync.Catalog.Documents.{OrganizationDocument, OnboardingDocument, not_found}
use ugsync.Catalog.Store.{
  SplitSheetRow, SplitLineRow, CatalogStore, OnboardingResult, new_catalog_store, draft, active,
  superseded, new_id, today,
}
use ugsync.Catalog.Sheets.{
  SplitSheetView, create_split_sheet, add_split_line, lines_of, supersede, approved,
  get_split_sheet, write_catalog_audit,
}
use ugsync.Catalog.Service.{
  Host, Call, onboard, onboard_once, onboard_new, activate_split_sheet, activate_in, build_result,
}
use ugsync.Catalog.Invariant.{IsCatalog}
use ugsync.Catalog.Run.{onboarding, activation, after, here, next, Reach-IsCatalog}
use ugsync.Catalog.Writes.{
  begin_onboarding, create_organization, create_catalog, create_party, create_work,
  link_work_contributor, finish_onboarding,
}
use ugsync.Catalog.Persist.{
  persist, persist_organizations, persist_parties, persist_works, persist_releases,
  persist_recordings, persist_all_contributors, persist_contributors, persist_lines, put_sheet,
  persist_sheets,
}
use ugsync.Catalog.Once.{onboarded_once}
use ugsync.Catalog.Activation.{
  IsActivable, view_of, activation_store, activates_to, IsActivated, activate_draft,
  activate-Activates,
}

abbrev host : Host
host = record { lower = λ s. s; is_uuid = λ s. true }

abbrev uuid : ℕ → String
uuid zero = "u0"
uuid (suc zero) = "u1"
uuid (suc (suc n)) = "u2"

abbrev call : Call
call = record {
  uuids = uuid;
  days = λ n. "2026-01-01";
  now = "2026-01-02T00:00:00+00:00";
  actor_id = none;
  request_id = none;
}

abbrev label : OrganizationDocument
label = record {
  local_id = "o";
  legal_name = "Label";
  organization_type = "label";
  trading_name = none;
  registration_number = none;
  country_code = "UG";
  contact_email = none;
}

abbrev small : OnboardingDocument
small = record {
  catalog_name = "Main";
  owner_local_id = "o";
  organizations = label ∷ [];
  parties = [];
  artists = [];
  works = [];
  releases = [];
  recordings = [];
  split_sheets = [];
}

-- A sheet of one work and one right, by version.
abbrev sheet : String → SplitSheetRow
sheet id = record {
  id = id;
  catalog_id = "c";
  recording_id = none;
  work_id = some "w";
  right_type = "composition";
  version = 1;
  status = draft;
  valid_from = "2026-01-01";
  valid_to = none;
  source_document_key = none;
  approved_at = none;
  approved_by_party_id = none;
}

abbrev older : SplitSheetRow
older = record (sheet "s1") { status = active }

abbrev whole_line : String → SplitLineRow
whole_line id = record {
  id = "l";
  split_sheet_id = id;
  party_id = "p";
  role = "composer";
  share_basis_points = 10_000;
}

abbrev two_sheets : CatalogStore
two_sheets = record new_catalog_store {
  split_sheets = ("s1", older) ∷ ("s2", sheet "s2") ∷ [];
  split_lines = ("s1", whole_line "s1" ∷ []) ∷ ("s2", whole_line "s2" ∷ []) ∷ [];
}

Reach-IsCatalog_example : IsCatalog (
    after host
      (activation call "s" "p")
      (after host (onboarding call (some small) (some "k")) new_catalog_store))
Reach-IsCatalog_example =
    Reach-IsCatalog host
      (next (onboarding call (some small) (some "k")) (next (activation call "s" "p") here))

two_sheets-IsActivable : IsActivable host call "s2" "p" two_sheets (sheet "s2")
unfolding get lines_of
two_sheets-IsActivable = record {
  formed = refl;
  signed = refl;
  found = refl;
  drafted = refl;
  whole = refl;
}

-- The older sheet of the work is superseded.
supersedes :
    get (activation_store host call "s2" "p" two_sheets (sheet "s2")).split_sheets "s1"
    ≡ some (record older { status = superseded; valid_to = some "2026-01-01" })
unfolding get put map_values supersede
supersedes = refl

activate-Activates_example :
    (found : SplitSheetRow) × IsActivable host call "s2" "p" two_sheets found
    × (view_of host call "s2" "p" two_sheets (approved "p" call.now (sheet "s2"))
        ≡ view_of host call "s2" "p" two_sheets (approved "p" call.now found))
    × (activation_store host call "s2" "p" two_sheets (sheet "s2")
        ≡ activation_store host call "s2" "p" two_sheets found)
    × IsActivated host call "s2" "p" two_sheets found
        (view_of host call "s2" "p" two_sheets (approved "p" call.now (sheet "s2")))
        (activation_store host call "s2" "p" two_sheets (sheet "s2"))
activate-Activates_example =
    activate-Activates host call "s2" "p" two_sheets
      (activates_to host call "s2" "p" two_sheets (sheet "s2") two_sheets-IsActivable)

activate_draft_example :
    (view : SplitSheetView) × (s' : CatalogStore) × (activate_split_sheet host call "s2" "p"
        two_sheets
      ≡ (ok view, s'))
    × IsActivated host call "s2" "p" two_sheets (sheet "s2") view s'
activate_draft_example =
    activate_draft host call "s2" "p" two_sheets (sheet "s2") two_sheets-IsActivable

-- A sheet that is not there.
unknown_sheet : activate_split_sheet host call "s3" "p" two_sheets ≡ (err not_found, two_sheets)
unfolding activate_split_sheet activate_in get_split_sheet get
unknown_sheet = refl

abbrev small_result : OnboardingResult
small_result = record {
  catalog_id = "u1";
  organization_ids = ("o", "u0") ∷ [];
  party_ids = [];
  artist_ids = [];
  work_ids = [];
  release_ids = [];
  recording_ids = [];
  split_sheet_ids = [];
}

abbrev small_store : CatalogStore
small_store = (onboard host call (some small) (some "k") new_catalog_store).1

small_run :
    onboard host call (some small) (some "k") new_catalog_store ≡ (ok small_result, small_store)
unfolding onboard onboard_once onboard_new begin_onboarding get persist persist_organizations
    create_organization find_value new_id create_catalog persist_parties persist_works
    persist_releases persist_recordings persist_all_contributors persist_sheets write_catalog_audit
    finish_onboarding build_result put
small_run = refl

onboarded_once_example :
    onboard host call (some small) (some "k") (after host (activation call "s2" "p") small_store)
    ≡ (ok small_result, after host (activation call "s2" "p") small_store)
onboarded_once_example =
    onboarded_once host call call small small "k" new_catalog_store refl small_run
      (next (activation call "s2" "p") here)

abbrev many : ℕ → String
many zero = "o1"
many (suc zero) = "c1"
many (suc (suc zero)) = "p1"
many (suc (suc (suc zero))) = "w1"
many (suc (suc (suc (suc zero)))) = "s1"
many (suc (suc (suc (suc (suc zero))))) = "l1"
many (suc (suc (suc (suc (suc (suc n)))))) = "e1"

-- A document with a work of one contributor, and a sheet of it with one line.
abbrev song : OnboardingDocument
song = record small {
  parties =
      record {
        local_id = "p";
        party_kind = "individual";
        legal_name = "Ann";
        organization_local_id = none;
        stage_or_trading_name = none;
      }
      ∷ [];
  works =
      record {
        local_id = "w";
        title = "Song";
        language_code = "eng";
        iswc = none;
        alternate_titles = [];
        contributors =
            record { party_local_id = "p"; contributor_role = "composer"; display_order = 1 } ∷ [];
      }
      ∷ [];
  split_sheets =
      record {
        right_type = "composition";
        asset_local_id = "w";
        lines =
            record { party_local_id = "p"; role = "composer"; share_basis_points = 10_000 } ∷ [];
        source_document_key = none;
      }
      ∷ [];
}

abbrev song_store : CatalogStore
song_store = (onboard host (record call { uuids = many }) (some song) none new_catalog_store).1

-- The contributor and the line are written, under the identifiers of the work, sheet and party.
song_written :
    (song_store.work_contributors
      ≡ record { work_id = "w1"; party_id = "p1"; contributor_role = "composer"; display_order = 1 }
        ∷ [])
    × (get song_store.split_lines "s1"
        ≡ some (
            record {
              id = "l1";
              split_sheet_id = "s1";
              party_id = "p1";
              role = "composer";
              share_basis_points = 10_000;
            }
            ∷ []))
unfolding onboard onboard_new get persist persist_organizations create_organization find_value
    new_id create_catalog persist_parties create_party persist_works create_work persist_releases
    persist_recordings persist_all_contributors persist_contributors link_work_contributor
    persist_sheets create_split_sheet persist_lines add_split_line write_catalog_audit build_result
    put put_sheet today
song_written = (refl, refl)
