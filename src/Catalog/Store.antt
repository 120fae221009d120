-- ===== src/Catalog/Store.antt =====
-- catalog/store.py, `InMemoryCatalogStore`: its rows, its unique rules and the links. A session is
-- one call of the service: the store, and what its `uuid4()` and its `_today_campala()` calls
-- return, in order. `lower` is `str.lower`, of the host.
use ugsync.Prelude.{ℕ, suc, Bool, Option, List, [], String}
use ugsync.Prelude.Int.{ℤ}
use ugsync.Dict.{Dict}
use ugsync.Exec.{Exec, ok, gets, modify, transaction}
use ugsync.Catalog.Documents.{Duration, CatalogError}

pub record OrganizationRow : Type 0 where
  pub id : String
  pub legal_name : String
  pub organization_type : String
  pub trading_name : Option String
  pub registration_number : Option String
  pub country_code : String
  pub contact_email : Option String

pub record PartyRow : Type 0 where
  pub id : String
  pub party_kind : String
  pub legal_name : String
  pub organization_id : Option String
  pub stage_or_trading_name : Option String

pub record ArtistRow : Type 0 where
  pub id : String
  pub party_id : String
  pub stage_name : String
  pub country_code : String

pub record CatalogRow : Type 0 where
  pub id : String
  pub owner_organization_id : String
  pub name : String
  pub is_active : Bool

pub record WorkRow : Type 0 where
  pub id : String
  pub catalog_id : String
  pub title : String
  pub alternate_titles : List String
  pub iswc : Option String
  pub language_code : String

pub record ReleaseRow : Type 0 where
  pub id : String
  pub catalog_id : String
  pub title : String
  pub release_type : String
  pub upc_ean : Option String

pub record RecordingRow : Type 0 where
  pub id : String
  pub catalog_id : String
  pub title : String
  pub isrc : Option String
  pub duration_seconds : Duration
  pub explicit : Bool
  pub audio_sha256 : Option String
  pub fingerprint_schema_id : Option String

pub record RecordingArtist : Type 0 where
  pub recording_id : String
  pub artist_id : String
  pub artist_role : String
  pub display_order : ℕ

pub record RecordingWork : Type 0 where
  pub recording_id : String
  pub work_id : String
  pub is_primary_work : Bool

pub record ReleaseRecording : Type 0 where
  pub release_id : String
  pub recording_id : String
  pub track_number : ℤ

pub record ContributorRow : Type 0 where
  pub work_id : String
  pub party_id : String
  pub contributor_role : String
  pub display_order : ℕ

-- The statuses that the methods write.
pub data SheetStatus : Type 0 where
  draft active superseded : SheetStatus

pub record SplitSheetRow : Type 0 where
  pub id : String
  pub catalog_id : String
  pub recording_id : Option String
  pub work_id : Option String
  pub right_type : String
  pub version : ℕ
  pub status : SheetStatus
  pub valid_from : String
  pub valid_to : Option String
  pub source_document_key : Option String
  pub approved_at : Option String
  pub approved_by_party_id : Option String

pub record SplitLineRow : Type 0 where
  pub id : String
  pub split_sheet_id : String
  pub party_id : String
  pub role : String
  pub share_basis_points : ℕ

pub data CatalogMetadata : Type 0 where
  onboarded :
      (organizations parties recordings works releases split_sheets_draft : ℕ) → CatalogMetadata
  sheet_activated :
      (right_type : String) → (version total_basis_points line_count : ℕ) → CatalogMetadata

pub record CatalogAudit : Type 0 where
  pub id : String
  pub catalog_id : Option String
  pub actor_id : Option String
  pub action : String
  pub entity_type : String
  pub entity_id : Option String
  pub request_id : Option String
  pub metadata : CatalogMetadata

-- `OnboardingResult`, which its `as_dict` keeps whole under other keys
pub record OnboardingResult : Type 0 where
  pub catalog_id : String
  pub organization_ids : Dict String
  pub party_ids : Dict String
  pub artist_ids : Dict String
  pub work_ids : Dict String
  pub release_ids : Dict String
  pub recording_ids : Dict String
  pub split_sheet_ids : Dict String

pub record CatalogStore : Type 0 where
  pub organizations : Dict OrganizationRow
  pub parties : Dict PartyRow
  pub artists : Dict ArtistRow
  pub catalogs : Dict CatalogRow
  pub works : Dict WorkRow
  pub releases : Dict ReleaseRow
  pub recordings : Dict RecordingRow
  pub recording_artists : List RecordingArtist
  pub recording_works : List RecordingWork
  pub release_recordings : List ReleaseRecording
  pub work_contributors : List ContributorRow
  pub split_sheets : Dict SplitSheetRow
  pub split_lines : Dict (List SplitLineRow)
  pub audit_events : List CatalogAudit
  pub onboardings : Dict OnboardingResult

abbrev pub new_catalog_store : CatalogStore
new_catalog_store = record {
  organizations = [];
  parties = [];
  artists = [];
  catalogs = [];
  works = [];
  releases = [];
  recordings = [];
  recording_artists = [];
  recording_works = [];
  release_recordings = [];
  work_contributors = [];
  split_sheets = [];
  split_lines = [];
  audit_events = [];
  onboardings = [];
}

pub record Session : Type 0 where
  pub store : CatalogStore
  pub uuids : ℕ → String
  pub days : ℕ → String

abbrev pub Action : Type 0 → Type 0
Action A = Exec CatalogError Session A

abbrev pub reads : {A : Type 0} → (CatalogStore → A) → Action A
reads f = gets (λ s. f s.store)

abbrev pub changes : (CatalogStore → CatalogStore) → Action (Unit {0})
changes f = modify (λ s. record s { store = f s.store })

-- `_new_id`
unfoldable pub new_id : Action String
new_id s = (ok (s.uuids 0), record s { uuids = λ n. s.uuids (suc n) })

-- `_today_campala`
unfoldable pub today : Action String
today s = (ok (s.days 0), record s { days = λ n. s.days (suc n) })

-- A call of the service in a transaction, with its supplies.
abbrev pub in_session :
    {A : Type 0} → (ℕ → String) → (ℕ → String) → Action A → Exec CatalogError CatalogStore A
in_session uuids days m =
    transaction
      λ s. let (r, s') = m (record { store = s; uuids = uuids; days = days }) in (r, s'.store)
