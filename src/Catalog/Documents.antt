-- ===== src/Catalog/Documents.antt =====
-- catalog/models.py: the validated documents of an onboarding, and catalog/errors.py. A duration is
-- a whole number of seconds or the text of a fraction, as the payload had it.
use ugsync.Prelude.{ℕ, Bool, Option, List, String}
use ugsync.Prelude.Int.{ℤ}
use ugsync.Dict.{Dict}

pub record OrganizationDocument : Type 0 where
  pub local_id : String
  pub legal_name : String
  pub organization_type : String
  pub trading_name : Option String
  pub registration_number : Option String
  pub country_code : String
  pub contact_email : Option String

pub record PartyDocument : Type 0 where
  pub local_id : String
  pub party_kind : String
  pub legal_name : String
  pub organization_local_id : Option String
  pub stage_or_trading_name : Option String

pub record ArtistCredit : Type 0 where
  pub party_local_id : String
  pub artist_role : String
  pub stage_name : String
  pub display_order : ℕ
  pub country_code : String

pub record WorkContributor : Type 0 where
  pub party_local_id : String
  pub contributor_role : String
  pub display_order : ℕ

pub record WorkDocument : Type 0 where
  pub local_id : String
  pub title : String
  pub language_code : String
  pub iswc : Option String
  pub alternate_titles : List String
  pub contributors : List WorkContributor

pub record ReleaseDocument : Type 0 where
  pub local_id : String
  pub title : String
  pub release_type : String
  pub upc_ean : Option String

pub data Duration : Type 0 where
  whole : ℕ → Duration
  decimals : String → Duration

pub record RecordingDocument : Type 0 where
  pub local_id : String
  pub title : String
  pub duration_seconds : Duration
  pub isrc : Option String
  pub explicit : Bool
  pub audio_sha256 : Option String
  pub fingerprint_schema_id : Option String
  pub artist_credits : List ArtistCredit
  pub work_local_ids : List String
  pub release_local_ids : List String
  pub release_track_numbers : Dict ℤ

pub record SplitLineDocument : Type 0 where
  pub party_local_id : String
  pub role : String
  pub share_basis_points : ℕ

pub record SplitSheetDocument : Type 0 where
  pub right_type : String
  pub asset_local_id : String
  pub lines : List SplitLineDocument
  pub source_document_key : Option String

pub record OnboardingDocument : Type 0 where
  pub catalog_name : String
  pub owner_local_id : String
  pub organizations : List OrganizationDocument
  pub parties : List PartyDocument
  pub artists : List ArtistCredit
  pub works : List WorkDocument
  pub releases : List ReleaseDocument
  pub recordings : List RecordingDocument
  pub split_sheets : List SplitSheetDocument

-- `key_error` is the `KeyError` of a dictionary that has no such key.
pub data CatalogError : Type 0 where
  validation conflict not_found state_error key_error overflow_error : CatalogError
