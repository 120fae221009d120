-- ===== src/Catalog/Persist.antt =====
-- catalog/service.py, `CatalogService._persist`: its six steps, each loop by recursion over the
-- documents with the dictionary that it fills. `lower` is `str.lower`, of the host.
use ugsync.Prelude.{
  ℕ, suc, Bool, ◌&&◌, Option, none, some, List, [], ◌∷◌, String, str_eq, is_blank, ◌==◌,
  if◌then◌else◌,
}
use ugsync.Prelude.Int.{ℤ, pos}
use ugsync.Dict.{Dict, get, put}
use ugsync.Exec.{pure, or_raise, ◌>>=◌, ◌>>◌}
use ugsync.Catalog.Documents.{
  OrganizationDocument, PartyDocument, ArtistCredit, WorkContributor, WorkDocument, ReleaseDocument,
  RecordingDocument, SplitLineDocument, SplitSheetDocument, OnboardingDocument, validation,
  key_error,
}
use ugsync.Catalog.Store.{Action, draft}
use ugsync.Catalog.Writes.{
  create_organization, create_party, create_artist, create_catalog, create_work, create_release,
  create_recording, link_recording_artist, link_recording_work, link_release_recording,
  link_work_contributor,
}
use ugsync.Catalog.Sheets.{create_split_sheet, add_split_line}

-- `ids[key]`
abbrev pub at_key : Dict String → String → Action String
at_key ids key = or_raise (get ids key) key_error

-- The first loop: all organizations, with the owner's identifier.
unfoldable pub persist_organizations :
    (owner_local_id : String)
    → List OrganizationDocument
    → Dict String
    → Option String
    → Action (Dict String × Option String)
persist_organizations owner_local_id [] ids owner = pure (ids, owner)
persist_organizations owner_local_id (d ∷ ds) ids owner = do
  org_id ← create_organization d
  persist_organizations owner_local_id ds (put ids d.local_id org_id)
      (if str_eq d.local_id owner_local_id then some org_id else owner)

-- `organization_ids[local_id] if local_id else None`
abbrev pub organization_of : Dict String → Option String → Action (Option String)
organization_of organization_ids none = pure none
organization_of organization_ids (some local_id) =
    if is_blank local_id
    then pure none
    else (do id ← at_key organization_ids local_id; pure (some id))

unfoldable pub persist_parties :
    (organization_ids : Dict String) → List PartyDocument → Dict String → Action (Dict String)
persist_parties organization_ids [] ids = pure ids
persist_parties organization_ids (d ∷ ds) ids = do
  organization_id ← organization_of organization_ids d.organization_local_id
  party_id ← create_party d.party_kind d.legal_name organization_id d.stage_or_trading_name
  persist_parties organization_ids ds (put ids d.local_id party_id)

unfoldable pub persist_works :
    (catalog_id : String) → List WorkDocument → Dict String → Action (Dict String)
persist_works catalog_id [] ids = pure ids
persist_works catalog_id (d ∷ ds) ids = do
  work_id ← create_work catalog_id d
  persist_works catalog_id ds (put ids d.local_id work_id)

unfoldable pub persist_releases :
    (catalog_id : String) → List ReleaseDocument → Dict String → Action (Dict String)
persist_releases catalog_id [] ids = pure ids
persist_releases catalog_id (d ∷ ds) ids = do
  release_id ← create_release catalog_id d
  persist_releases catalog_id ds (put ids d.local_id release_id)

-- `if party_pk not in artist_pk_to_id: ...`
abbrev pub or_enroll : Option String → Action String → Action String
or_enroll none m = m
or_enroll (some artist_id) m = pure artist_id

unfoldable pub persist_credits :
    (lower : String → String)
    → (party_ids : Dict String) → (recording_id : String) → List ArtistCredit
    → Dict String
    → Action (Dict String)
persist_credits lower party_ids recording_id [] artists = pure artists
persist_credits lower party_ids recording_id (c ∷ cs) artists = do
  party_pk ← at_key party_ids c.party_local_id
  artist_id ←
      or_enroll (get artists party_pk) (create_artist lower party_pk c.stage_name c.country_code)
  link_recording_artist recording_id artist_id c.artist_role c.display_order
  persist_credits lower party_ids recording_id cs (put artists party_pk artist_id)

unfoldable pub persist_work_links :
    (work_ids : Dict String)
    → (recording_id : String) → (index : ℕ) → List String
    → Action (Unit {0})
persist_work_links work_ids recording_id index [] = pure tt
persist_work_links work_ids recording_id index (work_ref ∷ rest) = do
  work_id ← at_key work_ids work_ref
  link_recording_work recording_id work_id (index == 0)
  persist_work_links work_ids recording_id (suc index) rest

-- `release_track_numbers.get(release_ref, 1)`
abbrev pub or_first : Option ℤ → ℤ
or_first none = pos 1
or_first (some n) = n

unfoldable pub persist_release_links :
    (release_ids : Dict String)
    → (recording_id : String) → (track_numbers : Dict ℤ) → List String
    → Action (Unit {0})
persist_release_links release_ids recording_id track_numbers [] = pure tt
persist_release_links release_ids recording_id track_numbers (release_ref ∷ rest) = do
  release_id ← at_key release_ids release_ref
  link_release_recording release_id recording_id (or_first (get track_numbers release_ref))
  persist_release_links release_ids recording_id track_numbers rest

-- Recordings with their credits and links; the artists that a credit has enrolled are passed on.
unfoldable pub persist_recordings :
    (lower : String → String)
    → (catalog_id : String) → (party_ids work_ids release_ids : Dict String)
    → List RecordingDocument
    → (artists ids : Dict String) → Action (Dict String)
persist_recordings lower catalog_id party_ids work_ids release_ids [] artists ids = pure ids
persist_recordings lower catalog_id party_ids work_ids release_ids (d ∷ ds) artists ids = do
  recording_id ← create_recording catalog_id d
  known ← persist_credits lower party_ids recording_id d.artist_credits artists
  persist_work_links work_ids recording_id 0 d.work_local_ids
  persist_release_links release_ids recording_id d.release_track_numbers d.release_local_ids
  persist_recordings lower catalog_id party_ids work_ids release_ids ds known
      (put ids d.local_id recording_id)

unfoldable pub persist_contributors :
    (party_ids work_ids : Dict String)
    → (work_local_id : String) → List WorkContributor
    → Action (Unit {0})
persist_contributors party_ids work_ids work_local_id [] = pure tt
persist_contributors party_ids work_ids work_local_id (c ∷ cs) = do
  work_id ← at_key work_ids work_local_id
  party_id ← at_key party_ids c.party_local_id
  link_work_contributor work_id party_id c.contributor_role c.display_order
  persist_contributors party_ids work_ids work_local_id cs

unfoldable pub persist_all_contributors :
    (party_ids work_ids : Dict String) → List WorkDocument → Action (Unit {0})
persist_all_contributors party_ids work_ids [] = pure tt
persist_all_contributors party_ids work_ids (d ∷ ds) = do
  persist_contributors party_ids work_ids d.local_id d.contributors
  persist_all_contributors party_ids work_ids ds

unfoldable pub persist_lines :
    (party_ids : Dict String) → (sheet_id : String) → List SplitLineDocument → Action (Unit {0})
persist_lines party_ids sheet_id [] = pure tt
persist_lines party_ids sheet_id (l ∷ ls) = do
  party_id ← at_key party_ids l.party_local_id
  add_split_line sheet_id party_id l.role l.share_basis_points
  persist_lines party_ids sheet_id ls

abbrev pub is_master : SplitSheetDocument → Bool
is_master d = str_eq d.right_type "master"

-- Identifiers by right type and asset.
abbrev pub SheetIds : Type 0
SheetIds = List ((String × String) × String)

-- A write of a key that is a pair.
unfoldable pub put_sheet : SheetIds → (right_type asset_local_id sheet_id : String) → SheetIds
put_sheet [] right_type asset_local_id sheet_id = ((right_type, asset_local_id), sheet_id) ∷ []
put_sheet (((r, a), id) ∷ rest) right_type asset_local_id sheet_id =
    if str_eq r right_type && str_eq a asset_local_id
    then ((r, a), sheet_id) ∷ rest
    else ((r, a), id) ∷ put_sheet rest right_type asset_local_id sheet_id

unfoldable pub persist_sheets :
    (catalog_id : String)
    → (party_ids work_ids recording_ids : Dict String) → List SplitSheetDocument
    → SheetIds
    → Action SheetIds
persist_sheets catalog_id party_ids work_ids recording_ids [] ids = pure ids
persist_sheets catalog_id party_ids work_ids recording_ids (d ∷ ds) ids = do
  sheet_id ←
      create_split_sheet catalog_id
        (if is_master d then get recording_ids d.asset_local_id else none)
        (if is_master d then none else get work_ids d.asset_local_id) d.right_type 1 draft
        d.source_document_key
  persist_lines party_ids sheet_id d.lines
  persist_sheets catalog_id party_ids work_ids recording_ids ds
      (put_sheet ids d.right_type d.asset_local_id sheet_id)

pub record CatalogContext : Type 0 where
  pub catalog_id : String
  pub organization_ids : Dict String
  pub party_ids : Dict String
  pub work_ids : Dict String
  pub release_ids : Dict String
  pub recording_ids : Dict String
  pub split_sheet_ids : SheetIds

unfoldable pub persist : (lower : String → String) → OnboardingDocument → Action CatalogContext
persist lower d = do
  (organization_ids, owner) ← persist_organizations d.owner_local_id d.organizations [] none
  owner_pk ← or_raise owner validation
  catalog_id ← create_catalog owner_pk d.catalog_name
  party_ids ← persist_parties organization_ids d.parties []
  work_ids ← persist_works catalog_id d.works []
  release_ids ← persist_releases catalog_id d.releases []
  recording_ids ←
      persist_recordings lower catalog_id party_ids work_ids release_ids d.recordings [] []
  persist_all_contributors party_ids work_ids d.works
  split_sheet_ids ← persist_sheets catalog_id party_ids work_ids recording_ids d.split_sheets []
  pure (record {
    catalog_id = catalog_id;
    organization_ids = organization_ids;
    party_ids = party_ids;
    work_ids = work_ids;
    release_ids = release_ids;
    recording_ids = recording_ids;
    split_sheet_ids = split_sheet_ids;
  })
