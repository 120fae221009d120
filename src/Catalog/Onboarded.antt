-- ===== src/Catalog/Onboarded.antt =====
-- An onboarding keeps what each method of the store keeps, step by step.
use ugsync.Prelude.{
  ℕ, suc, Option, none, some, List, [], ◌∷◌, String, is_blank, Bool-cases, inl, inr, ◌==◌,
  if◌then◌else◌,
}
use ugsync.Prelude.Int.{ℤ}
use ugsync.Dict.{Dict, get}
use ugsync.Exec.Triples.{Triple, or_raise-Holds, continue-Holds, holds}
use ugsync.Catalog.Documents.{
  OrganizationDocument, PartyDocument, ArtistCredit, WorkContributor, WorkDocument, ReleaseDocument,
  RecordingDocument, SplitLineDocument, SplitSheetDocument, OnboardingDocument,
}
use ugsync.Catalog.Store.{CatalogStore, Session, Action, draft}
use ugsync.Catalog.Writes.{
  create_organization, create_party, create_artist, create_catalog, create_work, create_release,
  create_recording, link_recording_artist, link_recording_work, link_release_recording,
  link_work_contributor,
}
use ugsync.Catalog.Sheets.{create_split_sheet, add_split_line}
use ugsync.Catalog.Persist.{
  persist_organizations, organization_of, persist_parties, persist_works, persist_releases,
  or_enroll, or_first, persist_credits, persist_work_links, persist_release_links,
  persist_recordings, persist_contributors, persist_all_contributors, persist_lines, is_master,
  SheetIds, persist_sheets, persist,
}
use ugsync.Catalog.Stable.{KeepsOf, Stable}

module _ (P : CatalogStore → Type 0) (Own : String → CatalogStore → Type 0)
    (stable : Stable P Own) where
  abbrev Kept : {A : Type 0} → A → Session → Type 0
  Kept a s = P s.store

  abbrev Keeps : {A : Type 0} → Action A → Type 0
  Keeps m = KeepsOf P m

  abbrev Owned : String → Session → Type 0
  Owned id s = P s.store × Own id s.store

  persist_organizations-Keeps :
      (owner_id : String) (ds : List OrganizationDocument) (ids : Dict String)
      (owner : Option String)
      → Keeps (persist_organizations owner_id ds ids owner)
  unfolding persist_organizations
  persist_organizations-Keeps owner_id [] ids owner s inv = holds inv
  persist_organizations-Keeps owner_id (d ∷ ds) ids owner s inv =
      continue-Holds Kept (create_organization d s) _ (stable.organizations d s inv)
        λ id. persist_organizations-Keeps owner_id ds _ _

  organization_of-Keeps : (ids : Dict String) (o : Option String) → Keeps (organization_of ids o)
  organization_of-Keeps ids none s inv = holds inv
  organization_of-Keeps ids (some local_id) s inv = elim (Bool-cases (is_blank local_id)) [
    | inl blank ↦ rw blank (holds inv)
    | inr given ↦ rw given (or_raise-Holds (get ids local_id) _ _ _ λ id there. holds inv)
  ]

  persist_parties-Keeps :
      (organizations : Dict String) (ds : List PartyDocument) (ids : Dict String)
      → Keeps (persist_parties organizations ds ids)
  unfolding persist_parties
  persist_parties-Keeps organizations [] ids s inv = holds inv
  persist_parties-Keeps organizations (d ∷ ds) ids s inv =
      continue-Holds Kept (organization_of organizations d.organization_local_id s) _
        (organization_of-Keeps organizations d.organization_local_id s inv)
        λ org t kept.
          continue-Holds Kept (create_party d.party_kind d.legal_name org d.stage_or_trading_name t)
            _ (stable.parties d.party_kind d.legal_name org d.stage_or_trading_name t kept)
            λ id. persist_parties-Keeps organizations ds _

  persist_works-Keeps :
      (catalog_id : String) (ds : List WorkDocument) (ids : Dict String)
      → Keeps (persist_works catalog_id ds ids)
  unfolding persist_works
  persist_works-Keeps catalog_id [] ids s inv = holds inv
  persist_works-Keeps catalog_id (d ∷ ds) ids s inv =
      continue-Holds Kept (create_work catalog_id d s) _ (stable.works catalog_id d s inv)
        λ id. persist_works-Keeps catalog_id ds _

  persist_releases-Keeps :
      (catalog_id : String) (ds : List ReleaseDocument) (ids : Dict String)
      → Keeps (persist_releases catalog_id ds ids)
  unfolding persist_releases
  persist_releases-Keeps catalog_id [] ids s inv = holds inv
  persist_releases-Keeps catalog_id (d ∷ ds) ids s inv =
      continue-Holds Kept (create_release catalog_id d s) _ (stable.releases catalog_id d s inv)
        λ id. persist_releases-Keeps catalog_id ds _

  module _ (lower : String → String) (parties : Dict String) where
    enroll-Keeps :
        (o : Option String) (party_id stage_name country : String)
        → Keeps (or_enroll o (create_artist lower party_id stage_name country))
    enroll-Keeps none party_id stage_name country s inv =
        stable.artists lower party_id stage_name country s inv
    enroll-Keeps (some id) party_id stage_name country s inv = holds inv

    persist_credits-Keeps :
        (recording_id : String) (cs : List ArtistCredit) (artists : Dict String)
        → Keeps (persist_credits lower parties recording_id cs artists)
    unfolding persist_credits
    persist_credits-Keeps recording_id [] artists s inv = holds inv
    persist_credits-Keeps recording_id (c ∷ cs) artists s inv =
        or_raise-Holds (get parties c.party_local_id) _ _ _ λ party there.
          continue-Holds Kept
            (or_enroll (get artists party) (create_artist lower party c.stage_name c.country_code)
              s)
            _ (enroll-Keeps (get artists party) party c.stage_name c.country_code s inv)
            λ artist t kept.
              continue-Holds Kept
                (link_recording_artist recording_id artist c.artist_role c.display_order t) _
                (stable.artist_links recording_id artist c.artist_role c.display_order t kept)
                λ u. persist_credits-Keeps recording_id cs _

  persist_work_links-Keeps :
      (works : Dict String) (recording_id : String) (i : ℕ) (refs : List String)
      → Keeps (persist_work_links works recording_id i refs)
  unfolding persist_work_links
  persist_work_links-Keeps works recording_id i [] s inv = holds inv
  persist_work_links-Keeps works recording_id i (r ∷ refs) s inv =
      or_raise-Holds (get works r) _ _ _ λ work there.
        continue-Holds Kept (link_recording_work recording_id work (i == 0) s) _
          (stable.work_links recording_id work (i == 0) s inv)
          λ u. persist_work_links-Keeps works recording_id (suc i) refs

  persist_release_links-Keeps :
      (releases : Dict String) (recording_id : String) (numbers : Dict ℤ) (refs : List String)
      → Keeps (persist_release_links releases recording_id numbers refs)
  unfolding persist_release_links
  persist_release_links-Keeps releases recording_id numbers [] s inv = holds inv
  persist_release_links-Keeps releases recording_id numbers (r ∷ refs) s inv =
      or_raise-Holds (get releases r) _ _ _ λ release there.
        continue-Holds Kept
          (link_release_recording release recording_id (or_first (get numbers r)) s) _
          (stable.release_links release recording_id (or_first (get numbers r)) s inv)
          λ u. persist_release_links-Keeps releases recording_id numbers refs

  module _ (lower : String → String) (catalog_id : String)
      (parties works releases : Dict String) where
    persist_recordings-Keeps :
        (ds : List RecordingDocument) (artists ids : Dict String)
        → Keeps (persist_recordings lower catalog_id parties works releases ds artists ids)
    unfolding persist_recordings
    persist_recordings-Keeps [] artists ids s inv = holds inv
    persist_recordings-Keeps (d ∷ ds) artists ids s inv =
        continue-Holds Kept (create_recording catalog_id d s) _
          (stable.recordings catalog_id d s inv)
          λ id t kept.
            continue-Holds Kept (persist_credits lower parties id d.artist_credits artists t) _
              (persist_credits-Keeps lower parties id d.artist_credits artists t kept)
              λ known t kept.
                continue-Holds Kept (persist_work_links works id 0 d.work_local_ids t) _
                  (persist_work_links-Keeps works id 0 d.work_local_ids t kept)
                  λ u t kept.
                    continue-Holds Kept
                      (persist_release_links releases id d.release_track_numbers d.release_local_ids
                        t)
                      _
                      (persist_release_links-Keeps releases id d.release_track_numbers
                        d.release_local_ids t kept)
                      λ u. persist_recordings-Keeps ds _ _

  module _ (parties works : Dict String) where
    persist_contributors-Keeps :
        (work_id : String) (cs : List WorkContributor)
        → Keeps (persist_contributors parties works work_id cs)
    unfolding persist_contributors
    persist_contributors-Keeps work_id [] s inv = holds inv
    persist_contributors-Keeps work_id (c ∷ cs) s inv =
        or_raise-Holds (get works work_id) _ _ _ λ work there.
          or_raise-Holds (get parties c.party_local_id) _ _ _ λ party found.
            continue-Holds Kept
              (link_work_contributor work party c.contributor_role c.display_order s) _
              (stable.contributors work party c.contributor_role c.display_order s inv)
              λ u. persist_contributors-Keeps work_id cs

    persist_all_contributors-Keeps :
        (ds : List WorkDocument) → Keeps (persist_all_contributors parties works ds)
    unfolding persist_all_contributors
    persist_all_contributors-Keeps [] s inv = holds inv
    persist_all_contributors-Keeps (d ∷ ds) s inv =
        continue-Holds Kept (persist_contributors parties works d.local_id d.contributors s) _
          (persist_contributors-Keeps d.local_id d.contributors s inv)
          λ u. persist_all_contributors-Keeps ds

  persist_lines-Keeps :
      (parties : Dict String) (sheet_id : String) (ls : List SplitLineDocument)
      → Triple (Owned sheet_id) (persist_lines parties sheet_id ls) Kept
  unfolding persist_lines
  persist_lines-Keeps parties sheet_id [] s (inv, drafted) = holds inv
  persist_lines-Keeps parties sheet_id (l ∷ ls) s inv =
      or_raise-Holds (get parties l.party_local_id) _ _ _ λ party there.
        continue-Holds (λ line_id. Owned sheet_id)
          (add_split_line sheet_id party l.role l.share_basis_points s) _
          (stable.lines sheet_id party l.role l.share_basis_points s inv)
          λ line_id. persist_lines-Keeps parties sheet_id ls

  module _ (catalog_id : String) (parties works recordings : Dict String) where
    persist_sheets-Keeps :
        (ds : List SplitSheetDocument) (ids : SheetIds)
        → Keeps (persist_sheets catalog_id parties works recordings ds ids)
    unfolding persist_sheets
    persist_sheets-Keeps [] ids s inv = holds inv
    persist_sheets-Keeps (d ∷ ds) ids s inv =
        let recording = if is_master d then get recordings d.asset_local_id else none in
        let work = if is_master d then none else get works d.asset_local_id in
        continue-Holds Owned
          (create_split_sheet catalog_id recording work d.right_type 1 draft d.source_document_key
            s)
          _ (stable.sheets catalog_id recording work d.right_type 1 d.source_document_key s inv)
          λ id t drafted.
            continue-Holds Kept (persist_lines parties id d.lines t) _
              (persist_lines-Keeps parties id d.lines t drafted) λ u. persist_sheets-Keeps ds _

  pub persist-Keeps : (lower : String → String) (d : OnboardingDocument) → Keeps (persist lower d)
  unfolding persist
  persist-Keeps lower d s inv =
      continue-Holds Kept (persist_organizations d.owner_local_id d.organizations [] none s) _
        (persist_organizations-Keeps d.owner_local_id d.organizations [] none s inv)
        λ (organizations, owner) t kept. or_raise-Holds owner _ _ _ λ owner_pk there.
          continue-Holds Kept (create_catalog owner_pk d.catalog_name t) _
            (stable.catalogs owner_pk d.catalog_name t kept)
            λ catalog_id t kept.
              continue-Holds Kept (persist_parties organizations d.parties [] t) _
                (persist_parties-Keeps organizations d.parties [] t kept)
                λ parties t kept.
                  continue-Holds Kept (persist_works catalog_id d.works [] t) _
                    (persist_works-Keeps catalog_id d.works [] t kept)
                    λ works t kept.
                      continue-Holds Kept (persist_releases catalog_id d.releases [] t) _
                        (persist_releases-Keeps catalog_id d.releases [] t kept)
                        λ releases t kept.
                          continue-Holds Kept
                            (persist_recordings lower catalog_id parties works releases d.recordings
                              [] [] t)
                            _
                            (persist_recordings-Keeps lower catalog_id parties works releases
                              d.recordings [] [] t kept)
                            λ recordings t kept.
                              continue-Holds Kept (persist_all_contributors parties works d.works t)
                                _ (persist_all_contributors-Keeps parties works d.works t kept)
                                λ u t kept.
                                  continue-Holds Kept
                                    (persist_sheets catalog_id parties works recordings
                                      d.split_sheets [] t)
                                    _
                                    (persist_sheets-Keeps catalog_id parties works recordings
                                      d.split_sheets [] t kept)
                                    λ sheets t kept. holds kept
