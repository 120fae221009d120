-- ===== src/Catalog/Framed.antt =====
-- What an onboarding leaves alone: the answers to other onboardings, the audit, and the sheets that
-- are not its own drafts.
use ugsync.Prelude.{
  ℕ, ◌≡◌, ◌⊎◌, refl, Bool, true, ◌&&◌, Option, some, String, str_eq, is_some, arith, Option-cases,
  Bool-cases, inl, inr,
}
use ugsync.Prelude.Int.{ℤ}
use ugsync.Dict.{Dict, get, put, find_value, get-put}
use ugsync.Exec.Triples.{Triple, raise_if-Holds, or_raise-Holds, holds}
use ugsync.Catalog.Documents.{
  OrganizationDocument, WorkDocument, ReleaseDocument, RecordingDocument,
}
use ugsync.Catalog.Store.{CatalogStore, SplitSheetRow, Action, draft, new_id, today}
use ugsync.Catalog.Writes.{
  create_organization, create_party, create_artist, create_catalog, create_work, create_release,
  create_recording, link_recording_artist, link_recording_work, link_release_recording,
  link_work_contributor, organization_clash, known_as, catalog_clash, is_given, has_iswc, has_upc,
  has_isrc, has_audio,
}
use ugsync.Catalog.Sheets.{create_split_sheet, add_split_line, is_draft}
use ugsync.Catalog.Stable.{KeepsOf, Stable}

-- Each sheet of the second dictionary stands in the first, or is a draft.
abbrev pub OldOrDraft : Dict SplitSheetRow → Dict SplitSheetRow → Type 0
OldOrDraft old sheets =
    (id : String) (row : SplitSheetRow)
    → get sheets id ≡ some row
    → (get old id ≡ some row) ⊎ (is_draft row.status ≡ true)

OldOrDraft-put :
    (old sheets : Dict SplitSheetRow) (id : String) (row : SplitSheetRow)
    → is_draft row.status ≡ true
    → OldOrDraft old sheets
    → OldOrDraft old (put sheets id row)
OldOrDraft-put old sheets id row drafted h id' row' there = elim (Bool-cases (str_eq id id')) [
  | inl own ↦ inr (ground (arith, there, get-put sheets id id' row, own, drafted))
  | inr other ↦ h id' row' (ground (arith, there, get-put sheets id id' row, other))
]

abbrev pub Framed : CatalogStore → CatalogStore → Type 0
Framed old s =
    (s.onboardings ≡ old.onboardings)
    × (s.audit_events ≡ old.audit_events)
    × OldOrDraft old.split_sheets s.split_sheets

abbrev pub Anything : String → CatalogStore → Type 0
Anything id s = Unit

module _ (old : CatalogStore) where
  abbrev Keeps : {A : Type 0} → Action A → Type 0
  Keeps m = KeepsOf (Framed old) m

  organizations : (d : OrganizationDocument) → Keeps (create_organization d)
  unfolding create_organization new_id
  organizations d s h =
      raise_if-Holds (is_some (find_value (organization_clash d) s.store.organizations)) _ _ s
        λ free. holds h

  parties :
      (kind legal_name : String) (organization_id stage_name : Option String)
      → Keeps (create_party kind legal_name organization_id stage_name)
  unfolding create_party new_id
  parties kind legal_name organization_id stage_name s h = holds h

  artists :
      (lower : String → String) (party_id stage_name country : String)
      → Keeps (create_artist lower party_id stage_name country)
  unfolding create_artist new_id
  artists lower party_id stage_name country s h =
      elim (Option-cases (find_value (known_as lower party_id stage_name) s.store.artists)) [
        | inl new ↦ rw new (holds h)
        | inr (row, known) ↦ rw known (holds h)
      ]

  catalogs : (owner name : String) → Keeps (create_catalog owner name)
  unfolding create_catalog new_id
  catalogs owner name s h =
      raise_if-Holds (is_some (find_value (catalog_clash owner name) s.store.catalogs)) _ _ s
        λ free. holds h

  works : (catalog_id : String) (d : WorkDocument) → Keeps (create_work catalog_id d)
  unfolding create_work new_id
  works catalog_id d s h =
      raise_if-Holds (is_given d.iswc && is_some (find_value (has_iswc d.iswc) s.store.works)) _ _ s
        λ free. holds h

  releases : (catalog_id : String) (d : ReleaseDocument) → Keeps (create_release catalog_id d)
  unfolding create_release new_id
  releases catalog_id d s h =
      raise_if-Holds
        (is_given d.upc_ean && is_some (find_value (has_upc d.upc_ean) s.store.releases)) _ _ s
        λ free. holds h

  recordings : (catalog_id : String) (d : RecordingDocument) → Keeps (create_recording catalog_id d)
  unfolding create_recording new_id
  recordings catalog_id d s h =
      raise_if-Holds (is_given d.isrc && is_some (find_value (has_isrc d.isrc) s.store.recordings))
        _ _ s
        λ free.
          raise_if-Holds
            (is_given d.audio_sha256
              && is_some (find_value (has_audio d.audio_sha256) s.store.recordings))
            _ _ s λ new. holds h

  artist_links :
      (recording_id artist_id role : String) (order : ℕ)
      → Keeps (link_recording_artist recording_id artist_id role order)
  unfolding link_recording_artist
  artist_links recording_id artist_id role order s h = holds h

  work_links :
      (recording_id work_id : String) (primary : Bool)
      → Keeps (link_recording_work recording_id work_id primary)
  unfolding link_recording_work
  work_links recording_id work_id primary s h = holds h

  release_links :
      (release_id recording_id : String) (track : ℤ)
      → Keeps (link_release_recording release_id recording_id track)
  unfolding link_release_recording
  release_links release_id recording_id track s h = holds h

  contributors :
      (work_id party_id role : String) (order : ℕ)
      → Keeps (link_work_contributor work_id party_id role order)
  unfolding link_work_contributor
  contributors work_id party_id role order s h = holds h

  sheets :
      (catalog_id : String) (recording_id work_id : Option String) (right_type : String)
      (version : ℕ) (key : Option String)
      → Triple
          (λ s. Framed old s.store)
          (create_split_sheet catalog_id recording_id work_id right_type version draft key)
          (λ id s. Framed old s.store × Anything id s.store)
  unfolding create_split_sheet new_id today
  sheets catalog_id recording_id work_id right_type version key s (answers, audit, drafts) =
      holds
        ((answers, audit, OldOrDraft-put old.split_sheets s.store.split_sheets _ _ refl drafts), tt)

  lines :
      (id party_id role : String) (share : ℕ)
      → Triple
          (λ s. Framed old s.store × Anything id s.store)
          (add_split_line id party_id role share)
          (λ line_id s. Framed old s.store × Anything id s.store)
  unfolding add_split_line new_id
  lines id party_id role share s h =
      or_raise-Holds (get s.store.split_lines id) _ _ _ λ ls there. holds h

  pub Framed-Stable : Stable (Framed old) Anything
  Framed-Stable = record {
    organizations = organizations;
    parties = parties;
    artists = artists;
    catalogs = catalogs;
    works = works;
    releases = releases;
    recordings = recordings;
    artist_links = artist_links;
    work_links = work_links;
    release_links = release_links;
    contributors = contributors;
    sheets = sheets;
    lines = lines;
  }
