-- ===== src/Catalog/Linked.antt =====
-- The links of an onboarding raise nothing but a conflict where what they refer to is there.
use ugsync.Prelude.{
  All, ℕ, suc, ◌≡◌, true, Option, none, some, List, [], ◌∷◌, map, String, is_some, contains,
  if◌then◌else◌,
}
use ugsync.Prelude.Int.{ℤ}
use ugsync.Dict.{Dict, get}
use ugsync.Catalog.Documents.{
  ArtistCredit, WorkContributor, WorkDocument, RecordingDocument, SplitLineDocument,
  SplitSheetDocument,
}
use ugsync.Catalog.Store.{Session, draft}
use ugsync.Catalog.Writes.{
  create_artist, create_recording, link_recording_artist, link_recording_work,
  link_release_recording, link_work_contributor,
}
use ugsync.Catalog.Sheets.{create_split_sheet, add_split_line}
use ugsync.Catalog.Persist.{
  or_enroll, persist_credits, persist_work_links, persist_release_links, persist_recordings,
  persist_contributors, persist_all_contributors, persist_lines, is_master, SheetIds,
  persist_sheets,
}
use ugsync.Catalog.Clean.{
  Clean, clean, continue-Clean, found-Clean, Anyhow, HasLines, create_artist-Clean,
  create_recording-Clean, create_split_sheet-Clean, add_split_line-Clean,
}
use ugsync.Catalog.Resolved.{Covers, AreIn, IsResolved}

enroll-Clean :
    (o : Option String) (lower : String → String) (party_id stage_name country : String)
    (s : Session)
    → Clean Anyhow (or_enroll o (create_artist lower party_id stage_name country) s)
enroll-Clean none lower party_id stage_name country s =
    create_artist-Clean lower party_id stage_name country s
enroll-Clean (some id) lower party_id stage_name country s = clean tt

module _ (lower : String → String) (parties : Dict String) (names : List String)
    (covers : Covers names parties) where
  persist_credits-Clean :
      (recording_id : String) (cs : List ArtistCredit) (artists : Dict String) (s : Session)
      → AreIn names (map (λ c. c.party_local_id) cs)
      → Clean Anyhow (persist_credits lower parties recording_id cs artists s)
  unfolding persist_credits link_recording_artist
  persist_credits-Clean recording_id [] artists s known = clean tt
  persist_credits-Clean recording_id (c ∷ cs) artists s (this, rest) =
      found-Clean (get parties c.party_local_id) _ _ _ (covers c.party_local_id this) λ party.
        continue-Clean Anyhow
          (or_enroll (get artists party) (create_artist lower party c.stage_name c.country_code) s)
          _ (enroll-Clean (get artists party) lower party c.stage_name c.country_code s)
          λ artist t u. persist_credits-Clean recording_id cs _ _ rest

  persist_contributors-Clean :
      (works : Dict String) (work_ref : String) (cs : List WorkContributor) (s : Session)
      → is_some (get works work_ref) ≡ true
      → AreIn names (map (λ c. c.party_local_id) cs)
      → Clean Anyhow (persist_contributors parties works work_ref cs s)
  unfolding persist_contributors link_work_contributor
  persist_contributors-Clean works work_ref [] s there known = clean tt
  persist_contributors-Clean works work_ref (c ∷ cs) s there (this, rest) =
      found-Clean (get works work_ref) _ _ _ there λ work.
        found-Clean (get parties c.party_local_id) _ _ _ (covers c.party_local_id this)
          λ party. persist_contributors-Clean works work_ref cs _ there rest

  persist_lines-Clean :
      (sheet_id : String) (ls : List SplitLineDocument) (s : Session)
      → HasLines sheet_id s
      → AreIn names (map (λ l. l.party_local_id) ls)
      → Clean Anyhow (persist_lines parties sheet_id ls s)
  unfolding persist_lines
  persist_lines-Clean sheet_id [] s there known = clean tt
  persist_lines-Clean sheet_id (l ∷ ls) s there (this, rest) =
      found-Clean (get parties l.party_local_id) _ _ _ (covers l.party_local_id this) λ party.
        continue-Clean (λ line_id. HasLines sheet_id)
          (add_split_line sheet_id party l.role l.share_basis_points s) _
          (add_split_line-Clean sheet_id party l.role l.share_basis_points s there)
          λ line_id t there. persist_lines-Clean sheet_id ls t there rest

  pub persist_sheets-Clean :
      (catalog_id : String) (works recordings : Dict String) (ds : List SplitSheetDocument)
      (ids : SheetIds) (s : Session)
      → All (λ (x : SplitSheetDocument). AreIn names (map (λ l. l.party_local_id) x.lines)) ds
      → Clean Anyhow (persist_sheets catalog_id parties works recordings ds ids s)
  unfolding persist_sheets
  persist_sheets-Clean catalog_id works recordings [] ids s known = clean tt
  persist_sheets-Clean catalog_id works recordings (d ∷ ds) ids s (this, rest) =
      let recording = if is_master d then get recordings d.asset_local_id else none in
      let work = if is_master d then none else get works d.asset_local_id in
      continue-Clean HasLines
        (create_split_sheet catalog_id recording work d.right_type 1 draft d.source_document_key s)
        _
        (create_split_sheet-Clean catalog_id recording work d.right_type 1 draft
          d.source_document_key s)
        λ id t there.
          continue-Clean Anyhow (persist_lines parties id d.lines t) _
            (persist_lines-Clean id d.lines t there this)
            λ u t' v. persist_sheets-Clean catalog_id works recordings ds _ t' rest

persist_work_links-Clean :
    (works : Dict String) (names : List String) (recording_id : String) (i : ℕ) (refs : List String)
    (s : Session)
    → Covers names works
    → AreIn names refs
    → Clean Anyhow (persist_work_links works recording_id i refs s)
unfolding persist_work_links link_recording_work
persist_work_links-Clean works names recording_id i [] s covers known = clean tt
persist_work_links-Clean works names recording_id i (r ∷ refs) s covers (this, rest) =
    found-Clean (get works r) _ _ _ (covers r this)
      λ work. persist_work_links-Clean works names recording_id (suc i) refs _ covers rest

persist_release_links-Clean :
    (releases : Dict String) (names : List String) (recording_id : String) (numbers : Dict ℤ)
    (refs : List String) (s : Session)
    → Covers names releases
    → AreIn names refs
    → Clean Anyhow (persist_release_links releases recording_id numbers refs s)
unfolding persist_release_links link_release_recording
persist_release_links-Clean releases names recording_id numbers [] s covers known = clean tt
persist_release_links-Clean releases names recording_id numbers (r ∷ refs) s covers (this, rest) =
    found-Clean (get releases r) _ _ _ (covers r this)
      λ release. persist_release_links-Clean releases names recording_id numbers refs _ covers rest

module _ (lower : String → String) (catalog_id : String) (parties works releases : Dict String)
    (party_names work_names release_names : List String) (has_parties : Covers party_names parties)
    (has_works : Covers work_names works) (has_releases : Covers release_names releases) where
  pub persist_recordings-Clean :
      (ds : List RecordingDocument) (artists ids : Dict String) (s : Session)
      → All (IsResolved party_names work_names release_names) ds
      → Clean Anyhow (persist_recordings lower catalog_id parties works releases ds artists ids s)
  unfolding persist_recordings
  persist_recordings-Clean [] artists ids s known = clean tt
  persist_recordings-Clean (d ∷ ds) artists ids s ((credits, refs, tracks), rest) =
      continue-Clean Anyhow (create_recording catalog_id d s) _
        (create_recording-Clean catalog_id d s)
        λ id t u.
          continue-Clean Anyhow (persist_credits lower parties id d.artist_credits artists t) _
            (persist_credits-Clean lower parties party_names has_parties id d.artist_credits artists
              t credits)
            λ known t u.
              continue-Clean Anyhow (persist_work_links works id 0 d.work_local_ids t) _
                (persist_work_links-Clean works work_names id 0 d.work_local_ids t has_works refs)
                λ v t u.
                  continue-Clean Anyhow
                    (persist_release_links releases id d.release_track_numbers d.release_local_ids
                      t)
                    _
                    (persist_release_links-Clean releases release_names id d.release_track_numbers
                      d.release_local_ids t has_releases tracks)
                    λ v t u. persist_recordings-Clean ds known _ t rest

  pub persist_all_contributors-Clean :
      (ds : List WorkDocument) (s : Session)
      → All
          (λ (w : WorkDocument).
            (contains work_names w.local_id ≡ true)
            × AreIn party_names (map (λ c. c.party_local_id) w.contributors))
          ds
      → Clean Anyhow (persist_all_contributors parties works ds s)
  unfolding persist_all_contributors
  persist_all_contributors-Clean [] s known = clean tt
  persist_all_contributors-Clean (d ∷ ds) s ((named, this), rest) =
      continue-Clean Anyhow (persist_contributors parties works d.local_id d.contributors s) _
        (persist_contributors-Clean lower parties party_names has_parties works d.local_id
          d.contributors s (has_works d.local_id named) this)
        λ u t v. persist_all_contributors-Clean ds t rest
