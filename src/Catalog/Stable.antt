-- ===== src/Catalog/Stable.antt =====
-- What each method of the store that an onboarding calls has to keep, for a whole onboarding to
-- keep it.
use ugsync.Prelude.{ℕ, Bool, Option, String}
use ugsync.Prelude.Int.{ℤ}
use ugsync.Exec.{Result, commit}
use ugsync.Exec.Triples.{Holds, holds, fails, Triple}
use ugsync.Catalog.Documents.{
  OrganizationDocument, WorkDocument, ReleaseDocument, RecordingDocument, CatalogError,
}
use ugsync.Catalog.Store.{CatalogStore, Session, Action, draft}
use ugsync.Catalog.Writes.{
  create_organization, create_party, create_artist, create_catalog, create_work, create_release,
  create_recording, link_recording_artist, link_recording_work, link_release_recording,
  link_work_contributor,
}
use ugsync.Catalog.Sheets.{create_split_sheet, add_split_line}

abbrev pub KeepsOf : (P : CatalogStore → Type 0) → {A : Type 0} → Action A → Type 0
KeepsOf P m = Triple (λ s. P s.store) m (λ a s. P s.store)

-- `Own id` is what a sheet that the onboarding has just made has beside `P`.
pub record Stable (P : CatalogStore → Type 0) (Own : String → CatalogStore → Type 0) : Type 0 where
  pub organizations : (d : OrganizationDocument) → KeepsOf P (create_organization d)
  pub parties :
      (kind legal_name : String) (organization_id stage_name : Option String)
      → KeepsOf P (create_party kind legal_name organization_id stage_name)
  pub artists :
      (lower : String → String) (party_id stage_name country : String)
      → KeepsOf P (create_artist lower party_id stage_name country)
  pub catalogs : (owner name : String) → KeepsOf P (create_catalog owner name)
  pub works : (catalog_id : String) (d : WorkDocument) → KeepsOf P (create_work catalog_id d)
  pub releases :
      (catalog_id : String) (d : ReleaseDocument) → KeepsOf P (create_release catalog_id d)
  pub recordings :
      (catalog_id : String) (d : RecordingDocument) → KeepsOf P (create_recording catalog_id d)
  pub artist_links :
      (recording_id artist_id role : String) (order : ℕ)
      → KeepsOf P (link_recording_artist recording_id artist_id role order)
  pub work_links :
      (recording_id work_id : String) (primary : Bool)
      → KeepsOf P (link_recording_work recording_id work_id primary)
  pub release_links :
      (release_id recording_id : String) (track : ℤ)
      → KeepsOf P (link_release_recording release_id recording_id track)
  pub contributors :
      (work_id party_id role : String) (order : ℕ)
      → KeepsOf P (link_work_contributor work_id party_id role order)
  pub sheets :
      (catalog_id : String) (recording_id work_id : Option String) (right_type : String)
      (version : ℕ) (key : Option String)
      → Triple
          (λ s. P s.store)
          (create_split_sheet catalog_id recording_id work_id right_type version draft key)
          (λ id s. P s.store × Own id s.store)
  pub lines :
      (id party_id role : String) (share : ℕ)
      → Triple
          (λ s. P s.store × Own id s.store)
          (add_split_line id party_id role share)
          (λ line_id s. P s.store × Own id s.store)

module _ {A : Type 0} (Q : A → CatalogStore → Type 0) where
  -- What a body has done in a session, it has done to the store of the transaction.
  pub session-Holds :
      (s : CatalogStore) (p : Result CatalogError A × Session)
      → Holds (λ a t. Q a t.store) p
      → Holds Q (commit s (p.0, p.1.store))
  session-Holds s (_, _) (holds h) = holds h
  session-Holds s (_, _) fails = fails
