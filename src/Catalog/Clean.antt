-- ===== src/Catalog/Clean.antt =====
-- Methods of the catalog store that raise nothing but a conflict.
use ugsync.Prelude.{
  ℕ, ◌≡◌, Bool, true, false, ◌&&◌, Option, none, some, String, is_some, arith, Option-cases, inl,
  inr, if◌then◌else◌,
}
use ugsync.Dict.{get, find_value, is_some-put}
use ugsync.Exec.{Result, ok, err, continue, or_raise}
use ugsync.Catalog.Documents.{
  CatalogError, conflict, OrganizationDocument, WorkDocument, ReleaseDocument, RecordingDocument,
}
use ugsync.Catalog.Store.{Session, Action, SheetStatus, new_id, today}
use ugsync.Catalog.Writes.{
  create_organization, create_party, create_artist, create_catalog, create_work, create_release,
  create_recording, organization_clash, known_as, catalog_clash, is_given, has_iswc, has_upc,
  has_isrc, has_audio,
}
use ugsync.Catalog.Sheets.{create_split_sheet, add_split_line}

pub data Clean {A : Type 0} (Q : A → Session → Type 0)
    : Result CatalogError A × Session → Type 0 where
  clean : {a : A} {s : Session} → Q a s → Clean Q (ok a, s)
  conflicted : {s : Session} → Clean Q (err conflict, s)

module _ {A B : Type 0} {Q : B → Session → Type 0} where
  pub continue-Clean :
      (P : A → Session → Type 0) (p : Result CatalogError A × Session) (f : A → Action B)
      → Clean P p
      → ((a : A) (s : Session) → P a s → Clean Q (f a s))
      → Clean Q (continue f p)
  continue-Clean P (_, _) f (clean h) next = next _ _ h
  continue-Clean P (_, _) f conflicted next = conflicted

  -- A lookup that finds something.
  pub found-Clean :
      (o : Option A) (e : CatalogError) (f : A → Action B) (s : Session)
      → is_some o ≡ true
      → ((a : A) → Clean Q (f a s))
      → Clean Q (continue f (or_raise o e s))
  found-Clean none e f s found next = absurd (ground arith)
  found-Clean (some a) e f s found next = next a

module _ {A : Type 0} {Q : A → Session → Type 0} where
  pub unless-Clean :
      (b : Bool) (f : Unit {0} → Action A) (s : Session)
      → Clean Q (f tt s)
      → Clean Q (continue f (if b then err conflict else ok tt, s))
  unless-Clean true f s next = conflicted
  unless-Clean false f s next = next

module _ {A : Type 0} {P Q : A → Session → Type 0} where
  pub Clean-post :
      {p : Result CatalogError A × Session}
      → Clean P p
      → ((a : A) (s : Session) → P a s → Q a s)
      → Clean Q p
  Clean-post (clean h) f = clean (f _ _ h)
  Clean-post conflicted f = conflicted

-- Of a method that is called for its effect only.
abbrev pub Anyhow : {A : Type 0} → A → Session → Type 0
Anyhow a s = Unit

pub create_organization-Clean :
    (d : OrganizationDocument) (s : Session) → Clean Anyhow (create_organization d s)
unfolding create_organization new_id
create_organization-Clean d s =
    unless-Clean (is_some (find_value (organization_clash d) s.store.organizations)) _ s (clean tt)

pub create_party-Clean :
    (kind legal_name : String) (organization_id stage_name : Option String) (s : Session)
    → Clean Anyhow (create_party kind legal_name organization_id stage_name s)
unfolding create_party new_id
create_party-Clean kind legal_name organization_id stage_name s = clean tt

pub create_artist-Clean :
    (lower : String → String) (party_id stage_name country : String) (s : Session)
    → Clean Anyhow (create_artist lower party_id stage_name country s)
unfolding create_artist new_id
create_artist-Clean lower party_id stage_name country s =
    elim (Option-cases (find_value (known_as lower party_id stage_name) s.store.artists)) [
      | inl new ↦ rw new (clean tt)
      | inr (row, known) ↦ rw known (clean tt)
    ]

pub create_catalog-Clean :
    (owner name : String) (s : Session) → Clean Anyhow (create_catalog owner name s)
unfolding create_catalog new_id
create_catalog-Clean owner name s =
    unless-Clean (is_some (find_value (catalog_clash owner name) s.store.catalogs)) _ s (clean tt)

pub create_work-Clean :
    (catalog_id : String) (d : WorkDocument) (s : Session)
    → Clean Anyhow (create_work catalog_id d s)
unfolding create_work new_id
create_work-Clean catalog_id d s =
    unless-Clean (is_given d.iswc && is_some (find_value (has_iswc d.iswc) s.store.works)) _ s
      (clean tt)

pub create_release-Clean :
    (catalog_id : String) (d : ReleaseDocument) (s : Session)
    → Clean Anyhow (create_release catalog_id d s)
unfolding create_release new_id
create_release-Clean catalog_id d s =
    unless-Clean (is_given d.upc_ean && is_some (find_value (has_upc d.upc_ean) s.store.releases)) _
      s (clean tt)

pub create_recording-Clean :
    (catalog_id : String) (d : RecordingDocument) (s : Session)
    → Clean Anyhow (create_recording catalog_id d s)
unfolding create_recording new_id
create_recording-Clean catalog_id d s =
    unless-Clean (is_given d.isrc && is_some (find_value (has_isrc d.isrc) s.store.recordings)) _ s
      (unless-Clean
        (is_given d.audio_sha256
          && is_some (find_value (has_audio d.audio_sha256) s.store.recordings))
        _ s (clean tt))

-- The sheet has its list of lines.
abbrev pub HasLines : String → Session → Type 0
HasLines id s = is_some (get s.store.split_lines id) ≡ true

pub create_split_sheet-Clean :
    (catalog_id : String) (recording_id work_id : Option String) (right_type : String) (version : ℕ)
    (status : SheetStatus) (key : Option String) (s : Session)
    → Clean HasLines
        (create_split_sheet catalog_id recording_id work_id right_type version status key s)
unfolding create_split_sheet new_id today
create_split_sheet-Clean catalog_id recording_id work_id right_type version status key s =
    clean (is_some-put s.store.split_lines (s.uuids 0) _)

pub add_split_line-Clean :
    (id party_id role : String) (share : ℕ) (s : Session)
    → HasLines id s
    → Clean (λ line_id. HasLines id) (add_split_line id party_id role share s)
unfolding add_split_line new_id
add_split_line-Clean id party_id role share s there =
    found-Clean (get s.store.split_lines id) _ _ _ there
      λ lines. clean (is_some-put s.store.split_lines id _)
