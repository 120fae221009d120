-- ===== src/Catalog/Invariant.antt =====
-- The catalog's invariant, and what the rows' methods keep of it.
use ugsync.Prelude.{
  ◌≡◌, refl, Bool, true, false, ◌&&◌, Option, none, some, List, String, is_some, eq_iff, arith,
  Option-cases, subst, inl, inr,
}
use ugsync.Dict.{Dict, get, put, find_value, IsKeyed}
use ugsync.Dict.Rewrite.{Unique, Unique-put}
use ugsync.Exec.Triples.{Triple, raise_if-Holds, holds}
use ugsync.Catalog.Documents.{
  OrganizationDocument, WorkDocument, ReleaseDocument, RecordingDocument,
}
use ugsync.Catalog.Store.{CatalogStore, SplitSheetRow, SplitLineRow, Action, new_id}
use ugsync.Catalog.Writes.{
  organization_clash, catalog_clash, known_as, same, is_given, has_iswc, has_upc, has_isrc,
  has_audio, create_organization, create_party, create_artist, create_catalog, create_work,
  create_release, create_recording,
}
use ugsync.Catalog.Sheets.{is_active, splits, or_empty, total_of}

-- No two rows share a text that is given.
abbrev pub AreUnique : {V : Type 0} → (Option String → V → Bool) → Dict V → Type 0
AreUnique has d = (x : Option String) → is_given x ≡ true → Unique (has x) d

abbrev pub is_active_for :
    (recording_id work_id : Option String) → (right_type : String) → SplitSheetRow → Bool
is_active_for recording_id work_id right_type row =
    is_active row.status && splits recording_id work_id right_type row

-- At most one sheet is active for an asset and a right.
abbrev pub OneActive : Dict SplitSheetRow → Type 0
OneActive sheets =
    (recording_id work_id : Option String) (right_type : String)
    → Unique (is_active_for recording_id work_id right_type) sheets

-- An active sheet's lines total exactly 10,000 basis points.
abbrev pub AreWhole : Dict SplitSheetRow → Dict (List SplitLineRow) → Type 0
AreWhole sheets lines =
    (id : String) (row : SplitSheetRow)
    → get sheets id ≡ some row
    → is_active row.status ≡ true
    → total_of (or_empty (get lines id)) ≡ 10_000

abbrev pub id_of : SplitSheetRow → String
id_of row = row.id

abbrev pub AreSheets : CatalogStore → Type 0
AreSheets s =
    IsKeyed id_of s.split_sheets × OneActive s.split_sheets × AreWhole s.split_sheets s.split_lines

abbrev pub AreDistinct : CatalogStore → Type 0
AreDistinct s =
    AreUnique has_isrc s.recordings
    × AreUnique has_audio s.recordings
    × AreUnique has_iswc s.works
    × AreUnique has_upc s.releases

-- The identifiers of recordings, works and releases are each used once; a sheet stands under its
-- own identifier, one is active at most for each asset and right, and active ones are whole.
abbrev pub IsCatalog : CatalogStore → Type 0
IsCatalog s = AreDistinct s × AreSheets s

abbrev pub Keeps : {A : Type 0} → Action A → Type 0
Keeps m = Triple (λ s. IsCatalog s.store) m (λ a s. IsCatalog s.store)

pub same-eq : (x y : Option String) → same x y ≡ true → x ≡ y
same-eq none none h = refl
same-eq (some x) (some y) h = ground (arith, eq_iff x y)
same-eq none (some y) h = absurd (ground arith)
same-eq (some x) none h = absurd (ground arith)

-- A row that carries a text which no row carried leaves the texts unique.
AreUnique-put :
    {V : Type 0} (field : V → Option String) (d : Dict V) (k : String) (v : V)
    → AreUnique (λ x row. same (field row) x) d
    → (is_given (field v) && is_some (find_value (λ row. same (field row) (field v)) d)) ≡ false
    → AreUnique (λ x row. same (field row) x) (put d k v)
AreUnique-put field d k v unique free x given =
    Unique-put (λ row. same (field row) x) d k v (unique x given)
      λ shared.
        let equal = same-eq (field v) x shared in
        subst (λ y. is_given y ≡ true → is_some (find_value (λ row. same (field row) y) d) ≡ false)
          equal (λ g. ground (arith, free, g)) given

pub create_organization-Keeps : (d : OrganizationDocument) → Keeps (create_organization d)
unfolding create_organization new_id
create_organization-Keeps d s inv =
    raise_if-Holds (is_some (find_value (organization_clash d) s.store.organizations)) _ _ s
      λ free. holds inv

pub create_party-Keeps :
    (kind legal_name : String) (organization_id stage_name : Option String)
    → Keeps (create_party kind legal_name organization_id stage_name)
unfolding create_party new_id
create_party-Keeps kind legal_name organization_id stage_name s inv = holds inv

pub create_artist-Keeps :
    (lower : String → String) (party_id stage_name country_code : String)
    → Keeps (create_artist lower party_id stage_name country_code)
unfolding create_artist new_id
create_artist-Keeps lower party_id stage_name country_code s inv =
    elim (Option-cases (find_value (known_as lower party_id stage_name) s.store.artists)) [
      | inl new ↦ rw new (holds inv)
      | inr (row, known) ↦ rw known (holds inv)
    ]

pub create_catalog-Keeps : (owner name : String) → Keeps (create_catalog owner name)
unfolding create_catalog new_id
create_catalog-Keeps owner name s inv =
    raise_if-Holds (is_some (find_value (catalog_clash owner name) s.store.catalogs)) _ _ s
      λ free. holds inv

pub create_work-Keeps : (catalog_id : String) (d : WorkDocument) → Keeps (create_work catalog_id d)
unfolding create_work new_id
create_work-Keeps catalog_id d s (((isrc, audio, iswc, upc), sheets)) =
    raise_if-Holds (is_given d.iswc && is_some (find_value (has_iswc d.iswc) s.store.works)) _ _ s
      λ free.
        holds
          ((isrc, audio, AreUnique-put (λ row. row.iswc) s.store.works _ _ iswc free, upc), sheets)

pub create_release-Keeps :
    (catalog_id : String) (d : ReleaseDocument) → Keeps (create_release catalog_id d)
unfolding create_release new_id
create_release-Keeps catalog_id d s ((isrc, audio, iswc, upc), sheets) =
    raise_if-Holds (is_given d.upc_ean && is_some (find_value (has_upc d.upc_ean) s.store.releases))
      _ _ s
      λ free. holds (
        (isrc, audio, iswc, AreUnique-put (λ row. row.upc_ean) s.store.releases _ _ upc free),
        sheets,
      )

pub create_recording-Keeps :
    (catalog_id : String) (d : RecordingDocument) → Keeps (create_recording catalog_id d)
unfolding create_recording new_id
create_recording-Keeps catalog_id d s ((isrc, audio, iswc, upc), sheets) =
    raise_if-Holds (is_given d.isrc && is_some (find_value (has_isrc d.isrc) s.store.recordings)) _
      _ s
      λ free.
        raise_if-Holds
          (is_given d.audio_sha256
            && is_some (find_value (has_audio d.audio_sha256) s.store.recordings))
          _ _ s
          λ new. holds (
            (
              AreUnique-put (λ row. row.isrc) s.store.recordings _ _ isrc free,
              AreUnique-put (λ row. row.audio_sha256) s.store.recordings _ _ audio new,
              iswc,
              upc,
            ),
            sheets,
          )
