-- ===== src/Catalog/Kept.antt =====
-- What the methods of split sheets, and a whole onboarding, keep of the catalog's invariant.
use ugsync.Prelude.{
  ℕ, ◌≡◌, refl, Bool, true, not, Option, some, List, [], String, eq_iff, arith, ◌==◌,
}
use ugsync.Prelude.Int.{ℤ}
use ugsync.Dict.{Dict, get, put, IsKeyed-put, get-put, get-put_same}
use ugsync.Dict.Rewrite.{Unique-put}
use ugsync.Exec.Triples.{Holds, Triple, raise_if-Holds, or_raise-Holds, holds}
use ugsync.Catalog.Store.{
  draft, SplitSheetRow, SplitLineRow, CatalogStore, CatalogAudit, Session, new_id, today,
}
use ugsync.Catalog.Sheets.{
  is_draft, total_of, lines_of, create_split_sheet, add_split_line, store_activate,
  write_catalog_audit, or_empty,
}
use ugsync.Catalog.Writes.{
  link_recording_artist, link_recording_work, link_release_recording, link_work_contributor,
}
use ugsync.Catalog.Stable.{Stable}
use ugsync.Catalog.Invariant.{
  create_organization-Keeps, create_party-Keeps, create_artist-Keeps, create_catalog-Keeps,
  create_work-Keeps, create_release-Keeps, create_recording-Keeps, IsCatalog, Keeps, id_of,
  is_active_for, OneActive, AreWhole,
}
use ugsync.Catalog.Whole.{OneActive-activated, IsKeyed-activated, AreWhole-activated}

-- A sheet that is there, and that is a draft.
abbrev pub IsDraft : String → CatalogStore → Type 0
IsDraft id s =
    (row : SplitSheetRow) × (get s.split_sheets id ≡ some row) × (is_draft row.status ≡ true)

abbrev pub Drafted : String → Session → Type 0
Drafted id s = IsCatalog s.store × IsDraft id s.store

AreWhole-lines :
    (sheets : Dict SplitSheetRow) (lines : Dict (List SplitLineRow)) (id : String)
    (ls : List SplitLineRow) (row : SplitSheetRow)
    → get sheets id ≡ some row
    → is_draft row.status ≡ true
    → AreWhole sheets lines
    → AreWhole sheets (put lines id ls)
AreWhole-lines sheets lines id ls row found drafted whole id' other there is_on =
    ground (arith, get-put lines id id' ls, eq_iff id id', whole id' other there is_on)

AreWhole-new :
    (sheets : Dict SplitSheetRow) (lines : Dict (List SplitLineRow)) (id : String)
    (row : SplitSheetRow)
    → is_draft row.status ≡ true
    → AreWhole sheets lines
    → AreWhole (put sheets id row) (put lines id [])
AreWhole-new sheets lines id row drafted whole id' other there is_on =
    ground
      (arith, get-put lines id id' [], get-put sheets id id' row, eq_iff id id', whole id' other)

OneActive-new :
    (sheets : Dict SplitSheetRow) (id : String) (row : SplitSheetRow)
    → is_draft row.status ≡ true
    → OneActive sheets
    → OneActive (put sheets id row)
OneActive-new sheets id row drafted one r w t =
    Unique-put (is_active_for r w t) sheets id row (one r w t) λ passes. absurd (ground arith)

pub create_split_sheet-Drafted :
    (catalog_id : String) (recording_id work_id : Option String) (right_type : String) (version : ℕ)
    (key : Option String) (s : Session)
    → IsCatalog s.store
    → Holds Drafted
        (create_split_sheet catalog_id recording_id work_id right_type version draft key s)
unfolding create_split_sheet new_id today
create_split_sheet-Drafted catalog_id recording_id work_id right_type version key s
      (distinct, (keyed, one, whole)) =
    holds (
      (
        distinct,
        (
          IsKeyed-put id_of s.store.split_sheets _ _ refl keyed,
          OneActive-new s.store.split_sheets _ _ refl one,
          AreWhole-new s.store.split_sheets s.store.split_lines _ _ refl whole,
        ),
      ),
      (_, get-put_same s.store.split_sheets (s.uuids 0) _, refl),
    )

pub add_split_line-Drafted :
    (id party_id role : String) (share : ℕ)
    → Triple (Drafted id) (add_split_line id party_id role share) (λ line_id. Drafted id)
unfolding add_split_line new_id
add_split_line-Drafted id party_id role share s
      ((distinct, (keyed, one, whole)), (row, found, drafted)) =
    or_raise-Holds (get s.store.split_lines id) _ _ _ λ lines there. holds (
      (
        distinct,
        (
          keyed,
          one,
          AreWhole-lines s.store.split_sheets s.store.split_lines id _ row found drafted whole,
        ),
      ),
      (row, found, drafted),
    )

pub store_activate-Keeps :
    (id approver approved_at : String) → Keeps (store_activate id approver approved_at)
unfolding store_activate lines_of
store_activate-Keeps id approver approved_at s (distinct, (keyed, one, whole)) =
    or_raise-Holds (get s.store.split_sheets id) _ _ _ λ sheet found.
      raise_if-Holds (not (is_draft sheet.status)) _ _ _ λ undrafted.
        raise_if-Holds (not (total_of (or_empty (get s.store.split_lines id)) == 10_000)) _ _ _
          λ partial.
            let drafted : is_draft sheet.status ≡ true = ground arith in
            holds (
              distinct,
              (
                IsKeyed-activated s.store.split_sheets id sheet keyed found drafted approver
                    approved_at,
                OneActive-activated s.store.split_sheets id sheet keyed found drafted approver
                    approved_at one,
                AreWhole-activated s.store.split_sheets id sheet keyed found drafted
                    s.store.split_lines approver approved_at (ground arith) whole,
              ),
            )

pub write_catalog_audit-Keeps : (event : String → CatalogAudit) → Keeps (write_catalog_audit event)
unfolding write_catalog_audit new_id
write_catalog_audit-Keeps event s inv = holds inv

link_recording_artist-Keeps :
    (recording_id artist_id role : String) (order : ℕ)
    → Keeps (link_recording_artist recording_id artist_id role order)
unfolding link_recording_artist
link_recording_artist-Keeps recording_id artist_id role order s inv = holds inv

link_recording_work-Keeps :
    (recording_id work_id : String) (primary : Bool)
    → Keeps (link_recording_work recording_id work_id primary)
unfolding link_recording_work
link_recording_work-Keeps recording_id work_id primary s inv = holds inv

link_release_recording-Keeps :
    (release_id recording_id : String) (track : ℤ)
    → Keeps (link_release_recording release_id recording_id track)
unfolding link_release_recording
link_release_recording-Keeps release_id recording_id track s inv = holds inv

link_work_contributor-Keeps :
    (work_id party_id role : String) (order : ℕ)
    → Keeps (link_work_contributor work_id party_id role order)
unfolding link_work_contributor
link_work_contributor-Keeps work_id party_id role order s inv = holds inv

pub IsCatalog-Stable : Stable IsCatalog IsDraft
IsCatalog-Stable = record {
  organizations = create_organization-Keeps;
  parties = create_party-Keeps;
  artists = create_artist-Keeps;
  catalogs = create_catalog-Keeps;
  works = create_work-Keeps;
  releases = create_release-Keeps;
  recordings = create_recording-Keeps;
  artist_links = link_recording_artist-Keeps;
  work_links = link_recording_work-Keeps;
  release_links = link_release_recording-Keeps;
  contributors = link_work_contributor-Keeps;
  sheets = create_split_sheet-Drafted;
  lines = add_split_line-Drafted;
}
