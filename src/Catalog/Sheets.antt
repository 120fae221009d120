-- ===== src/Catalog/Sheets.antt =====
-- catalog/store.py, `InMemoryCatalogStore`: split sheets, their lines and the audit. A sheet that
-- activation changes in place is written back under its own identifier.
use ugsync.Prelude.{
  ℕ, ◌+◌, Bool, true, false, not, ◌&&◌, Option, none, some, List, [], ◌∷◌, ◌++◌, String, str_eq,
  sum, map, max, keep_if, ◌==◌, if◌then◌else◌,
}
use ugsync.Dict.{get, put, values, map_values}
use ugsync.Exec.{pure, raise_if, or_raise, ◌>>=◌, ◌>>◌}
use ugsync.Catalog.Documents.{not_found, state_error, key_error}
use ugsync.Catalog.Store.{
  SheetStatus, draft, active, superseded, SplitSheetRow, SplitLineRow, CatalogAudit, CatalogStore,
  Action, reads, changes, new_id, today,
}
use ugsync.Catalog.Writes.{same}

abbrev pub is_draft : SheetStatus → Bool
is_draft draft = true
is_draft _ = false

abbrev pub is_active : SheetStatus → Bool
is_active active = true
is_active _ = false

-- The asset and the right that a sheet splits.
abbrev pub splits :
    (recording_id work_id : Option String) → (right_type : String) → SplitSheetRow → Bool
splits recording_id work_id right_type row =
    same row.recording_id recording_id
    && same row.work_id work_id
    && str_eq row.right_type right_type

abbrev pub maximum : List ℕ → ℕ
maximum [] = 0
maximum (n ∷ ns) = max n (maximum ns)

unfoldable pub next_split_version :
    (recording_id work_id : Option String) → (right_type : String) → CatalogStore → ℕ
next_split_version recording_id work_id right_type s =
    maximum (
      map (λ row. row.version)
        (keep_if (splits recording_id work_id right_type) (values s.split_sheets)))
    + 1

unfoldable pub create_split_sheet :
    (catalog_id : String)
    → (recording_id work_id : Option String) → (right_type : String) → (version : ℕ)
    → (status : SheetStatus) → (source_document_key : Option String) → Action String
create_split_sheet catalog_id recording_id work_id right_type version status source_document_key =
    do
      sheet_id ← new_id
      day ← today
      changes λ s. record s {
        split_sheets = put s.split_sheets sheet_id (record {
          id = sheet_id;
          catalog_id = catalog_id;
          recording_id = recording_id;
          work_id = work_id;
          right_type = right_type;
          version = version;
          status = status;
          valid_from = day;
          valid_to = none;
          source_document_key = source_document_key;
          approved_at = none;
          approved_by_party_id = none;
        });
        split_lines = put s.split_lines sheet_id [];
      }
      pure sheet_id

unfoldable pub add_split_line :
    (split_sheet_id party_id role : String) → (share_basis_points : ℕ) → Action String
add_split_line split_sheet_id party_id role share_basis_points = do
  line_id ← new_id
  lines ← or_raise (← reads λ s. get s.split_lines split_sheet_id) key_error
  changes λ s. record s {
    split_lines = put s.split_lines split_sheet_id (
        lines
        ++ record {
          id = line_id;
          split_sheet_id = split_sheet_id;
          party_id = party_id;
          role = role;
          share_basis_points = share_basis_points;
        }
          ∷ []);
  }
  pure line_id

-- `self.split_lines.get(id, [])`
abbrev pub or_empty : Option (List SplitLineRow) → List SplitLineRow
or_empty none = []
or_empty (some lines) = lines

unfoldable pub lines_of : String → CatalogStore → List SplitLineRow
lines_of split_sheet_id s = or_empty (get s.split_lines split_sheet_id)

abbrev pub total_of : List SplitLineRow → ℕ
total_of lines = sum (map (λ line. line.share_basis_points) lines)

pub record SplitSheetView : Type 0 where
  pub sheet : SplitSheetRow
  pub lines : List SplitLineRow
  pub total_basis_points : ℕ

unfoldable pub get_split_sheet : String → Action SplitSheetView
get_split_sheet split_sheet_id = do
  sheet ← or_raise (← reads λ s. get s.split_sheets split_sheet_id) not_found
  lines ← reads (lines_of split_sheet_id)
  pure (record { sheet = sheet; lines = lines; total_basis_points = total_of lines })

abbrev pub superseded_by : SplitSheetRow → SplitSheetRow → SplitSheetRow
superseded_by sheet other = record other { status = superseded; valid_to = some sheet.valid_from }

-- One round of the loop: an active sheet of the same asset and right, other than the one given.
unfoldable pub supersede : (split_sheet_id : String) → (sheet other : SplitSheetRow) → SplitSheetRow
supersede split_sheet_id sheet other =
    if not (str_eq other.id split_sheet_id)
      && is_active other.status
      && splits sheet.recording_id sheet.work_id sheet.right_type other
    then superseded_by sheet other
    else other

abbrev pub approved : (approver_party_id approved_at : String) → SplitSheetRow → SplitSheetRow
approved approver_party_id approved_at sheet = record sheet {
  status = active;
  approved_at = some approved_at;
  approved_by_party_id = some approver_party_id;
}

unfoldable pub store_activate :
    (split_sheet_id approver_party_id approved_at : String) → Action (Unit {0})
store_activate split_sheet_id approver_party_id approved_at = do
  sheet ← or_raise (← reads λ s. get s.split_sheets split_sheet_id) not_found
  raise_if (not (is_draft sheet.status)) state_error
  lines ← reads (lines_of split_sheet_id)
  raise_if (not (total_of lines == 10_000)) state_error
  changes λ s. record s {
    split_sheets =
        put (map_values (supersede split_sheet_id sheet) s.split_sheets) split_sheet_id
          (approved approver_party_id approved_at sheet);
  }

-- `write_audit`, of an event without its identifier
unfoldable pub write_catalog_audit : (String → CatalogAudit) → Action (Unit {0})
write_catalog_audit event = do
  audit_id ← new_id
  changes λ s. record s { audit_events = s.audit_events ++ event audit_id ∷ [] }
