-- ===== src/Catalog/Whole.antt =====
-- What the methods of split sheets keep of the catalog's invariant: one active sheet at most for an
-- asset and a right, and whole ones only.
use ugsync.Prelude.{
  All-imp, ◌≤◌, ◌≡◌, sym, true, false, Option, some, List, String, str_eq, eq_iff, arith,
  Bool-cases, Option-cases, subst, inl, inr, is_some,
}
use ugsync.Dict.{
  Dict, get, put, find_value, IsKeyed, IsKeyed-put, key_of_get, values, values-get, map_values,
  get-put, weigh, counts, find_value-eq_count,
}
use ugsync.Dict.Rewrite.{
  Unique-put, get-map_values, IsKeyed-map_values, weigh-map_values-le, count-map_values-zero,
  Option_map,
}
use ugsync.Catalog.Store.{SplitSheetRow, SplitLineRow}
use ugsync.Catalog.Sheets.{is_draft, is_active, splits, or_empty, total_of, supersede, approved}
use ugsync.Catalog.Invariant.{is_active_for, OneActive, AreWhole, id_of, same-eq}

module _ (id : String) (sheet : SplitSheetRow) where
  supersede-id : (row : SplitSheetRow) → id_of (supersede id sheet row) ≡ id_of row
  unfolding supersede
  supersede-id row = ground arith

  supersede_active :
      (row : SplitSheetRow)
      → is_active (supersede id sheet row).status ≡ true
      → supersede id sheet row ≡ row
  unfolding supersede
  supersede_active row h = ground arith

  supersede-counts :
      (r w : Option String) (t : String) (row : SplitSheetRow)
      → counts (is_active_for r w t) (supersede id sheet row) ≤ counts (is_active_for r w t) row
  unfolding supersede
  supersede-counts r w t row = ground arith

  -- Of the asset and right of the sheet no other sheet stays active.
  supersede_clears :
      (row : SplitSheetRow)
      → str_eq row.id id ≡ false
      → is_active_for sheet.recording_id sheet.work_id sheet.right_type (supersede id sheet row)
        ≡ false
  unfolding supersede
  supersede_clears row other = ground arith

splits-eq :
    (r w : Option String) (t : String) (row : SplitSheetRow)
    → splits r w t row ≡ true
    → (row.recording_id ≡ r) × (row.work_id ≡ w) × (row.right_type ≡ t)
splits-eq r w t row h = (
  same-eq row.recording_id r (ground arith),
  same-eq row.work_id w (ground arith),
  ground (arith, eq_iff row.right_type t),
)

module _ (sheets : Dict SplitSheetRow) (id : String) (sheet : SplitSheetRow) where
  abbrev pub activated : (approver approved_at : String) → Dict SplitSheetRow
  activated approver approved_at =
      put (map_values (supersede id sheet) sheets) id (approved approver approved_at sheet)

  -- Another sheet is as the loop leaves it.
  pub get-activated :
      (approver approved_at id' : String)
      → str_eq id id' ≡ false
      → get (activated approver approved_at) id' ≡ Option_map (supersede id sheet) (get sheets id')
  get-activated approver approved_at id' other = ground (
    arith,
    other,
    get-put (map_values (supersede id sheet) sheets) id id' (approved approver approved_at sheet),
    get-map_values (supersede id sheet) sheets id',
  )

module _ (sheets : Dict SplitSheetRow) (id : String) (sheet : SplitSheetRow)
    (keyed : IsKeyed id_of sheets) (found : get sheets id ≡ some sheet)
    (drafted : is_draft sheet.status ≡ true) where
  cleared :
      weigh
        (counts (is_active_for sheet.recording_id sheet.work_id sheet.right_type))
        (map_values (supersede id sheet) sheets)
      ≡ 0
  cleared = count-map_values-zero _ (supersede id sheet) sheets (
      All-imp
        (λ row (there : get sheets (id_of row) ≡ some row). elim (Bool-cases (str_eq row.id id)) [
          | inr other ↦ supersede_clears id sheet row other
          | inl own ↦ unfold supersede in ground (arith, eq_iff row.id id, there, found, drafted)
        ])
        (values sheets) (values-get id_of sheets keyed))

  pub OneActive-activated :
      (approver approved_at : String)
      → OneActive sheets
      → OneActive (activated sheets id sheet approver approved_at)
  OneActive-activated approver approved_at one r w t =
      Unique-put (is_active_for r w t) (map_values (supersede id sheet) sheets) id
        (approved approver approved_at sheet)
        (omega (
          arith,
          weigh-map_values-le (counts (is_active_for r w t)) (supersede id sheet) sheets
              (supersede-counts id sheet r w t),
          one r w t,
        ))
        λ passes.
          let (same_r, same_w, same_t) = splits-eq r w t sheet passes in
          subst
            (λ r.
              is_some (find_value (is_active_for r w t) (map_values (supersede id sheet) sheets))
              ≡ false)
            same_r
            (subst
              (λ w.
                is_some (
                  find_value (is_active_for sheet.recording_id w t)
                    (map_values (supersede id sheet) sheets))
                ≡ false)
              same_w
              (subst
                (λ t.
                  is_some (
                    find_value (is_active_for sheet.recording_id sheet.work_id t)
                      (map_values (supersede id sheet) sheets))
                  ≡ false)
                same_t
                (ground (
                  arith,
                  cleared,
                  find_value-eq_count
                      (is_active_for sheet.recording_id sheet.work_id sheet.right_type)
                      (map_values (supersede id sheet) sheets),
                ))))

  pub IsKeyed-activated :
      (approver approved_at : String)
      → IsKeyed id_of (activated sheets id sheet approver approved_at)
  IsKeyed-activated approver approved_at =
      IsKeyed-put id_of (map_values (supersede id sheet) sheets) id
        (approved approver approved_at sheet) (key_of_get id_of sheets id keyed found)
        (IsKeyed-map_values id_of (supersede id sheet) sheets (supersede-id id sheet) keyed)

  pub AreWhole-activated :
      (lines : Dict (List SplitLineRow)) (approver approved_at : String)
      → total_of (or_empty (get lines id)) ≡ 10_000
      → AreWhole sheets lines
      → AreWhole (activated sheets id sheet approver approved_at) lines
  AreWhole-activated lines approver approved_at total whole id' row there is_on =
      elim (Bool-cases (str_eq id id')) [
        | inl own ↦ ground (arith, eq_iff id id', total)
        | inr other ↦ elim (Option-cases (get sheets id')) [
          | inl missing ↦ absurd (
              ground (
                arith,
                there,
                get-activated sheets id sheet approver approved_at id' other,
                missing,
              ))
          | inr (old, kept) ↦
              let same_row : supersede id sheet old ≡ row = ground (
                arith,
                there,
                get-activated sheets id sheet approver approved_at id' other,
                kept,
              ) in
              let still = subst (λ v. is_active v.status ≡ true) (sym same_row) is_on in
              whole id' old kept
                (subst (λ v. is_active v.status ≡ true) (supersede_active id sheet old still) still)
        ]
      ]
