-- ===== src/Catalog/Activation.antt =====
-- What the activation of a split sheet does, and when.
use ugsync.Prelude.{
  ◌≡◌, refl, sym, subst, true, false, not, ◌&&◌, str_eq, some, [], ◌∷◌, ◌++◌, String, ◌==◌, arith,
}
use ugsync.Dict.{get, map_values, get-put_same}
use ugsync.Exec.{ok}
use ugsync.Exec.Triples.{
  Holds, holds, raise_if-Holds, or_raise-Holds, continue-Holds, always-Holds, Holds-of_ok,
}
use ugsync.Catalog.Store.{CatalogStore, SplitSheetRow, active, superseded, new_id}
use ugsync.Catalog.Sheets.{
  SplitSheetView, get_split_sheet, store_activate, write_catalog_audit, is_draft, is_active, splits,
  lines_of, total_of, supersede, superseded_by, approved,
}
use ugsync.Catalog.Service.{Host, Call, activate_split_sheet, activate_in, activated_event}
use ugsync.Catalog.Stable.{session-Holds}
use ugsync.Catalog.Whole.{activated, get-activated}

module _ (host : Host) (call : Call) (id approver : String) (s : CatalogStore) where
  -- The sheet that a call may activate.
  pub record IsActivable (sheet : SplitSheetRow) : Type 0 where
    pub formed : host.is_uuid id ≡ true
    pub signed : host.is_uuid approver ≡ true
    pub found : get s.split_sheets id ≡ some sheet
    pub drafted : is_draft sheet.status ≡ true
    pub whole : total_of (lines_of id s) ≡ 10_000

  abbrev pub view_of : SplitSheetRow → SplitSheetView
  view_of sheet = record {
    sheet = sheet;
    lines = lines_of id s;
    total_basis_points = total_of (lines_of id s);
  }

  -- The store in which the sheet is active, the others of its asset and right are superseded, and
  -- one event has been written.
  abbrev pub activation_store : SplitSheetRow → CatalogStore
  activation_store sheet = record s {
    split_sheets = activated s.split_sheets id sheet approver call.now;
    audit_events =
        s.audit_events ++ activated_event call id approver (view_of sheet) (call.uuids 0) ∷ [];
  }

  pub activates_to :
      (sheet : SplitSheetRow)
      → IsActivable sheet
      → activate_split_sheet host call id approver s
        ≡ (ok (view_of (approved approver call.now sheet)), activation_store sheet)
  unfolding activate_split_sheet activate_in get_split_sheet store_activate write_catalog_audit
      new_id lines_of
  activates_to sheet can =
      let written = map_values (supersede id sheet) s.split_sheets in
      let full : (total_of (lines_of id s) == 10_000) ≡ true = ground (arith, can.whole) in
      rw
        (
          can.formed,
          can.signed,
          can.found,
          can.drafted,
          full,
          can.found,
          can.drafted,
          full,
          get-put_same written id (approved approver call.now sheet),
        )
        refl

  abbrev Activable : SplitSheetView → Type 0
  Activable view = (sheet : SplitSheetRow) × IsActivable sheet

  abbrev Seen : SplitSheetView → Type 0
  Seen view =
      (sheet : SplitSheetRow) × (get s.split_sheets id ≡ some sheet) × (view ≡ view_of sheet)

  Seen-Holds :
      Holds
        (λ view t. Seen view)
        (get_split_sheet id (record { store = s; uuids = call.uuids; days = call.days }))
  unfolding get_split_sheet
  Seen-Holds =
      or_raise-Holds (get s.split_sheets id) _ _ _ λ sheet found. holds (sheet, found, refl)

  activated-Holds : Holds (λ view t. Activable view) (activate_split_sheet host call id approver s)
  unfolding activate_split_sheet activate_in
  activated-Holds = raise_if-Holds (not (host.is_uuid id)) _ _ _ λ formed.
      raise_if-Holds (not (host.is_uuid approver)) _ _ _ λ signed.
        session-Holds (λ view t. Activable view) s
          (activate_in call id approver
            (record { store = s; uuids = call.uuids; days = call.days }))
          (continue-Holds (λ view t. Seen view)
            (get_split_sheet id (record { store = s; uuids = call.uuids; days = call.days })) _
            Seen-Holds
            λ view t (sheet, found, seen).
              raise_if-Holds (not (is_draft view.sheet.status)) _ _ _ λ drafted.
                raise_if-Holds (not (view.total_basis_points == 10_000)) _ _ _ λ whole.
                  always-Holds _ λ result t'. (
                    sheet,
                    record {
                      formed = ground arith;
                      signed = ground arith;
                      found = found;
                      drafted = ground (arith, seen, drafted);
                      whole = ground (arith, seen, whole);
                    },
                  ))

  -- What an activation has made of the sheets: the given one is active, and returned; of the others
  -- those of its asset and right that were active are superseded, and the rest are as they were.
  pub record IsActivated (sheet : SplitSheetRow) (view : SplitSheetView) (s' : CatalogStore)
      : Type 0 where
    pub status : view.sheet.status ≡ active
    pub signer : view.sheet.approved_by_party_id ≡ some approver
    pub stored : get s'.split_sheets id ≡ some view.sheet
    pub replaced :
        (k : String) (row : SplitSheetRow)
        → str_eq id k ≡ false
        → get s.split_sheets k ≡ some row
        → str_eq row.id id ≡ false
        → row.status ≡ active
        → splits sheet.recording_id sheet.work_id sheet.right_type row ≡ true
        → (row' : SplitSheetRow) × (get s'.split_sheets k ≡ some row')
          × (row'.status ≡ superseded)
          × (row'.valid_to ≡ some sheet.valid_from)
    pub kept :
        (k : String) (row : SplitSheetRow)
        → str_eq id k ≡ false
        → get s.split_sheets k ≡ some row
        → (is_active row.status && splits sheet.recording_id sheet.work_id sheet.right_type row)
          ≡ false
        → get s'.split_sheets k ≡ some row

  activation-IsActivated :
      (sheet : SplitSheetRow)
      → IsActivated sheet (view_of (approved approver call.now sheet)) (activation_store sheet)
  unfolding supersede
  activation-IsActivated sheet = record {
    status = refl;
    signer = refl;
    stored =
        get-put_same (map_values (supersede id sheet) s.split_sheets) id
          (approved approver call.now sheet);
    replaced = λ k row other there named was_active same. (
      superseded_by sheet row,
      ground (
        arith,
        get-activated s.split_sheets id sheet approver call.now k other,
        there,
        named,
        was_active,
        same,
      ),
      refl,
      refl,
    );
    kept = λ k row other there free.
        ground
          (arith, get-activated s.split_sheets id sheet approver call.now k other, there, free);
  }

  -- A call on well-formed identifiers, for a draft sheet whose lines total 10,000 basis points,
  -- succeeds. It returns the sheet, which is now stored as active, with the approver given; every
  -- other sheet of its asset and right that was active is superseded, and all others stay.
  pub activate_draft :
      (sheet : SplitSheetRow)
      → IsActivable sheet
      → (view : SplitSheetView) × (s' : CatalogStore) × (activate_split_sheet host call id approver
            s
          ≡ (ok view, s'))
        × IsActivated sheet view s'
  activate_draft sheet can = (
    view_of (approved approver call.now sheet),
    activation_store sheet,
    activates_to sheet can,
    activation-IsActivated sheet,
  )

  -- A call that succeeds has been given a draft sheet of exactly 10,000 basis points; it returns
  -- that sheet, approved, and leaves the store in which it is active; every other sheet of its asset
  -- and right that was active is superseded, and all others stay.
  pub activate-Activates :
      {view : SplitSheetView} {s' : CatalogStore}
      → activate_split_sheet host call id approver s ≡ (ok view, s')
      → (sheet : SplitSheetRow) × IsActivable sheet
        × (view ≡ view_of (approved approver call.now sheet))
        × (s' ≡ activation_store sheet)
        × IsActivated sheet view s'
  activate-Activates {view} {s'} ran =
      let (sheet, can) = Holds-of_ok activated-Holds ran in
      let done = activates_to sheet can in
      let viewed : view ≡ view_of (approved approver call.now sheet) = ground (arith, done, ran) in
      let left : s' ≡ activation_store sheet = ground (arith, done, ran) in
      (
        sheet,
        can,
        viewed,
        left,
        subst (λ v. IsActivated sheet v s') (sym viewed)
            (subst (λ t. IsActivated sheet (view_of (approved approver call.now sheet)) t)
              (sym left) (activation-IsActivated sheet)),
      )
