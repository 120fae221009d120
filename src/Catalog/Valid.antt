-- ===== src/Catalog/Valid.antt =====
-- A document that `parse_onboarding_document` accepts has references that resolve.
use ugsync.Prelude.{◌≡◌, refl, true, false, some, List, [], ◌∷◌, String, contains, arith, subst}
use ugsync.Ingest.Fields.{Json, bool, integer, fraction, text, array, object, Fields, get_field}
use ugsync.Ingest.Manifest.Readers.{append-eq_nil}
use ugsync.Catalog.Documents.{OnboardingDocument}
use ugsync.Catalog.Checks.{Reader, Check, require_text, or_text}
use ugsync.Catalog.Entries.{is_outside, parse_organization, parse_party, parse_work, parse_release}
use ugsync.Catalog.Parse.{parse_recording, parse_split_sheet}
use ugsync.Catalog.References.{
  problem_if, repeats, recording_problems, work_problems, sheet_problems, collection, org_ids_of,
  party_ids_of, work_ids_of, release_ids_of, recording_ids_of, read_document, accepted,
  accept_clean, parse_onboarding_document,
}
use ugsync.Catalog.Resolved.{Resolves}
use ugsync.Catalog.Accepted.{
  require_text-reads, is_outside-none, parse_array-All, parse_party-IsLinked, unreported,
}
use ugsync.Catalog.Named.{parse_split_sheet-names, parse_work-names, parse_recording-names}
use ugsync.Catalog.Referred.{recordings-IsResolved, works-AreIn, sheets-AreIn, sheets-HasAsset}

-- An owner that was read, and is not outside the organizations, is among them.
owner_among :
    (ids : List String) (v : Json)
    → (require_text v "owner_local_id").1 ≡ []
    → is_outside ids (require_text v "owner_local_id").0 ≡ false
    → contains ids (or_text (require_text v "owner_local_id").0 "") ≡ true
owner_among ids v h inside =
    let (s, read, full) = require_text-reads v "owner_local_id" h in
    rw (read, full) (is_outside-none ids (some s) (rw read at inside))

accept_clean-eq :
    (c : Check OnboardingDocument) {d : OnboardingDocument}
    → accept_clean c ≡ accepted d
    → (c.1 ≡ []) × (c.0 ≡ d)
accept_clean-eq (d, []) h = (refl, ground arith)
accept_clean-eq (d, p ∷ ps) h = absurd (ground arith)

module _ (reader : Reader) (payload : Fields) where
  read_document-Resolves :
      (read_document reader payload).1 ≡ [] → Resolves (read_document reader payload).0
  unfolding read_document
  read_document-Resolves h =
      let organizations = (collection payload "organizations" parse_organization).0 in
      let parties = (collection payload "parties" (parse_party (org_ids_of organizations))).0 in
      let works = (collection payload "works" (parse_work reader)).0 in
      let releases = (collection payload "releases" (parse_release reader)).0 in
      let recordings = (collection payload "recordings" (parse_recording reader)).0 in
      let (e1, h1) = append-eq_nil (require_text (get_field payload "catalog_name") _).1 _ h in
      let (owner, h2) =
        append-eq_nil (require_text (get_field payload "owner_local_id") _).1 _ h1 in
      let (e3, h3) = append-eq_nil (collection payload "organizations" parse_organization).1 _ h2 in
      let (e4, h4) = append-eq_nil (problem_if (repeats (org_ids_of organizations)) _) _ h3 in
      let (links, h5) =
        append-eq_nil (collection payload "parties" (parse_party (org_ids_of organizations))).1 _
          h4 in
      let (e6, h6) = append-eq_nil (problem_if (repeats (party_ids_of parties)) _) _ h5 in
      let (named, h7) = append-eq_nil (collection payload "works" (parse_work reader)).1 _ h6 in
      let (e8, h8) = append-eq_nil (problem_if (repeats (work_ids_of works)) _) _ h7 in
      let (e9, h9) = append-eq_nil (collection payload "releases" (parse_release reader)).1 _ h8 in
      let (e10, h10) = append-eq_nil (problem_if (repeats (release_ids_of releases)) _) _ h9 in
      let (credited, h11) =
        append-eq_nil (collection payload "recordings" (parse_recording reader)).1 _ h10 in
      let (e12, h12) = append-eq_nil (problem_if (repeats (recording_ids_of recordings)) _) _ h11 in
      let owner_text = require_text (get_field payload "owner_local_id") "owner_local_id" in
      let (owned, h13) =
        append-eq_nil (problem_if (is_outside (org_ids_of organizations) owner_text.0) _) _ h12 in
      let (references, h14) =
        append-eq_nil
          (recording_problems (party_ids_of parties) (work_ids_of works) (release_ids_of releases)
            recordings)
          _ h13 in
      let (contributed, h15) = append-eq_nil (work_problems (party_ids_of parties) works) _ h14 in
      let (sheeted, h16) =
        append-eq_nil (collection payload "split_sheets" parse_split_sheet).1 _ h15 in
      let sheets = (collection payload "split_sheets" parse_split_sheet).0 in
      let (split, h17) =
        append-eq_nil
          (sheet_problems (recording_ids_of recordings) (work_ids_of works) (party_ids_of parties)
            [] 0 sheets)
          _ h16 in
      record {
        owner =
            owner_among (org_ids_of organizations) (get_field payload "owner_local_id") owner
              (unreported _ _ owned);
        links =
            parse_array-All _ (parse_party (org_ids_of organizations)) _ _
              (parse_party-IsLinked (org_ids_of organizations)) links;
        recordings = recordings-IsResolved _ _ _ recordings references (
            parse_array-All _ (parse_recording reader) _ _ (parse_recording-names reader) credited);
        contributors =
            works-AreIn _ works contributed
              (parse_array-All _ (parse_work reader) _ _ (parse_work-names reader) named);
        assets = sheets-HasAsset _ _ _ [] 0 sheets split;
        parties =
            sheets-AreIn _ _ _ [] 0 sheets split
              (parse_array-All _ parse_split_sheet _ _ parse_split_sheet-names sheeted);
      }

  pub object-Resolves :
      {d : OnboardingDocument}
      → parse_onboarding_document reader (object payload) ≡ accepted d
      → Resolves d
  unfolding parse_onboarding_document
  object-Resolves parsed =
      let (nil, same) = accept_clean-eq (read_document reader payload) parsed in
      subst Resolves same (read_document-Resolves nil)

-- Each reference in an accepted document is to an entry of the document: the owner, the links of
-- parties, credits, contributors and split lines, the works and releases of recordings, and the
-- assets of split sheets, which are recordings for the master right and works for the others.
pub accepted-Resolves :
    (reader : Reader) (payload : Json) {d : OnboardingDocument}
    → parse_onboarding_document reader payload ≡ accepted d
    → Resolves d
unfolding parse_onboarding_document
accepted-Resolves reader (object fs) parsed = object-Resolves reader fs parsed
accepted-Resolves reader Json.null parsed = absurd (ground arith)
accepted-Resolves reader (bool b) parsed = absurd (ground arith)
accepted-Resolves reader (integer n) parsed = absurd (ground arith)
accepted-Resolves reader (fraction n) parsed = absurd (ground arith)
accepted-Resolves reader (text s) parsed = absurd (ground arith)
accepted-Resolves reader (array xs) parsed = absurd (ground arith)
