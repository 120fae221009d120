-- ===== src/Catalog/References.antt =====
-- catalog/models.py, `parse_onboarding_document`: the cross-references of a document.
use Prim.Native.String.{◌++◌ as join}
use ugsync.Prelude.{
  ℕ, suc, Bool, true, false, not, ◌&&◌, ◌||◌, Option, none, some, List, [], ◌∷◌, ◌++◌, String,
  str_eq, is_blank, contains, any, ltb, map, sum, keep_if, if◌then◌else◌,
}
use ugsync.Prelude.Int.{ℤ, pos}
use ugsync.Dict.{Dict, get}
use ugsync.Ingest.Fields.{Json, array, object, no_items, Fields, get_field}
use ugsync.Catalog.Documents.{
  OrganizationDocument, PartyDocument, ArtistCredit, WorkContributor, WorkDocument, ReleaseDocument,
  RecordingDocument, SplitLineDocument, SplitSheetDocument, OnboardingDocument,
}
use ugsync.Catalog.Checks.{
  Reader, FieldProblem, unknown, duplicate, invalid, over_total, float_overflow, not_an_object,
  Check, done, report_if, get_or, require_text, or_text, ◌>>=◌, ◌>>◌,
}
use ugsync.Catalog.Entries.{
  is_outside, parse_array, parse_organization, parse_party, parse_work, parse_release,
}
use ugsync.Catalog.Parse.{parse_recording, parse_split_sheet, indexed}

abbrev pub problem_if : Bool → FieldProblem → List FieldProblem
problem_if b p = if b then p ∷ [] else []

-- `len(set(xs)) != len(xs)`
unfoldable pub repeats : List String → Bool
repeats [] = false
repeats (x ∷ xs) = contains xs x || repeats xs

-- `ref and ref not in ids`
abbrev pub is_unknown : List String → String → Bool
is_unknown ids ref = not (is_blank ref) && not (contains ids ref)

unfoldable pub credit_problems :
    (party_ids : List String) → (place : String) → List ArtistCredit → List FieldProblem
credit_problems party_ids place [] = []
credit_problems party_ids place (c ∷ cs) =
    problem_if (is_unknown party_ids c.party_local_id) (unknown place c.party_local_id)
    ++ credit_problems party_ids place cs

unfoldable pub work_ref_problems :
    (work_ids : List String) → (place : String) → List String → List FieldProblem
work_ref_problems work_ids place [] = []
work_ref_problems work_ids place (ref ∷ refs) =
    problem_if (not (contains work_ids ref)) (unknown place ref)
    ++ work_ref_problems work_ids place refs

-- `n is not None and n < 1`
abbrev pub is_below_one : Option ℤ → Bool
is_below_one (some (pos (suc n))) = false
is_below_one none = false
is_below_one _ = true

unfoldable pub release_ref_problems :
    (release_ids : List String) → (place : String) → Dict ℤ → List String → List FieldProblem
release_ref_problems release_ids place numbers [] = []
release_ref_problems release_ids place numbers (ref ∷ refs) =
    problem_if (not (contains release_ids ref)) (unknown place ref)
    ++ (problem_if (is_below_one (get numbers ref)) (invalid place)
        ++ release_ref_problems release_ids place numbers refs)

unfoldable pub recording_problems :
    (party_ids work_ids release_ids : List String) → List RecordingDocument → List FieldProblem
recording_problems party_ids work_ids release_ids [] = []
recording_problems party_ids work_ids release_ids (d ∷ ds) =
    let place = join "recording " d.local_id in
    credit_problems party_ids place d.artist_credits
    ++ (work_ref_problems work_ids place d.work_local_ids
        ++ (release_ref_problems release_ids place d.release_track_numbers d.release_local_ids
            ++ recording_problems party_ids work_ids release_ids ds))

unfoldable pub contributor_problems :
    (party_ids : List String) → (place : String) → List WorkContributor → List FieldProblem
contributor_problems party_ids place [] = []
contributor_problems party_ids place (c ∷ cs) =
    problem_if (is_unknown party_ids c.party_local_id) (unknown place c.party_local_id)
    ++ contributor_problems party_ids place cs

unfoldable pub work_problems : (party_ids : List String) → List WorkDocument → List FieldProblem
work_problems party_ids [] = []
work_problems party_ids (d ∷ ds) =
    contributor_problems party_ids (join "work " d.local_id) d.contributors
    ++ work_problems party_ids ds

abbrev pub line_parties : List SplitLineDocument → List String
line_parties lines = keep_if (λ ref. not (is_blank ref)) (map (λ l. l.party_local_id) lines)

unfoldable pub line_problems :
    (party_ids : List String) → (place : String) → List String → List FieldProblem
line_problems party_ids place [] = []
line_problems party_ids place (ref ∷ refs) =
    problem_if (not (contains party_ids ref)) (unknown place ref)
    ++ line_problems party_ids place refs

-- `(right_type, asset) in seen`
unfoldable pub has_pair : List (String × String) → (right_type asset : String) → Bool
has_pair [] right_type asset = false
has_pair ((r, a) ∷ rest) right_type asset =
    (str_eq r right_type && str_eq a asset) || has_pair rest right_type asset

abbrev pub document_total : List SplitLineDocument → ℕ
document_total lines = sum (map (λ l. l.share_basis_points) lines)

-- The identifiers among which the asset of a sheet must be.
abbrev pub asset_pool : (recording_ids work_ids : List String) → SplitSheetDocument → List String
asset_pool recording_ids work_ids d =
    if str_eq d.right_type "master" then recording_ids else work_ids

unfoldable pub sheet_problems :
    (recording_ids work_ids party_ids : List String)
    → (seen : List (String × String)) → (index : ℕ) → List SplitSheetDocument
    → List FieldProblem
sheet_problems recording_ids work_ids party_ids seen index [] = []
sheet_problems recording_ids work_ids party_ids seen index (d ∷ ds) =
    let place = indexed "split_sheets" index in
    problem_if (not (contains (asset_pool recording_ids work_ids d) d.asset_local_id))
      (unknown place d.asset_local_id)
    ++ (problem_if (has_pair seen d.right_type d.asset_local_id) (duplicate place)
        ++ (line_problems party_ids place (line_parties d.lines)
            ++ (problem_if (repeats (line_parties d.lines)) (duplicate place)
                ++ (problem_if (ltb 10_000 (document_total d.lines)) (over_total place)
                    ++ sheet_problems recording_ids work_ids party_ids
                        ((d.right_type, d.asset_local_id) ∷ seen) (suc index) ds))))

abbrev pub collection :
    {A : Type 0} → Fields → (key : String) → (Json → Check (Option A)) → Check (List A)
collection payload key parse = parse_array parse key (get_or payload key (array no_items))

abbrev pub org_ids_of : List OrganizationDocument → List String
org_ids_of ds = map (λ d. d.local_id) ds

abbrev pub party_ids_of : List PartyDocument → List String
party_ids_of ds = map (λ d. d.local_id) ds

abbrev pub work_ids_of : List WorkDocument → List String
work_ids_of ds = map (λ d. d.local_id) ds

abbrev pub release_ids_of : List ReleaseDocument → List String
release_ids_of ds = map (λ d. d.local_id) ds

abbrev pub recording_ids_of : List RecordingDocument → List String
recording_ids_of ds = map (λ d. d.local_id) ds

abbrev pub credits_of : List RecordingDocument → List ArtistCredit
credits_of [] = []
credits_of (d ∷ ds) = d.artist_credits ++ credits_of ds

abbrev pub report_all : List FieldProblem → Check (Unit {0})
report_all ps = (tt, ps)

-- The document, and every error found, in the order in which the source finds them.
unfoldable pub read_document : Reader → Fields → Check OnboardingDocument
read_document reader payload = do
  catalog_name ← require_text (get_field payload "catalog_name") "catalog_name"
  owner ← require_text (get_field payload "owner_local_id") "owner_local_id"
  organizations ← collection payload "organizations" parse_organization
  report_if (repeats (org_ids_of organizations)) (duplicate "organizations")
  parties ← collection payload "parties" (parse_party (org_ids_of organizations))
  report_if (repeats (party_ids_of parties)) (duplicate "parties")
  works ← collection payload "works" (parse_work reader)
  report_if (repeats (work_ids_of works)) (duplicate "works")
  releases ← collection payload "releases" (parse_release reader)
  report_if (repeats (release_ids_of releases)) (duplicate "releases")
  recordings ← collection payload "recordings" (parse_recording reader)
  report_if (repeats (recording_ids_of recordings)) (duplicate "recordings")
  report_if (is_outside (org_ids_of organizations) owner)
      (unknown "owner_local_id" (or_text owner ""))
  report_all (
      recording_problems (party_ids_of parties) (work_ids_of works) (release_ids_of releases)
        recordings)
  report_all (work_problems (party_ids_of parties) works)
  sheets ← collection payload "split_sheets" parse_split_sheet
  report_all (
      sheet_problems (recording_ids_of recordings) (work_ids_of works) (party_ids_of parties) [] 0
        sheets)
  done (record {
    catalog_name = or_text catalog_name "";
    owner_local_id = or_text owner "";
    organizations = organizations;
    parties = parties;
    artists = credits_of recordings;
    works = works;
    releases = releases;
    recordings = recordings;
    split_sheets = sheets;
  })

pub data ParsedDocument : Type 0 where
  accepted : OnboardingDocument → ParsedDocument
  refused : List FieldProblem → ParsedDocument
  overflowed : ParsedDocument  -- OverflowError

abbrev pub is_overflow : FieldProblem → Bool
is_overflow float_overflow = true
is_overflow _ = false

abbrev pub accept_clean : Check OnboardingDocument → ParsedDocument
accept_clean (d, []) = accepted d
accept_clean (d, p ∷ ps) = if any is_overflow (p ∷ ps) then overflowed else refused (p ∷ ps)

unfoldable pub parse_onboarding_document : Reader → Json → ParsedDocument
parse_onboarding_document reader (object payload) = accept_clean (read_document reader payload)
parse_onboarding_document reader _ = refused (not_an_object "onboarding payload" ∷ [])
