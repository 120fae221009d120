-- ===== src/Catalog/Payloads.antt =====
-- Payloads of onboardings, and the theorems about parsing at them.
use ugsync.Prelude.{
  ◌≡◌, refl, true, false, none, String, ℕ, zero, suc, contains, strip, lstrip, rstrip, decimal,
  decimal_from, len,
}
use ugsync.Prelude.Int.{pos}
use ugsync.Exec.{err}
use ugsync.Ingest.Fields.{
  Json, text, integer, array, object, no_items, item, Fields, no_fields, field, get_field,
  has_field,
}
use ugsync.Catalog.Documents.{validation, overflow_error}
use ugsync.Catalog.Checks.{
  Reader, require_text, optional_text, is_ascii_digit, is_country, is_language, normalize_isrc,
  normalize_iswc, fits, chomp,
}
use ugsync.Catalog.References.{
  accepted, parse_onboarding_document, read_document, repeats, recording_problems, work_problems,
  contributor_problems, sheet_problems, has_pair, line_problems,
}
use ugsync.Catalog.Store.{new_catalog_store}
use ugsync.Catalog.Service.{Host, Call, onboard, onboard_payload}
use ugsync.Catalog.Resolved.{Resolves}
use ugsync.Catalog.Valid.{accepted-Resolves}
use ugsync.Catalog.Conflicts.{Refuses, payload_raises}
use ugsync.Catalog.Entries.{
  parse_array, parse_items, parse_organization, check_country, check_email, parse_party, check_link,
  parse_work, check_language, check_texts, texts_of, parse_contributor, parse_release,
}
use ugsync.Catalog.Parse.{
  float_limit, check_duration, is_truthy, check_track_numbers, track_numbers, parse_recording,
  parse_split_sheet, check_lines, parse_lines, parse_line, check_share,
}

abbrev host : Host
host = record { lower = λ s. s; is_uuid = λ s. true }

abbrev uuid : ℕ → String
uuid zero = "u0"
uuid (suc zero) = "u1"
uuid (suc (suc n)) = "u2"

abbrev call : Call
call = record {
  uuids = uuid;
  days = λ n. "2026-01-01";
  now = "2026-01-02T00:00:00+00:00";
  actor_id = none;
  request_id = none;
}

abbrev reader : Reader
reader = record {
  upper = λ s. s;
  lower = λ s. s;
  is_decimal = is_ascii_digit;
  is_zero = λ s. false;
  is_duration = λ s. true;
}

abbrev one : Json → Json
one x = array (item x no_items)

abbrev party_payload : Json
party_payload = object (
    field "local_id" (text "p")
      (field "legal_name" (text "Ann") (field "party_kind" (text "individual") no_fields)))

abbrev sheet_payload : Json
sheet_payload = object (
    field "right_type" (text "composition") (
      field "asset_local_id" (text "w") (
        field "lines"
          (one (
            object (
              field "party_local_id" (text "p") (
                field "role" (text "composer")
                  (field "share_basis_points" (integer (pos 10_000)) no_fields)))))
          no_fields)))

abbrev payload : Fields
payload = field "catalog_name" (text "Main") (
    field "owner_local_id" (text "o") (
      field "organizations"
        (one (
          object (
            field "local_id" (text "o") (
              field "legal_name" (text "Label")
                (field "organization_type" (text "label") no_fields)))))
        (field "parties" (one party_payload) (
          field "works"
            (one (object (field "local_id" (text "w") (field "title" (text "Song") no_fields))))
            (field "split_sheets" (one sheet_payload) no_fields)))))

payload_parsed :
    parse_onboarding_document reader (object payload) ≡ accepted (read_document reader payload).0
unfolding parse_onboarding_document read_document require_text get_field strip lstrip rstrip len
    parse_array has_field parse_items parse_organization contains check_country is_country chomp
    fits check_email optional_text repeats parse_party check_link parse_work check_language
    is_language normalize_iswc check_texts texts_of parse_contributor parse_release parse_recording
    parse_split_sheet check_lines parse_lines parse_line check_share decimal decimal_from
    recording_problems work_problems contributor_problems sheet_problems has_pair line_problems
payload_parsed = refl

accepted-Resolves_example : Resolves (read_document reader payload).0
accepted-Resolves_example = accepted-Resolves reader (object payload) payload_parsed

-- A recording whose duration is an integer that no float holds.
abbrev huge_payload : Json
huge_payload = object (
    field "catalog_name" (text "Main") (
      field "recordings"
        (one (object (field "duration_seconds" (integer (pos float_limit)) no_fields))) no_fields))

huge_raises :
    onboard_payload reader host call huge_payload none new_catalog_store
    ≡ (err overflow_error, new_catalog_store)
unfolding onboard_payload parse_onboarding_document read_document require_text optional_text
    get_field strip lstrip rstrip len parse_array has_field parse_items contains repeats
    check_duration normalize_isrc parse_recording is_truthy check_texts texts_of check_track_numbers
    track_numbers recording_problems work_problems sheet_problems
huge_raises = refl

not_json :
    onboard_payload reader host call (text "x") none new_catalog_store
    ≡ (err validation, new_catalog_store)
unfolding onboard_payload onboard parse_onboarding_document
not_json = refl

payload_raises_example : Refuses (parse_onboarding_document reader huge_payload) overflow_error
payload_raises_example =
    payload_raises reader host call huge_payload none new_catalog_store huge_raises
