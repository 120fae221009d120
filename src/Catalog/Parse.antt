-- ===== src/Catalog/Parse.antt =====
-- catalog/models.py: the parsers of recordings and split sheets, and `parse_onboarding_document`
-- with its cross-references.
use Prim.Native.String.{◌++◌ as join}
use ugsync.Prelude.{
  ℕ, zero, suc, Bool, true, false, not, ◌&&◌, Option, none, some, List, [], ◌∷◌, String, is_blank,
  ◌-◌, ◌*◌, ◌^◌, ltb, leb, decimal, if◌then◌else◌,
}
use ugsync.Prelude.Int.{ℤ, pos, negsuc}
use ugsync.Dict.{Dict}
use ugsync.Ingest.Fields.{
  Json, bool, integer, fraction, text, array, object, Items, no_items, item, Fields, no_fields,
  field, get_field, is_sha256,
}
use ugsync.Catalog.Documents.{
  RecordingDocument, Duration, whole, decimals, SplitLineDocument, SplitSheetDocument,
}
use ugsync.Catalog.Checks.{
  Reader, required, invalid, float_overflow, not_listed, not_an_object, Check, done, report_if,
  get_or, require_text, optional_text, or_text, normalize_isrc, chomp, ◌>>=◌, ◌>>◌,
}
use ugsync.Catalog.Entries.{
  with_id, is_outside, cons_some, check_texts, parse_array, parse_artist_credit,
}

abbrev pub right_types : List String
right_types = "master" ∷ "composition" ∷ "performance" ∷ "mechanical" ∷ []

-- The least integer that is nearer to 2^1024 than to any float: `float` raises OverflowError.
abbrev pub float_limit : ℕ
float_limit = 2 ^ 970 * (2 ^ 54 - 1)

-- A positive number of seconds, at most six hours; another value is reported, and reads as 1.0.
unfoldable pub check_duration : Reader → Json → (place : String) → Check Duration
check_duration reader (integer (pos n)) place =
    if ltb n float_limit
    then if ltb 0 n && leb n 21_600 then (whole n, []) else (whole 1, invalid place ∷ [])
    else (whole 1, float_overflow ∷ [])
check_duration reader (integer (negsuc n)) place =
    (whole 1, (if ltb (suc n) float_limit then invalid place else float_overflow) ∷ [])
check_duration reader (fraction t) place =
    if reader.is_duration t then (decimals t, []) else (whole 1, invalid place ∷ [])
check_duration reader _ place = (whole 1, invalid place ∷ [])

-- `bool(value)`
unfoldable pub is_truthy : Reader → Json → Bool
is_truthy reader Json.null = false
is_truthy reader (bool b) = b
is_truthy reader (integer (pos zero)) = false
is_truthy reader (integer _) = true
is_truthy reader (fraction t) = not (reader.is_zero t)
is_truthy reader (text s) = not (is_blank s)
is_truthy reader (array no_items) = false
is_truthy reader (array _) = true
is_truthy reader (object no_fields) = false
is_truthy reader (object _) = true

abbrev pub check_audio : Reader → (place : String) → Option String → Check (Option String)
check_audio reader place none = (none, [])
check_audio reader place (some s) =
    if is_sha256 (chomp (reader.lower s))
    then (some (reader.lower s), [])
    else (none, invalid place ∷ [])

-- `{str(k): int(v) for k, v in numbers.items() if isinstance(v, int)}`
unfoldable pub track_numbers : Fields → Dict ℤ
track_numbers no_fields = []
track_numbers (field k (integer n) rest) = (k, n) ∷ track_numbers rest
track_numbers (field k (bool b) rest) = (k, pos (if b then 1 else 0)) ∷ track_numbers rest
track_numbers (field k _ rest) = track_numbers rest

unfoldable pub check_track_numbers : Json → (place : String) → Check (Dict ℤ)
check_track_numbers (object fs) place = (track_numbers fs, [])
check_track_numbers _ place = ([], not_an_object place ∷ [])

unfoldable pub parse_recording : Reader → Json → Check (Option RecordingDocument)
parse_recording reader (object raw) = do
  local_id ← require_text (get_field raw "local_id") "recording.local_id"
  title ← require_text (get_field raw "title") "recording.title"
  duration ← check_duration reader (get_field raw "duration_seconds") "recording.duration_seconds"
  isrc ← normalize_isrc reader (get_field raw "isrc") "recording.isrc"
  sha ← optional_text (get_field raw "audio_sha256") "recording.audio_sha256"
  audio_sha ← check_audio reader "recording.audio_sha256" sha
  schema_id ←
      optional_text (get_field raw "fingerprint_schema_id") "recording.fingerprint_schema_id"
  credits ←
      parse_array parse_artist_credit "recording.artist_credits"
        (get_or raw "artist_credits" (array no_items))
  work_ids ← check_texts (get_or raw "work_local_ids" (array no_items)) "recording.work_local_ids"
  release_ids ←
      check_texts (get_or raw "release_local_ids" (array no_items)) "recording.release_local_ids"
  numbers ←
      check_track_numbers (get_or raw "release_track_numbers" (object no_fields))
        "recording.release_track_numbers"
  with_id local_id λ id. done (record {
    local_id = id;
    title = or_text title "";
    duration_seconds = duration;
    isrc = isrc;
    explicit = is_truthy reader (get_field raw "explicit");
    audio_sha256 = audio_sha;
    fingerprint_schema_id = schema_id;
    artist_credits = credits;
    work_local_ids = work_ids;
    release_local_ids = release_ids;
    release_track_numbers = numbers;
  })
parse_recording reader _ = (none, not_an_object "recordings[]" ∷ [])

abbrev pub indexed : String → ℕ → String
indexed name i = join name (join "[" (join (decimal i) "]"))

-- From 1 to 10,000; another value is reported, and reads as 0.
unfoldable pub check_share : Json → (place : String) → Check ℕ
check_share (integer (pos n)) place =
    if ltb 0 n && leb n 10_000 then (n, []) else (0, invalid place ∷ [])
check_share _ place = (0, invalid place ∷ [])

unfoldable pub parse_line : (index : ℕ) → Json → Check (Option SplitLineDocument)
parse_line index (object raw) = do
  party ←
      require_text (get_field raw "party_local_id")
        (join (indexed "split_sheet.lines" index) ".party_local_id")
  role ← require_text (get_field raw "role") (join (indexed "split_sheet.lines" index) ".role")
  share ←
      check_share (get_field raw "share_basis_points")
        (join (indexed "split_sheet.lines" index) ".share_basis_points")
  done (
      some (record {
        party_local_id = or_text party "";
        role = or_text role "";
        share_basis_points = share;
      }))
parse_line index _ = (none, not_an_object (indexed "split_sheet.lines" index) ∷ [])

unfoldable pub parse_lines : (index : ℕ) → Items → Check (List SplitLineDocument)
parse_lines index no_items = ([], [])
parse_lines index (item x rest) = do
  parsed ← parse_line index x
  more ← parse_lines (suc index) rest
  done (cons_some parsed more)

unfoldable pub check_lines : Json → Check (List SplitLineDocument)
check_lines (array (item x rest)) = parse_lines 0 (item x rest)
check_lines _ = ([], required "split_sheet.lines" ∷ [])

unfoldable pub parse_split_sheet : Json → Check (Option SplitSheetDocument)
parse_split_sheet (object raw) = do
  right_type ← require_text (get_field raw "right_type") "split_sheet.right_type"
  report_if (is_outside right_types right_type) (not_listed "split_sheet.right_type")
  asset_id ← require_text (get_field raw "asset_local_id") "split_sheet.asset_local_id"
  lines ← check_lines (get_field raw "lines")
  source_key ← optional_text (get_field raw "source_document_key") "split_sheet.source_document_key"
  done (
      some (record {
        right_type = or_text right_type "master";
        asset_local_id = or_text asset_id "";
        lines = lines;
        source_document_key = source_key;
      }))
parse_split_sheet _ = (none, not_an_object "split_sheets[]" ∷ [])
