-- ===== src/Catalog/Entries.antt =====
-- catalog/models.py: the parsers of organizations, parties, works, releases and credits.
use ugsync.Prelude.{
  ℕ, suc, Bool, false, not, ◌&&◌, Option, none, some, List, [], ◌∷◌, String, str_eq, strip,
  is_blank, len, contains, ltb, map, is_some, if◌then◌else◌,
}
use ugsync.Prelude.Int.{pos}
use ugsync.Ingest.Fields.{Json, text, integer, array, object, Items, no_items, item, get_field}
use ugsync.Catalog.Documents.{
  OrganizationDocument, PartyDocument, ArtistCredit, WorkContributor, WorkDocument, ReleaseDocument,
}
use ugsync.Catalog.Checks.{
  Reader, not_listed, invalid, wrong_link, not_an_object, not_an_array, unknown, Check, done,
  report_if, get_or, require_text, optional_text, or_text, is_country, is_language, is_email,
  is_upc, normalize_iswc, ◌>>=◌, ◌>>◌,
}

abbrev pub organization_types : List String
organization_types =
    "cmo" ∷ "label" ∷ "publisher" ∷ "venue_operator" ∷ "broadcaster" ∷ "technology_partner"
    ∷ "other" ∷ []

abbrev pub party_kinds : List String
party_kinds = "individual" ∷ "organization" ∷ []

abbrev pub artist_roles : List String
artist_roles = "primary" ∷ "featured" ∷ "remixer" ∷ "producer" ∷ []

abbrev pub contributor_roles : List String
contributor_roles = "composer" ∷ "lyricist" ∷ "arranger" ∷ "publisher" ∷ "administrator" ∷ []

abbrev pub release_types : List String
release_types = "single" ∷ "ep" ∷ "album" ∷ "compilation" ∷ "other" ∷ []

-- `x is not None and x not in names`
abbrev pub is_outside : List String → Option String → Bool
is_outside names none = false
is_outside names (some x) = not (contains names x)

-- `x == s`, of a text that may be `None`
abbrev pub is_text : Option String → String → Bool
is_text none s = false
is_text (some x) s = str_eq x s

-- `if local_id is None: return None`
abbrev pub with_id : {A : Type 0} → Option String → (String → Check A) → Check (Option A)
with_id none f = (none, [])
with_id (some id) f = (some (f id).0, (f id).1)

abbrev pub cons_text : String → Option (List String) → Option (List String)
cons_text s none = none
cons_text s (some xs) = some (s ∷ xs)

abbrev pub cons_some : {A : Type 0} → Option A → List A → List A
cons_some none xs = xs
cons_some (some x) xs = x ∷ xs

-- A country that is no pair of capitals is reported, and reads as "UG".
unfoldable pub check_country : Json → (place : String) → Check String
check_country (text s) place = if is_country s then (s, []) else ("UG", invalid place ∷ [])
check_country _ place = ("UG", invalid place ∷ [])

unfoldable pub check_email : Json → (place : String) → Check (Option String)
check_email Json.null place = (none, [])
check_email (text s) place =
    if is_email s && not (ltb 254 (len s)) then (some s, []) else (none, invalid place ∷ [])
check_email _ place = (none, invalid place ∷ [])

-- A positive integer that is no boolean; another value is reported, and reads as 1.
unfoldable pub check_order : Json → (place : String) → Check ℕ
check_order (integer (pos (suc n))) place = (suc n, [])
check_order _ place = (1, invalid place ∷ [])

unfoldable pub parse_organization : Json → Check (Option OrganizationDocument)
parse_organization (object raw) = do
  local_id ← require_text (get_field raw "local_id") "organization.local_id"
  legal_name ← require_text (get_field raw "legal_name") "organization.legal_name"
  org_type ← require_text (get_field raw "organization_type") "organization.organization_type"
  report_if (is_outside organization_types org_type) (not_listed "organization.organization_type")
  country ← check_country (get_or raw "country_code" (text "UG")) "organization.country_code"
  email ← check_email (get_field raw "contact_email") "organization.contact_email"
  with_id local_id λ id. (do
    trading_name ← optional_text (get_field raw "trading_name") "organization.trading_name"
    number ← optional_text (get_field raw "registration_number") "organization.registration_number"
    done (record {
      local_id = id;
      legal_name = or_text legal_name "";
      organization_type = or_text org_type "other";
      trading_name = trading_name;
      registration_number = number;
      country_code = country;
      contact_email = email;
    }))
parse_organization _ = (none, not_an_object "organizations[]" ∷ [])

-- A link that is given must name one of the organizations.
unfoldable pub check_link : (org_ids : List String) → Json → Check (Option String)
check_link org_ids Json.null = (none, [])
check_link org_ids value = do
  ref ← require_text value "party.organization_local_id"
  report_if (is_outside org_ids ref) (unknown "party.organization_local_id" (or_text ref ""))
  done ref

unfoldable pub parse_party : (org_ids : List String) → Json → Check (Option PartyDocument)
parse_party org_ids (object raw) = do
  local_id ← require_text (get_field raw "local_id") "party.local_id"
  legal_name ← require_text (get_field raw "legal_name") "party.legal_name"
  kind ← require_text (get_field raw "party_kind") "party.party_kind"
  report_if (is_outside party_kinds kind) (not_listed "party.party_kind")
  org_ref ← check_link org_ids (get_field raw "organization_local_id")
  report_if (is_text kind "individual" && is_some org_ref)
      (wrong_link "party.organization_local_id")
  report_if (is_text kind "organization" && not (is_some org_ref))
      (wrong_link "party.organization_local_id")
  with_id local_id λ id. (do
    stage_name ← optional_text (get_field raw "stage_or_trading_name") "party.stage_or_trading_name"
    done (record {
      local_id = id;
      party_kind = or_text kind "individual";
      legal_name = or_text legal_name "";
      organization_local_id = org_ref;
      stage_or_trading_name = stage_name;
    }))
parse_party org_ids _ = (none, not_an_object "parties[]" ∷ [])

unfoldable pub parse_contributor : Json → Check (Option WorkContributor)
parse_contributor (object raw) = do
  party ← require_text (get_field raw "party_local_id") "contributor.party_local_id"
  role ← require_text (get_field raw "contributor_role") "contributor.contributor_role"
  report_if (is_outside contributor_roles role) (not_listed "contributor.contributor_role")
  order ← check_order (get_or raw "display_order" (integer (pos 1))) "contributor.display_order"
  done (
      some (record {
        party_local_id = or_text party "";
        contributor_role = or_text role "";
        display_order = order;
      }))
parse_contributor _ = (none, not_an_object "contributors[]" ∷ [])

unfoldable pub parse_artist_credit : Json → Check (Option ArtistCredit)
parse_artist_credit (object raw) = do
  party ← require_text (get_field raw "party_local_id") "artist_credit.party_local_id"
  role ← require_text (get_field raw "artist_role") "artist_credit.artist_role"
  report_if (is_outside artist_roles role) (not_listed "artist_credit.artist_role")
  stage_name ← require_text (get_field raw "stage_name") "artist_credit.stage_name"
  order ← check_order (get_or raw "display_order" (integer (pos 1))) "artist_credit.display_order"
  country ← check_country (get_or raw "country_code" (text "UG")) "artist_credit.country_code"
  done (
      some (record {
        party_local_id = or_text party "";
        artist_role = or_text role "";
        stage_name = or_text stage_name "";
        display_order = order;
        country_code = country;
      }))
parse_artist_credit _ = (none, not_an_object "artist_credits[]" ∷ [])

-- All texts that are not blank, as they are; `none` where another value is among them.
unfoldable pub texts_of : Items → Option (List String)
texts_of no_items = some []
texts_of (item (text s) rest) =
    let more = texts_of rest in if is_blank (strip s) then none else cons_text s more
texts_of (item _ rest) = none

abbrev pub or_report : Option (List String) → (place : String) → Check (List String)
or_report none place = ([], invalid place ∷ [])
or_report (some xs) place = (xs, [])

unfoldable pub check_texts : Json → (place : String) → Check (List String)
check_texts (array xs) place = or_report (texts_of xs) place
check_texts _ place = ([], invalid place ∷ [])

-- `tuple(x for x in (parse(item) for item in raw) if x)`
unfoldable pub parse_items : {A : Type 0} → (Json → Check (Option A)) → Items → Check (List A)
parse_items parse no_items = ([], [])
parse_items parse (item x rest) = do
  parsed ← parse x
  more ← parse_items parse rest
  done (cons_some parsed more)

unfoldable pub parse_array :
    {A : Type 0} → (Json → Check (Option A)) → (place : String) → Json → Check (List A)
parse_array parse place (array xs) = parse_items parse xs
parse_array parse place _ = ([], not_an_array place ∷ [])

unfoldable pub check_language : Json → (place : String) → Check String
check_language (text s) place = if is_language s then (s, []) else ("und", invalid place ∷ [])
check_language _ place = ("und", invalid place ∷ [])

unfoldable pub parse_work : Reader → Json → Check (Option WorkDocument)
parse_work reader (object raw) = do
  local_id ← require_text (get_field raw "local_id") "work.local_id"
  title ← require_text (get_field raw "title") "work.title"
  language ← check_language (get_or raw "language_code" (text "und")) "work.language_code"
  iswc ← normalize_iswc reader (get_field raw "iswc") "work.iswc"
  alternates ← check_texts (get_or raw "alternate_titles" (array no_items)) "work.alternate_titles"
  contributors ←
      parse_array parse_contributor "work.contributors" (get_or raw "contributors" (array no_items))
  with_id local_id λ id. done (record {
    local_id = id;
    title = or_text title "";
    language_code = language;
    iswc = iswc;
    alternate_titles = map strip alternates;
    contributors = contributors;
  })
parse_work reader _ = (none, not_an_object "works[]" ∷ [])

unfoldable pub check_release_type : Json → (place : String) → Check String
check_release_type (text s) place =
    if contains release_types s then (s, []) else ("single", not_listed place ∷ [])
check_release_type _ place = ("single", not_listed place ∷ [])

abbrev pub is_bad_upc : Reader → Option String → Bool
is_bad_upc reader none = false
is_bad_upc reader (some s) = not (is_upc reader s)

unfoldable pub parse_release : Reader → Json → Check (Option ReleaseDocument)
parse_release reader (object raw) = do
  local_id ← require_text (get_field raw "local_id") "release.local_id"
  title ← require_text (get_field raw "title") "release.title"
  release_type ←
      check_release_type (get_or raw "release_type" (text "single")) "release.release_type"
  upc ← optional_text (get_field raw "upc_ean") "release.upc_ean"
  report_if (is_bad_upc reader upc) (invalid "release.upc_ean")
  with_id local_id λ id. done (record {
    local_id = id;
    title = or_text title "";
    release_type = release_type;
    upc_ean = upc;
  })
parse_release reader _ = (none, not_an_object "releases[]" ∷ [])
