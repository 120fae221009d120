-- ===== src/Catalog/Named.antt =====
-- Where the parsers report no error, each credit, contributor and split line names a party.
use ugsync.Prelude.{All, ℕ, suc, arith, ◌≡◌, false, List, [], ◌∷◌, map, String, is_blank}
use ugsync.Ingest.Fields.{
  Json, bool, integer, fraction, text, array, object, Items, no_items, item, get_field,
}
use ugsync.Ingest.Manifest.Readers.{append-eq_nil}
use ugsync.Catalog.Documents.{ArtistCredit, WorkContributor, SplitLineDocument}
use ugsync.Catalog.Checks.{
  Reader, require_text, get_or, optional_text, normalize_iswc, normalize_isrc,
}
use ugsync.Catalog.Entries.{
  parse_contributor, parse_artist_credit, parse_array, parse_work, check_language, check_texts,
}
use ugsync.Catalog.Parse.{
  check_duration, check_audio, parse_recording, parse_line, parse_lines, check_lines,
  parse_split_sheet,
}
use ugsync.Catalog.Accepted.{Promises, require_text-or, IfSome-with_id, parse_array-All}

abbrev pub credit_names : List ArtistCredit → List String
credit_names cs = map (λ c. c.party_local_id) cs

abbrev pub contributor_names : List WorkContributor → List String
contributor_names cs = map (λ c. c.party_local_id) cs

abbrev pub line_names : List SplitLineDocument → List String
line_names ls = map (λ l. l.party_local_id) ls

-- None of the texts is empty.
abbrev pub AreGiven : List String → Type 0
AreGiven names = All (λ x. is_blank x ≡ false) names

module _ {A : Type 0} (name : A → String) where
  All-map : (xs : List A) → All (λ x. is_blank (name x) ≡ false) xs → AreGiven (map name xs)
  All-map [] h = tt
  All-map (x ∷ xs) (this, rest) = (this, All-map xs rest)

parse_artist_credit-names : Promises (λ c. is_blank c.party_local_id ≡ false) parse_artist_credit
unfolding parse_artist_credit
parse_artist_credit-names (object raw) h =
    require_text-or (get_field raw "party_local_id") _
      (append-eq_nil (require_text (get_field raw "party_local_id") _).1 _ h).0
parse_artist_credit-names Json.null h = tt
parse_artist_credit-names (bool b) h = tt
parse_artist_credit-names (integer n) h = tt
parse_artist_credit-names (fraction n) h = tt
parse_artist_credit-names (text s) h = tt
parse_artist_credit-names (array xs) h = tt

parse_contributor-names : Promises (λ c. is_blank c.party_local_id ≡ false) parse_contributor
unfolding parse_contributor
parse_contributor-names (object raw) h =
    require_text-or (get_field raw "party_local_id") _
      (append-eq_nil (require_text (get_field raw "party_local_id") _).1 _ h).0
parse_contributor-names Json.null h = tt
parse_contributor-names (bool b) h = tt
parse_contributor-names (integer n) h = tt
parse_contributor-names (fraction n) h = tt
parse_contributor-names (text s) h = tt
parse_contributor-names (array xs) h = tt

parse_lines-names :
    (i : ℕ) (xs : Items)
    → (parse_lines i xs).1 ≡ []
    → All (λ l. is_blank l.party_local_id ≡ false) (parse_lines i xs).0
unfolding parse_lines parse_line
parse_lines-names i no_items h = tt
parse_lines-names i (item (object raw) xs) h =
    let (this, rest) = append-eq_nil (parse_line i (object raw)).1 _ h in
    let (more, nil) = append-eq_nil (parse_lines (suc i) xs).1 _ rest in
    let (party, others) =
      append-eq_nil (require_text (get_field raw "party_local_id") _).1 _ this in
    (require_text-or (get_field raw "party_local_id") _ party, parse_lines-names (suc i) xs more)
parse_lines-names i (item Json.null xs) h = absurd (ground arith)
parse_lines-names i (item (bool b) xs) h = absurd (ground arith)
parse_lines-names i (item (integer n) xs) h = absurd (ground arith)
parse_lines-names i (item (fraction n) xs) h = absurd (ground arith)
parse_lines-names i (item (text s) xs) h = absurd (ground arith)
parse_lines-names i (item (array ys) xs) h = absurd (ground arith)

check_lines-names : (v : Json) → (check_lines v).1 ≡ [] → AreGiven (line_names (check_lines v).0)
unfolding check_lines
check_lines-names (array (item x xs)) h =
    All-map (λ l. l.party_local_id) (parse_lines 0 (item x xs)).0
      (parse_lines-names 0 (item x xs) h)
check_lines-names (array no_items) h = tt
check_lines-names Json.null h = tt
check_lines-names (bool b) h = tt
check_lines-names (integer n) h = tt
check_lines-names (fraction n) h = tt
check_lines-names (text s) h = tt
check_lines-names (object fs) h = tt

pub parse_split_sheet-names : Promises (λ d. AreGiven (line_names d.lines)) parse_split_sheet
unfolding parse_split_sheet
parse_split_sheet-names (object raw) h =
    let (e1, h1) = append-eq_nil (require_text (get_field raw "right_type") _).1 _ h in
    let (e2, h2) = append-eq_nil _ _ h1 in
    let (e3, h3) = append-eq_nil (require_text (get_field raw "asset_local_id") _).1 _ h2 in
    let (e4, h4) = append-eq_nil (check_lines (get_field raw "lines")).1 _ h3 in
    check_lines-names (get_field raw "lines") e4
parse_split_sheet-names Json.null h = tt
parse_split_sheet-names (bool b) h = tt
parse_split_sheet-names (integer n) h = tt
parse_split_sheet-names (fraction n) h = tt
parse_split_sheet-names (text s) h = tt
parse_split_sheet-names (array xs) h = tt

module _ (reader : Reader) where
  pub parse_work-names :
      Promises (λ d. AreGiven (contributor_names d.contributors)) (parse_work reader)
  unfolding parse_work
  parse_work-names (object raw) h =
      let (e1, h1) = append-eq_nil (require_text (get_field raw "local_id") _).1 _ h in
      let (e2, h2) = append-eq_nil (require_text (get_field raw "title") _).1 _ h1 in
      let (e3, h3) =
        append-eq_nil (check_language (get_or raw "language_code" (text "und")) _).1 _ h2 in
      let (e4, h4) = append-eq_nil (normalize_iswc reader (get_field raw "iswc") _).1 _ h3 in
      let (e5, h5) =
        append-eq_nil (check_texts (get_or raw "alternate_titles" (array no_items)) _).1 _ h4 in
      let (e6, h6) =
        append-eq_nil
          (parse_array parse_contributor _ (get_or raw "contributors" (array no_items))).1 _ h5 in
      IfSome-with_id (λ d. AreGiven (contributor_names d.contributors))
        (require_text (get_field raw "local_id") _).0 _
        λ id.
          All-map (λ c. c.party_local_id) _
            (parse_array-All (λ c. is_blank c.party_local_id ≡ false) parse_contributor _ _
              parse_contributor-names e6)
  parse_work-names Json.null h = tt
  parse_work-names (bool b) h = tt
  parse_work-names (integer n) h = tt
  parse_work-names (fraction n) h = tt
  parse_work-names (text s) h = tt
  parse_work-names (array xs) h = tt

  pub parse_recording-names :
      Promises (λ d. AreGiven (credit_names d.artist_credits)) (parse_recording reader)
  unfolding parse_recording
  parse_recording-names (object raw) h =
      let (e1, h1) = append-eq_nil (require_text (get_field raw "local_id") _).1 _ h in
      let (e2, h2) = append-eq_nil (require_text (get_field raw "title") _).1 _ h1 in
      let (e3, h3) =
        append-eq_nil (check_duration reader (get_field raw "duration_seconds") _).1 _ h2 in
      let (e4, h4) = append-eq_nil (normalize_isrc reader (get_field raw "isrc") _).1 _ h3 in
      let (e5, h5) = append-eq_nil (optional_text (get_field raw "audio_sha256") _).1 _ h4 in
      let (e6, h6) =
        append-eq_nil
          (check_audio reader _
            (optional_text (get_field raw "audio_sha256") "recording.audio_sha256").0).1
          _ h5 in
      let (e7, h7) =
        append-eq_nil (optional_text (get_field raw "fingerprint_schema_id") _).1 _ h6 in
      let (e8, h8) =
        append-eq_nil
          (parse_array parse_artist_credit _ (get_or raw "artist_credits" (array no_items))).1 _
          h7 in
      IfSome-with_id (λ d. AreGiven (credit_names d.artist_credits))
        (require_text (get_field raw "local_id") _).0 _
        λ id.
          All-map (λ c. c.party_local_id) _
            (parse_array-All (λ c. is_blank c.party_local_id ≡ false) parse_artist_credit _ _
              parse_artist_credit-names e8)
  parse_recording-names Json.null h = tt
  parse_recording-names (bool b) h = tt
  parse_recording-names (integer n) h = tt
  parse_recording-names (fraction n) h = tt
  parse_recording-names (text s) h = tt
  parse_recording-names (array xs) h = tt
