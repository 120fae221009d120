-- ===== src/Catalog/Checks.antt =====
-- catalog/models.py: the readers of single fields, with the list of errors that they extend, and
-- the regular expressions. `\d` and the cases of letters are the host's. The texts of the errors
-- are constructors.
use Prim.Native.Char.{code}
use Prim.Native.String.{◌++◌ as join}
use ugsync.Prelude.{
  ℕ, zero, suc, Bool, true, false, not, ◌&&◌, ◌||◌, Option, none, some, List, [], ◌∷◌, ◌++◌, String,
  strip, is_blank, is_space, len, prefix, ltb, leb, ◌==◌, if◌then◌else◌,
}
use ugsync.Ingest.Fields.{Json, null, text, Fields, get_field, has_field}

-- What the host provides: the case mappings, the characters of `\d`, and whether the text of a
-- number is zero, and lies above 0 and within six hours of seconds.
pub record Reader : Type 0 where
  pub upper : String → String
  pub lower : String → String
  pub is_decimal : ℕ → Bool
  pub is_zero : String → Bool
  pub is_duration : String → Bool

-- Each names the field it is about.
pub data FieldProblem : Type 0 where
  required too_long blank_given invalid not_listed wrong_link not_an_object not_an_array :
      (place : String) → FieldProblem
  unknown : (place ref : String) → FieldProblem
  duplicate over_total : (place : String) → FieldProblem
  -- no entry of the list: the OverflowError that `float` raises, which ends the parse
  float_overflow : FieldProblem

-- A value, and the errors appended on the way to it.
abbrev pub Check : Type 0 → Type 0
Check A = A × List FieldProblem

module _ {A : Type 0} where
  abbrev pub done : A → Check A
  done a = (a, [])

module _ {A B : Type 0} where
  infixl 5 ◌>>=◌ ◌>>◌
  abbrev pub ◌>>=◌ : Check A → (A → Check B) → Check B
  c >>= f = ((f c.0).0, c.1 ++ (f c.0).1)

  abbrev pub ◌>>◌ : Check A → Check B → Check B
  c >> d = c >>= λ a. d

abbrev pub report_if : Bool → FieldProblem → Check (Unit {0})
report_if b p = (tt, if b then p ∷ [] else [])

-- `raw.get(name, default)`
abbrev pub get_or : Fields → (name : String) → Json → Json
get_or fs name default = if has_field fs name then get_field fs name else default

unfoldable pub require_text : Json → (place : String) → Check (Option String)
require_text (text s) place =
    if is_blank (strip s)
    then (none, required place ∷ [])
    else (some (strip s), if ltb 400 (len (strip s)) then too_long place ∷ [] else [])
require_text _ place = (none, required place ∷ [])

unfoldable pub optional_text : Json → (place : String) → Check (Option String)
optional_text null place = (none, [])
optional_text (text s) place =
    if is_blank (strip s) then (none, blank_given place ∷ []) else (some (strip s), [])
optional_text _ place = (none, blank_given place ∷ [])

-- `x or default`, of a text
abbrev pub or_text : Option String → String → String
or_text none default = default
or_text (some s) default = if is_blank s then default else s

-- The end of a line: `$` also matches before a last newline.
unfoldable pub chomp : String → String
chomp String.[] = String.[]
chomp (String.◌∷◌ c s) =
    let rest = chomp s in if is_blank s && code c == 10 then String.[] else String.◌∷◌ c rest

-- One test for each character, in order, and no more.
unfoldable pub fits : List (ℕ → Bool) → String → Bool
fits [] String.[] = true
fits [] (String.◌∷◌ c s) = false
fits (p ∷ ps) String.[] = false
fits (p ∷ ps) (String.◌∷◌ c s) = p (code c) && fits ps s

unfoldable pub all_codes : (ℕ → Bool) → String → Bool
all_codes p String.[] = true
all_codes p (String.◌∷◌ c s) = p (code c) && all_codes p s

-- `re.sub` that drops the characters of a class
unfoldable pub drop_codes : (ℕ → Bool) → String → String
drop_codes p String.[] = String.[]
drop_codes p (String.◌∷◌ c s) =
    let rest = drop_codes p s in if p (code c) then rest else String.◌∷◌ c rest

-- `s[n:]`
unfoldable pub suffix : ℕ → String → String
suffix zero s = s
suffix (suc n) String.[] = String.[]
suffix (suc n) (String.◌∷◌ c s) = suffix n s

abbrev pub between : ℕ → ℕ → ℕ → Bool
between a b c = leb a c && leb c b

abbrev pub is_upper : ℕ → Bool
is_upper c = between b'A' b'Z' c

abbrev pub is_lower : ℕ → Bool
is_lower c = between b'a' b'z' c

abbrev pub is_ascii_digit : ℕ → Bool
is_ascii_digit c = between b'0' b'9' c

abbrev pub is_upper_or_digit : ℕ → Bool
is_upper_or_digit c = is_upper c || is_ascii_digit c

abbrev pub is_code : ℕ → ℕ → Bool
is_code a c = c == a

module _ (reader : Reader) where
  unfoldable pub is_isrc : String → Bool
  unfolding chomp fits
  is_isrc s =
      let d = reader.is_decimal in
      let an = is_upper_or_digit in
      fits (is_upper ∷ is_upper ∷ an ∷ an ∷ an ∷ d ∷ d ∷ d ∷ d ∷ d ∷ d ∷ d ∷ []) (chomp s)

  unfoldable pub is_canonical_iswc : String → Bool
  unfolding chomp fits
  is_canonical_iswc s =
      let d = reader.is_decimal in
      let dot = is_code b'.' in
      fits
        (is_code b'T'
          ∷ is_code b'-'
          ∷ d
          ∷ d
          ∷ d
          ∷ dot
          ∷ d
          ∷ d
          ∷ d
          ∷ dot
          ∷ d
          ∷ d
          ∷ d
          ∷ is_code b'-'
          ∷ d
          ∷ [])
        (chomp s)

  abbrev pub drop_separators : String → String
  drop_separators s = drop_codes (is_code b'-') (drop_codes (is_code b' ') s)

  abbrev pub check_isrc : (place : String) → Option String → Check (Option String)
  check_isrc place none = (none, [])
  check_isrc place (some raw) =
      let candidate = drop_separators (reader.upper raw) in
      if is_isrc candidate then (some candidate, []) else (none, invalid place ∷ [])

  unfoldable pub normalize_isrc : Json → (place : String) → Check (Option String)
  normalize_isrc value place = optional_text value place >>= check_isrc place

  -- `T-xxx.xxx.xxx-x`, of ten digits
  unfoldable pub iswc_of : String → String
  unfolding prefix suffix
  iswc_of digits = join "T-" (
      join (prefix 3 digits) (
        join "." (
          join (prefix 3 (suffix 3 digits)) (
            join "." (join (prefix 3 (suffix 6 digits)) (join "-" (prefix 1 (suffix 9 digits))))))))

  abbrev pub digits_of : String → String
  digits_of s = drop_codes (λ c. not (is_ascii_digit c)) s

  abbrev pub check_iswc : (place : String) → Option String → Check (Option String)
  check_iswc place none = (none, [])
  check_iswc place (some raw) =
      if is_canonical_iswc raw
      then (some raw, [])
      else if len (digits_of raw) == 10
      then (some (iswc_of (digits_of raw)), [])
      else (none, invalid place ∷ [])

  unfoldable pub normalize_iswc : Json → (place : String) → Check (Option String)
  normalize_iswc value place = optional_text value place >>= check_iswc place

  unfoldable pub is_upc : String → Bool
  unfolding chomp all_codes
  is_upc s = between 8 14 (len (chomp s)) && all_codes reader.is_decimal (chomp s)

unfoldable pub is_country : String → Bool
unfolding chomp fits
is_country s = fits (is_upper ∷ is_upper ∷ []) (chomp s)

unfoldable pub is_language : String → Bool
unfolding chomp fits
is_language s = fits (is_lower ∷ is_lower ∷ is_lower ∷ []) (chomp s)

-- `[^@\s]`
abbrev pub is_mail_code : ℕ → Bool
is_mail_code c = not (c == b'@') && not (is_space c)

-- A dot with a character before it, counted by `seen`, and one after it.
unfoldable pub has_inner_dot : (seen : Bool) → String → Bool
has_inner_dot seen String.[] = false
has_inner_dot seen (String.◌∷◌ c s) =
    (seen && code c == b'.' && not (is_blank s)) || has_inner_dot true s

-- The local part up to the first `@`, then the domain.
unfoldable pub mail_from : (seen : Bool) → String → Bool
unfolding all_codes has_inner_dot
mail_from seen String.[] = false
mail_from seen (String.◌∷◌ c s) =
    let rest = mail_from true s in
    if code c == b'@'
    then seen && all_codes is_mail_code s && has_inner_dot false s
    else is_mail_code (code c) && rest

unfoldable pub is_email : String → Bool
unfolding chomp mail_from
is_email s = mail_from false (chomp s)
