-- ===== src/Catalog/Accepted.antt =====
-- What the parsers of the entries of an onboarding promise where they report no error.
use ugsync.Prelude.{
  All, ◌≡◌, refl, Bool, true, false, Option, none, some, List, [], ◌∷◌, ◌++◌, String, strip,
  is_blank, arith, Bool-cases, inl, inr, if◌then◌else◌,
}
use ugsync.Ingest.Fields.{
  Json, bool, integer, fraction, text, array, object, Items, no_items, item, get_field,
}
use ugsync.Ingest.Manifest.Readers.{append-eq_nil}
use ugsync.Catalog.Checks.{Check, FieldProblem, require_text, or_text}
use ugsync.Catalog.Entries.{
  with_id, is_outside, cons_some, check_link, parse_party, parse_items, parse_array,
}
use ugsync.Catalog.Resolved.{IsLinked}

abbrev pub IfSome : {A : Type 0} → (A → Type 0) → Option A → Type 0
IfSome P none = Unit
IfSome P (some a) = P a

-- A text that was required and is not blank.
abbrev pub IsText : Option String → Type 0
IsText none = Unit {0}
IsText (some s) = is_blank s ≡ false

pub require_text-reads :
    (v : Json) (place : String)
    → (require_text v place).1 ≡ []
    → (s : String) × ((require_text v place).0 ≡ some s) × (is_blank s ≡ false)
unfolding require_text
require_text-reads (text s) place h = elim (Bool-cases (is_blank (strip s))) [
  | inl blank ↦ absurd (ground arith)
  | inr full ↦ (strip s, rw full refl, full)
]
require_text-reads Json.null place h = absurd (ground arith)
require_text-reads (bool b) place h = absurd (ground arith)
require_text-reads (integer n) place h = absurd (ground arith)
require_text-reads (fraction n) place h = absurd (ground arith)
require_text-reads (array xs) place h = absurd (ground arith)
require_text-reads (object fs) place h = absurd (ground arith)

-- The text that stands for what was required.
pub require_text-or :
    (v : Json) (place : String)
    → (require_text v place).1 ≡ []
    → is_blank (or_text (require_text v place).0 "") ≡ false
require_text-or v place h =
    let (s, read, full) = require_text-reads v place h in rw (read, full) full

-- Of a parser: where it reports nothing, what it has parsed has `P`.
abbrev pub Promises : {A : Type 0} → (A → Type 0) → (Json → Check (Option A)) → Type 0
Promises P parse = (v : Json) → (parse v).1 ≡ [] → IfSome P (parse v).0

module _ {A : Type 0} (P : A → Type 0) where
  pub All-cons_some : (o : Option A) (xs : List A) → IfSome P o → All P xs → All P (cons_some o xs)
  All-cons_some none xs p ps = ps
  All-cons_some (some x) xs p ps = (p, ps)

  pub IfSome-with_id :
      (o : Option String) (f : String → Check A)
      → ((id : String) → P (f id).0)
      → IfSome P (with_id o f).0
  IfSome-with_id none f h = tt
  IfSome-with_id (some id) f h = h id

  parse_items-All :
      (parse : Json → Check (Option A)) (xs : Items)
      → Promises P parse
      → (parse_items parse xs).1 ≡ []
      → All P (parse_items parse xs).0
  unfolding parse_items
  parse_items-All parse no_items promises h = tt
  parse_items-All parse (item x xs) promises h =
      let (this, rest) = append-eq_nil (parse x).1 _ h in
      let (more, nil) = append-eq_nil (parse_items parse xs).1 _ rest in
      All-cons_some (parse x).0 _ (promises x this) (parse_items-All parse xs promises more)

  pub parse_array-All :
      (parse : Json → Check (Option A)) (place : String) (v : Json)
      → Promises P parse
      → (parse_array parse place v).1 ≡ []
      → All P (parse_array parse place v).0
  unfolding parse_array
  parse_array-All parse place (array xs) promises h = parse_items-All parse xs promises h
  parse_array-All parse place Json.null promises h = absurd (ground arith)
  parse_array-All parse place (bool b) promises h = absurd (ground arith)
  parse_array-All parse place (integer n) promises h = absurd (ground arith)
  parse_array-All parse place (fraction n) promises h = absurd (ground arith)
  parse_array-All parse place (text s) promises h = absurd (ground arith)
  parse_array-All parse place (object fs) promises h = absurd (ground arith)

pub is_outside-none :
    (names : List String) (o : Option String) → is_outside names o ≡ false → IsLinked names o
is_outside-none names none h = tt
is_outside-none names (some x) h = ground (arith, h)

pub unreported : (b : Bool) (p : FieldProblem) → (if b then p ∷ [] else []) ≡ [] → b ≡ false
unreported true p h = absurd (ground arith)
unreported false p h = refl

linked :
    (ids : List String) (read : Check (Option String)) (p : FieldProblem)
    → read.1 ++ ((if is_outside ids read.0 then p ∷ [] else []) ++ []) ≡ []
    → IsLinked ids read.0
linked ids read p h =
    let (clean, rest) = append-eq_nil read.1 _ h in
    let (inside, nil) = append-eq_nil (if is_outside ids read.0 then p ∷ [] else []) [] rest in
    is_outside-none ids read.0 (unreported (is_outside ids read.0) p inside)

check_link-IsLinked :
    (ids : List String) (v : Json) → (check_link ids v).1 ≡ [] → IsLinked ids (check_link ids v).0
unfolding check_link
check_link-IsLinked ids Json.null h = tt
check_link-IsLinked ids (text s) h = linked ids (require_text (text s) _) _ h
check_link-IsLinked ids (bool b) h = linked ids (require_text (bool b) _) _ h
check_link-IsLinked ids (integer n) h = linked ids (require_text (integer n) _) _ h
check_link-IsLinked ids (fraction n) h = linked ids (require_text (fraction n) _) _ h
check_link-IsLinked ids (array xs) h = linked ids (require_text (array xs) _) _ h
check_link-IsLinked ids (object fs) h = linked ids (require_text (object fs) _) _ h

pub parse_party-IsLinked :
    (ids : List String) → Promises (λ p. IsLinked ids p.organization_local_id) (parse_party ids)
unfolding parse_party
parse_party-IsLinked ids (object raw) h =
    let (e1, h1) = append-eq_nil (require_text (get_field raw "local_id") _).1 _ h in
    let (e2, h2) = append-eq_nil (require_text (get_field raw "legal_name") _).1 _ h1 in
    let (e3, h3) = append-eq_nil (require_text (get_field raw "party_kind") _).1 _ h2 in
    let (e4, h4) = append-eq_nil _ _ h3 in
    let (e5, h5) = append-eq_nil (check_link ids (get_field raw "organization_local_id")).1 _ h4 in
    IfSome-with_id (λ p. IsLinked ids p.organization_local_id)
      (require_text (get_field raw "local_id") _).0 _ λ id. check_link-IsLinked ids _ e5
parse_party-IsLinked ids Json.null h = tt
parse_party-IsLinked ids (bool b) h = tt
parse_party-IsLinked ids (integer n) h = tt
parse_party-IsLinked ids (fraction n) h = tt
parse_party-IsLinked ids (text s) h = tt
parse_party-IsLinked ids (array xs) h = tt
