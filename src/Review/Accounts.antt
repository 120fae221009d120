-- ===== src/Review/Accounts.antt =====
-- review/auth.py: portal accounts, and the resolution of an Authorization header to a user. Drawing a
-- random token is left out.
use Prim.Native.Char.{code}
use ugsync.Exec.Rules.{Result-cases}
use ugsync.Prelude.{
  is_ascii, ◌⊎◌, ℕ, ◌+◌, ◌≡◌, Bool, true, false, not, ◌&&◌, Option, none, some, List, [], ◌∷◌,
  String, str_eq, eq_iff, strip, is_blank, contains, leb, if◌then◌else◌, arith, Bool-cases, inl,
  inr,
}
use ugsync.Dict.{Dict, put}
use ugsync.Exec.{Exec, Result, ok, err, raise_if, pure, modify, ◌>>◌}
use ugsync.Review.Models.{PortalUser, roles}

pub record PortalAccount : Type 0 where
  pub user_id : String
  pub role : String
  pub token : String
  pub display_name : String
  pub party_id : Option String

abbrev pub to_user : PortalAccount → PortalUser
to_user a = record {
  user_id = a.user_id;
  role = a.role;
  display_name = a.display_name;
  party_id = a.party_id;
}

pub data AccountError : Type 0 where
  value_error missing_header malformed_header invalid_token : AccountError
  type_error : AccountError  -- of `hmac.compare_digest`, no ReviewForbidden

-- `_by_token`
abbrev pub PortalUserDirectory : Type 0
PortalUserDirectory = Dict PortalAccount

unfoldable pub register_account :
    PortalAccount → Exec AccountError PortalUserDirectory PortalAccount
register_account account = do
  raise_if (not (contains roles account.role)) value_error
  modify (λ d. put d account.token account)
  pure account

-- `header.split(" ", 1)` of a text with a space in it: what stands before the first and behind it
unfoldable pub split_once : String → Option (String × String)
split_once String.[] = none
split_once (String.◌∷◌ c s) =
    let rest = split_once s in
    if leb 32 (code c) && leb (code c) 32
    then some (String.[], s)
    else elim rest [ none ↦ none | some parts ↦ some (String.◌∷◌ c parts.0, parts.1) ]

abbrev pub lower_letter : ℕ → ℕ
lower_letter c = if leb b'A' c && leb c b'Z' then c + 32 else c

-- `scheme.lower() == "bearer"`: no other letter's lower case is one of these.
unfoldable pub lowers_to : String → String → Bool
lowers_to String.[] String.[] = true
lowers_to (String.◌∷◌ c s) (String.◌∷◌ k t) =
    leb (lower_letter (code c)) (code k) && leb (code k) (lower_letter (code c)) && lowers_to s t
lowers_to _ _ = false

abbrev pub bearer_token : Option (String × String) → Option String
bearer_token none = none
bearer_token (some parts) =
    if lowers_to parts.0 "bearer" && not (is_blank (strip parts.1))
    then some (strip parts.1)
    else none

-- `none` and the empty text are a header that is missing.
abbrev pub checked_header : Option String → Result AccountError String
checked_header none = err missing_header
checked_header (some h) =
    if is_blank h
    then err missing_header
    else elim (bearer_token (split_once h)) [ none ↦ err malformed_header | some token ↦ ok token ]

-- `next((a for a in accounts if hmac.compare_digest(a.token, presented)), None)`: a comparison raises
-- where one of its texts is not ASCII.
unfoldable pub search_token : String → PortalUserDirectory → Result AccountError PortalAccount
search_token presented [] = err invalid_token
search_token presented ((key, a) ∷ d) =
    let rest = search_token presented d in
    if not (is_ascii a.token && is_ascii presented)
    then err type_error
    else if str_eq a.token presented
    then ok a
    else rest

abbrev pub found_user : Result AccountError PortalAccount → Result AccountError PortalUser
found_user (ok a) = ok (to_user a)
found_user (err e) = err e

abbrev pub match_account :
    PortalUserDirectory → Result AccountError String → Result AccountError PortalUser
match_account d (err e) = err e
match_account d (ok presented) = found_user (search_token presented d)

unfoldable pub resolve_header : PortalUserDirectory → Option String → Result AccountError PortalUser
resolve_header d header = match_account d (checked_header header)

-- Accounts registered one after the other; those that are refused change nothing.
abbrev pub registered : List PortalAccount → PortalUserDirectory → PortalUserDirectory
registered [] d = d
registered (a ∷ accounts) d = registered accounts (register_account a d).1

-- Every account in the directory has a role that exists.
abbrev pub HasRoles : PortalUserDirectory → Type 0
HasRoles [] = Unit
HasRoles ((token, a) ∷ d) = (contains roles a.role ≡ true) × HasRoles d

HasRoles-put :
    (d : PortalUserDirectory) (k : String) (a : PortalAccount)
    → contains roles a.role ≡ true
    → HasRoles d
    → HasRoles (put d k a)
unfolding put
HasRoles-put [] k a h all = (h, tt)
HasRoles-put ((j, b) ∷ d) k a h all = elim (Bool-cases (str_eq j k)) [
  | inl here ↦ rw here (h, all.1)
  | inr elsewhere ↦ rw elsewhere (all.0, HasRoles-put d k a h all.1)
]

registered-HasRoles :
    (accounts : List PortalAccount) (d : PortalUserDirectory)
    → HasRoles d
    → HasRoles (registered accounts d)
unfolding register_account
registered-HasRoles [] d all = all
registered-HasRoles (a ∷ accounts) d all = elim (Bool-cases (contains roles a.role)) [
  | inl known ↦
      rw known (registered-HasRoles accounts (put d a.token a) (HasRoles-put d a.token a known all))
  | inr unknown ↦ rw unknown (registered-HasRoles accounts d all)
]

-- The account is one of the directory's.
abbrev pub IsListed : PortalAccount → PortalUserDirectory → Type 0
IsListed a [] = ⊥
IsListed a ((key, b) ∷ d) = (b ≡ a) ⊎ IsListed a d

found_account :
    (presented : String) (d : PortalUserDirectory) (a : PortalAccount)
    → HasRoles d
    → search_token presented d ≡ ok a
    → IsListed a d × (a.token ≡ presented) × (contains roles a.role ≡ true)
unfolding search_token
found_account presented [] a all h = absurd (ground arith)
found_account presented ((key, b) ∷ d) a all h =
    elim (Bool-cases (is_ascii b.token && is_ascii presented)) [
      | inr raises ↦ absurd (ground arith)
      | inl ascii ↦ elim (Bool-cases (str_eq b.token presented)) [
        | inl same ↦
            let here : b ≡ a = ground arith in
            (inl here, rw (← here) ((eq_iff b.token presented).0 same), rw (← here) all.0)
        | inr differs ↦
            let (listed, token, role) = found_account presented d a all.1 (ground arith) in
            (inr listed, token, role)
      ]
    ]

-- Whom a header resolves to: the user of a listed account whose token it presents.
pub record Resolves (d : PortalUserDirectory) (header : Option String) (user : PortalUser)
    : Type 0 where
  pub account : PortalAccount
  pub presented : String
  pub parsed : checked_header header ≡ ok presented
  pub listed : IsListed account d
  pub same_token : account.token ≡ presented
  pub same_user : to_user account ≡ user
  pub role_exists : contains roles user.role ≡ true

-- In a directory filled from empty by registrations, refused ones included, a header that resolves
-- carries a bearer token that is the token of a listed account, and resolves to its user, whose role
-- is one of the portal's.
pub resolve_header-Resolves :
    (accounts : List PortalAccount) (header : Option String) (user : PortalUser)
    → resolve_header (registered accounts []) header ≡ ok user
    → Resolves (registered accounts []) header user
unfolding resolve_header
resolve_header-Resolves accounts header user h = elim (Result-cases (checked_header header)) [
  | inr (e, failed) ↦ absurd (ground arith)
  | inl (presented, read) ↦ elim (Result-cases (search_token presented (registered accounts []))) [
    | inr (e, missing) ↦ absurd (ground arith)
    | inl (account, found) ↦
        let (listed, token, role) =
          found_account presented (registered accounts []) account
            (registered-HasRoles accounts [] tt) found in
        let same : to_user account ≡ user = ground arith in
        record {
          account = account;
          presented = presented;
          parsed = read;
          listed = listed;
          same_token = token;
          same_user = same;
          role_exists = rw (← same) role;
        }
  ]
]
