-- ===== src/Review/Guards.antt =====
-- review/service.py: who may call, and the checks of a request's limit, offset and note. `Supply`
-- holds what the two `uuid4()` and the `_utcnow()` calls of one request return, in order.
use ugsync.Prelude.{
  ℕ, min, not, Option, none, some, List, [], ◌∷◌, String, str_eq, ltb, contains, strip, len,
}
use ugsync.Prelude.Int.{ℤ, pos, negsuc}
use ugsync.Exec.{pure, raise, raise_if, ◌>>◌}
use ugsync.Review.Models.{PortalUser, DetectionEvidence, validation, forbidden}
use ugsync.Review.Writes.{Action}

abbrev pub review_roles : List String
review_roles = "reviewer" ∷ "catalog_admin" ∷ []

abbrev pub dispute_resolution_roles : List String
dispute_resolution_roles = "finance_reviewer" ∷ "catalog_admin" ∷ []

abbrev pub dispute_reasons : List String
dispute_reasons =
    "wrong_identity" ∷ "wrong_duration" ∷ "wrong_source" ∷ "wrong_split" ∷ "duplicate" ∷ "other"
    ∷ []

abbrev pub max_note : ℕ
max_note = 2000

pub record Supply : Type 0 where
  pub dispute_id : String
  pub audit_id : String
  pub now : ℕ
  pub later : ℕ

pub record QueuePage : Type 0 where
  pub items : List DetectionEvidence
  pub total : ℕ
  pub limit : ℕ
  pub offset : ℕ

unfoldable pub require_authenticated : PortalUser → Action (Unit {0})
require_authenticated user = raise_if (str_eq user.user_id "") forbidden

unfoldable pub require_role : PortalUser → List String → Action (Unit {0})
unfolding require_authenticated
require_role user allowed = do
  require_authenticated user
  raise_if (not (contains allowed user.role)) forbidden

-- On success the limit lies between 1 and 200.
unfoldable pub bounded_limit : ℤ → Action ℕ
bounded_limit (negsuc n) = raise validation
bounded_limit (pos n) = do raise_if (ltb n 1) validation; pure (min n 200)

-- `offset < 0` is refused.
unfoldable pub non_negative : ℤ → Action ℕ
non_negative (negsuc n) = raise validation
non_negative (pos n) = pure n

abbrev pub checked_note : String → ℕ → Action String
checked_note cleaned minimum = do
  raise_if (ltb (len cleaned) minimum) validation
  raise_if (ltb max_note (len cleaned)) validation
  pure cleaned

unfoldable pub require_note : Option String → (minimum : ℕ) → Action String
require_note none minimum = raise validation
require_note (some note) minimum = checked_note (strip note) minimum
