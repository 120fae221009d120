-- ===== src/Royalties/Split.antt =====
-- royalties/calculator.py: split recipients and `_validate_split`.
use ugsync.Prelude.{
  ℕ, ◌||◌, List, [], ◌∷◌, map, String, length, sum, contains, leb, ◌==◌, not, strip, is_blank,
  if◌then◌else◌,
}
use ugsync.Prelude.Int.{ℤ, pos, negsuc}
use ugsync.Royalties.Outcome.{Outcome, ok, err, split_invalid}

abbrev pub basis_points_total : ℕ
basis_points_total = 10_000

pub record SplitRecipient : Type 0 where
  pub split_line_id : String
  pub party_id : String
  pub role : String
  pub share_basis_points : ℕ

-- The constructor: a share is any integer before it is checked.
unfoldable pub new_recipient : (split_line_id party_id role : String) → ℤ → Outcome SplitRecipient
new_recipient split_line_id party_id role (negsuc n) = err split_invalid
new_recipient split_line_id party_id role (pos n) =
    if is_blank (strip split_line_id) || is_blank (strip party_id) || is_blank (strip role)
    then err split_invalid
    else if leb n basis_points_total
    then ok (record {
      split_line_id = split_line_id;
      party_id = party_id;
      role = role;
      share_basis_points = n;
    })
    else err split_invalid

-- the members of `set(xs)`, each once
unfoldable pub distinct : List String → List String
distinct [] = []
distinct (x ∷ xs) = let rest = distinct xs in if contains rest x then rest else x ∷ rest

abbrev pub shares : List SplitRecipient → List ℕ
shares = map (λ r. r.share_basis_points)

abbrev pub line_ids : List SplitRecipient → List String
line_ids = map (λ r. r.split_line_id)

unfoldable pub validate_split : List SplitRecipient → Outcome (Unit {0})
validate_split [] = err split_invalid
validate_split (r ∷ rs) =
    if not (length (distinct (line_ids (r ∷ rs))) == length (r ∷ rs))
    then err split_invalid
    else if sum (shares (r ∷ rs)) == basis_points_total
    then ok tt
    else err split_invalid
