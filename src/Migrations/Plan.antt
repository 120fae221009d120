-- ===== src/Migrations/Plan.antt =====
-- db/migrations.py: the migrations, and `plan_migrations` over the ledger of those applied. The
-- texts of its messages are constructors, and the checksum and the requirements of a file, which
-- `discover_migrations` reads off its text, are given with it.
use Prim.Native.Char.{code}
use Prim.Native.Nat.{Ordering}
use Prim.Native.String.{compare}
use ugsync.Prelude.{
  ℕ, suc, ◌+◌, ◌-◌, ◌*◌, Bool, true, false, not, ◌&&◌, ◌||◌, Option, none, some, List, [], ◌∷◌,
  ◌++◌, map, String, str_eq, contains, any, keep_if, length, ltb, leb, ◌==◌, if◌then◌else◌,
}
use ugsync.Prelude.Sort.{sort_by}
use ugsync.Dict.{Dict, get, keys}
use ugsync.Exec.{Result, ok, err}

pub record Migration : Type 0 where
  pub filename : String
  pub sql : String
  pub checksum_sha256 : String
  pub requires : List String

-- `\d`, of which only the digits of ASCII are taken
abbrev pub is_digit : ℕ → Bool
is_digit c = leb b'0' c && leb c b'9'

-- `int` of the digits that a text starts with, after a number that was read before
unfoldable pub leading_number : ℕ → String → ℕ
leading_number n String.[] = n
leading_number n (String.◌∷◌ c s) =
    let rest = leading_number (n * 10 + (code c - b'0')) s in if is_digit (code c) then rest else n

-- `Migration.sequence`; `none` is the MigrationError.
unfoldable pub sequence : Migration → Option ℕ
unfolding leading_number
sequence m = elim m.filename [
  | String.[] ↦ none
  | String.◌∷◌ c s ↦ if is_digit (code c) then some (leading_number (code c - b'0') s) else none
]

pub data MigrationError : Type 0 where
  no_leading_digits not_ordered shared_sequence sequence_gap : MigrationError
  refusing_to_migrate : MigrationError
  apply_failed : (filename : String) → MigrationError

abbrev pub Checked : Type 0 → Type 0
Checked A = Result MigrationError A

abbrev pub and_then : {A B : Type 0} → Checked A → (A → Checked B) → Checked B
and_then (ok a) f = f a
and_then (err e) f = err e

abbrev pub cons_sequence : Option ℕ → Checked (List ℕ) → Checked (List ℕ)
cons_sequence none rest = err no_leading_digits
cons_sequence (some n) rest = and_then rest λ ns. ok (n ∷ ns)

unfoldable pub sequences : List Migration → Checked (List ℕ)
sequences [] = ok []
sequences (m ∷ ms) = cons_sequence (sequence m) (sequences ms)

unfoldable pub is_ordered : List ℕ → Bool
is_ordered [] = true
is_ordered (n ∷ []) = true
is_ordered (n ∷ k ∷ ns) = leb n k && is_ordered (k ∷ ns)

unfoldable pub has_duplicates : List ℕ → Bool
has_duplicates [] = false
has_duplicates (n ∷ ns) = any (λ k. k == n) ns || has_duplicates ns

-- `enumerate(sequences, start=n)`, each with its number
unfoldable pub counts_from : ℕ → List ℕ → Bool
counts_from n [] = true
counts_from n (k ∷ ks) = k == n && counts_from (suc n) ks

-- `_assert_ordered_and_complete`
unfoldable pub assert_ordered_and_complete : List Migration → Checked (List Migration)
assert_ordered_and_complete ms = and_then (sequences ms) λ ns.
    if not (is_ordered ns)
    then err not_ordered
    else if has_duplicates ns
    then err shared_sequence
    else if not (counts_from 1 ns)
    then err sequence_gap
    else ok ms

abbrev pub filename_le : Migration → Migration → Bool
filename_le a b = elim (compare a.filename b.filename) [ Ordering.gt ↦ false | _ ↦ true ]

-- The files in the order of their names.
unfoldable pub discover_migrations : List Migration → Checked (List Migration)
discover_migrations files = assert_ordered_and_complete (sort_by filename_le files)

pub data Reason : Type 0 where
  pending : Reason
  skipped_requirement : (unsatisfied : List String) → Reason

pub record PlannedMigration : Type 0 where
  pub migration : Migration
  pub reason : Reason

pub data PlanProblem : Type 0 where
  checksum_drift pending_after_skipped missing_file : (filename : String) → PlanProblem

pub record MigrationPlan : Type 0 where
  pub applied : List String
  pub pending : List PlannedMigration
  pub skipped : List PlannedMigration
  pub errors : List PlanProblem

-- `is_clean`
abbrev pub is_clean : MigrationPlan → Bool
is_clean p = length p.errors == 0

-- What the loop of `plan_migrations` has gathered, in order.
pub record Progress : Type 0 where
  pub pending : List PlannedMigration
  pub skipped : List PlannedMigration
  pub errors : List PlanProblem
  pub skipped_sequences : List ℕ

abbrev pub unsatisfied : List String → Migration → List String
unsatisfied enabled m = keep_if (λ r. not (contains enabled r)) m.requires

-- `migration.sequence`, which `discover_migrations` has read before
abbrev pub sequence_of : Migration → ℕ
sequence_of m = elim (sequence m) [ none ↦ 0 | some n ↦ n ]

abbrev pub note_recorded : Migration → String → Progress → Progress
note_recorded m prior p =
    if str_eq prior m.checksum_sha256
    then p
    else record p { errors = p.errors ++ checksum_drift m.filename ∷ [] }

abbrev pub skip : Migration → List String → Progress → Progress
skip m needs p = record p {
  skipped = p.skipped ++ record { migration = m; reason = skipped_requirement needs } ∷ [];
  skipped_sequences = sequence_of m ∷ p.skipped_sequences;
}

abbrev pub enlist : Migration → Progress → Progress
enlist m p = record p {
  pending = p.pending ++ record { migration = m; reason = pending } ∷ [];
  errors =
      if any (λ n. ltb n (sequence_of m)) p.skipped_sequences
      then p.errors ++ pending_after_skipped m.filename ∷ []
      else p.errors;
}

abbrev pub plan_unrecorded : Migration → List String → Progress → Progress
plan_unrecorded m [] p = enlist m p
plan_unrecorded m (r ∷ rs) p = skip m (r ∷ rs) p

abbrev pub plan_found : List String → Migration → Option String → Progress → Progress
plan_found enabled m (some prior) p = note_recorded m prior p
plan_found enabled m none p = plan_unrecorded m (unsatisfied enabled m) p

-- One round of the loop.
unfoldable pub plan_one : Dict String → List String → Migration → Progress → Progress
plan_one recorded enabled m p = plan_found enabled m (get recorded m.filename) p

unfoldable pub plan_each : Dict String → List String → List Migration → Progress → Progress
plan_each recorded enabled [] p = p
plan_each recorded enabled (m ∷ ms) p =
    plan_each recorded enabled ms (plan_one recorded enabled m p)

abbrev pub text_le : String → String → Bool
text_le a b = elim (compare a b) [ Ordering.gt ↦ false | _ ↦ true ]

-- `sorted(set(recorded) - known)`
abbrev pub without_file : List Migration → List String → List String
without_file ms names =
    keep_if (λ name. not (contains (map (λ m. m.filename) ms) name)) (sort_by text_le names)

abbrev pub empty_progress : Progress
empty_progress = record { pending = []; skipped = []; errors = []; skipped_sequences = [] }

abbrev pub plan_of : Dict String → List Migration → Progress → MigrationPlan
plan_of recorded ms p = record {
  applied = sort_by text_le (keys recorded);
  pending = p.pending;
  skipped = p.skipped;
  errors = p.errors ++ map missing_file (without_file ms (keys recorded));
}

-- `enabled` is in lower case.
unfoldable pub plan_migrations :
    Dict String → List Migration → (enabled : List String) → Checked MigrationPlan
plan_migrations recorded files enabled =
    and_then (discover_migrations files)
      λ ms. ok (plan_of recorded ms (plan_each recorded enabled ms empty_progress))
