-- ===== src/Migrations/Tests.antt =====
-- Runs of the migrations, and their theorems at concrete inputs.
use ugsync.Prelude.{
  true, ◌≡◌, refl, false, Option, none, some, List, [], ◌∷◌, ◌++◌, String, contains,
}
use ugsync.Prelude.Sort.{sort_by, insert_by}
use ugsync.Dict.{get, put, keys}
use ugsync.Exec.{ok, err}
use ugsync.Migrations.Plan.{
  is_clean, Migration, MigrationPlan, refusing_to_migrate, discover_migrations,
  assert_ordered_and_complete, sequences, sequence, leading_number, is_ordered, has_duplicates,
  counts_from, plan_migrations, plan_each, plan_one, pending, shared_sequence,
}
use ugsync.Migrations.Run.{Database, apply_each, apply_migration, run_migrations}
use ugsync.Migrations.Drift.{drift_refused}
use ugsync.Migrations.Finished.{finished_run}

abbrev core : Migration
core = record {
  filename = "001_core.sql";
  sql = "BEGIN; COMMIT;";
  checksum_sha256 = "aa";
  requires = [];
}

abbrev auth : Migration
auth = record {
  filename = "002_auth.sql";
  sql = "BEGIN; COMMIT;";
  checksum_sha256 = "bb";
  requires = "supabase" ∷ [];
}

abbrev files : List Migration
files = auth ∷ core ∷ []

-- a schema is the list of the files executed on it
abbrev execute : Migration → List String → Option (List String)
execute m schema = some (schema ++ m.filename ∷ [])

abbrev new_database : Database (List String)
new_database = record { ledger = none; schema = [] }

discovers : discover_migrations files ≡ ok (core ∷ auth ∷ [])
unfolding discover_migrations assert_ordered_and_complete sequences sequence leading_number
    is_ordered has_duplicates counts_from sort_by insert_by
discovers = refl

shared_refused :
    discover_migrations (core ∷ record auth { filename = "001_auth.sql" } ∷ [])
    ≡ err shared_sequence
unfolding discover_migrations assert_ordered_and_complete sequences sequence leading_number
    is_ordered has_duplicates counts_from sort_by insert_by
shared_refused = refl

abbrev whole_plan : MigrationPlan
whole_plan = record {
  applied = [];
  pending =
      record { migration = core; reason = pending }
      ∷ record { migration = auth; reason = pending }
      ∷ [];
  skipped = [];
  errors = [];
}

plans : plan_migrations [] files ("supabase" ∷ []) ≡ ok whole_plan
unfolding plan_migrations discover_migrations assert_ordered_and_complete sequences sequence
    leading_number is_ordered has_duplicates counts_from sort_by insert_by plan_each plan_one get
    keys contains
plans = refl

abbrev drifted : Database (List String)
drifted = record { ledger = some (("001_core.sql", "cc") ∷ []); schema = "001_core.sql" ∷ [] }

recorded_core : get {V = String} (("001_core.sql", "cc") ∷ []) "001_core.sql" ≡ some "cc"
unfolding get
recorded_core = refl

drift_refused_example :
    run_migrations execute files [] false drifted ≡ (err refusing_to_migrate, drifted)
drift_refused_example =
    drift_refused execute files [] drifted (core ∷ auth ∷ []) 0 {m = core} {prior = "cc"} discovers
      refl recorded_core refl

abbrev migrated : Database (List String)
migrated = record {
  ledger = some (("001_core.sql", "aa") ∷ ("002_auth.sql", "bb") ∷ []);
  schema = "001_core.sql" ∷ "002_auth.sql" ∷ [];
}

abbrev final_plan : MigrationPlan
final_plan = record {
  applied = "001_core.sql" ∷ "002_auth.sql" ∷ [];
  pending = [];
  skipped = [];
  errors = [];
}

migrates :
    run_migrations execute files ("supabase" ∷ []) false new_database ≡ (ok final_plan, migrated)
unfolding run_migrations apply_each apply_migration plan_migrations discover_migrations
    assert_ordered_and_complete sequences sequence leading_number is_ordered has_duplicates
    counts_from sort_by insert_by plan_each plan_one get put keys contains
migrates = refl

finished_run_example : (final_plan.pending ≡ []) × (is_clean final_plan ≡ true)
finished_run_example =
    finished_run execute files ("supabase" ∷ []) new_database migrated final_plan migrates
