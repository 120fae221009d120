-- ===== src/Migrations/Run.antt =====
-- db/migrations.py, `run_migrations`. The database is its ledger and a schema, on which the server
-- executes the SQL that `_apply_sql` makes of a file: `execute`, an argument, gives the new schema, or
-- none where the server fails. That this SQL is one transaction, which also inserts the ledger row,
-- is assumed, and is not read off the text. The file name is the ledger's primary key.
use ugsync.Prelude.{Bool, not, Option, none, some, List, [], ◌∷◌, String, is_some, if◌then◌else◌}
use ugsync.Dict.{Dict, get, put}
use ugsync.Exec.{Exec, pure, raise, raise_if, gets, modify, ◌>>=◌, ◌>>◌}
use ugsync.Migrations.Plan.{
  Migration, MigrationError, refusing_to_migrate, apply_failed, Checked, PlannedMigration,
  MigrationPlan, is_clean, plan_migrations,
}

pub record Database (Schema : Type 0) : Type 0 where
  pub ledger : Option (Dict String)
  pub schema : Schema

abbrev pub or_empty : Option (Dict String) → Dict String
or_empty none = []
or_empty (some ledger) = ledger

module _ {Schema : Type 0} (execute : Migration → Schema → Option Schema) where
  abbrev pub Migrate : Type 0 → Type 0
  Migrate A = Exec MigrationError (Database Schema) A

  -- `_recorded_migrations`
  abbrev pub recorded_migrations : Database Schema → Dict String
  recorded_migrations db = or_empty db.ledger

  abbrev pub created_ledger : Database Schema → Database Schema
  created_ledger db = record db { ledger = some (recorded_migrations db) }

  -- How the execution of one file ends: `commit`, or `rollback` and an error.
  abbrev pub commit_migration : Migration → Option Schema → Migrate (Unit {0})
  commit_migration m none = raise (apply_failed m.filename)
  commit_migration m (some schema) = modify (λ db. record {
    ledger = some (put (recorded_migrations db) m.filename m.checksum_sha256);
    schema = schema;
  })

  unfoldable pub apply_migration : Migration → Migrate (Unit {0})
  apply_migration m = do
    raise_if (is_some (← gets (λ db. get (recorded_migrations db) m.filename)))
        (apply_failed m.filename)
    schema ← gets (λ db. execute m db.schema)
    commit_migration m schema

  unfoldable pub apply_each : List PlannedMigration → Migrate (Unit {0})
  apply_each [] = pure tt
  apply_each (item ∷ items) = do apply_migration item.migration; apply_each items

  abbrev pub lift : {A : Type 0} → Checked A → Migrate A
  lift r db = (r, db)

  abbrev pub plan_now : List Migration → (enabled : List String) → Migrate MigrationPlan
  plan_now files enabled db = (plan_migrations (recorded_migrations db) files enabled, db)

  abbrev pub apply_plan :
      List Migration → (enabled : List String) → MigrationPlan → Migrate MigrationPlan
  apply_plan files enabled plan = do
    raise_if (not (is_clean plan)) refusing_to_migrate
    modify created_ledger
    apply_each plan.pending
    plan_now files enabled

  unfoldable pub run_migrations :
      List Migration → (enabled : List String) → (dry_run : Bool) → Migrate MigrationPlan
  run_migrations files enabled dry_run = do
    plan ← plan_now files enabled
    λ db. if dry_run then pure plan db else apply_plan files enabled plan db
