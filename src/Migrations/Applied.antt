-- ===== src/Migrations/Applied.antt =====
-- What a run of the migrations does to the database, whether it succeeds or fails.
use ugsync.Prelude.{
  ℕ, suc, ◌≡◌, refl, true, false, Option, none, some, List, [], ◌∷◌, map, String, take, length,
  get_elem?, arith, Option-cases, inl, inr,
}
use ugsync.Dict.{Dict, get, put}
use ugsync.Exec.{Result, ok, err}
use ugsync.Migrations.Plan.{
  Migration, MigrationError, apply_failed, PlannedMigration, MigrationPlan, is_clean,
  plan_migrations,
}
use ugsync.Migrations.Run.{
  Database, recorded_migrations, created_ledger, apply_migration, apply_each, run_migrations,
}

-- The rows of migrations, written one after the other.
abbrev pub note_all : List Migration → Dict String → Dict String
note_all [] ledger = ledger
note_all (m ∷ ms) ledger = note_all ms (put ledger m.filename m.checksum_sha256)

abbrev pub migrations_of : List PlannedMigration → List Migration
migrations_of = map (λ item. item.migration)

module _ {Schema : Type 0} (execute : Migration → Schema → Option Schema) where
  -- Migrations executed one after the other, as far as they all succeed.
  abbrev pub execute_all : List Migration → Schema → Option Schema
  execute_all [] schema = some schema
  execute_all (m ∷ ms) schema = elim (execute m schema) [
    | none ↦ none
    | some next ↦ execute_all ms next
  ]

  -- How the application of planned migrations ended: all of them are applied, or the first `n` and
  -- the next one failed.
  pub data Ends (ms : List Migration) (n : ℕ) : Result MigrationError (Unit {0}) → Type 0 where
    all_applied : n ≡ length ms → Ends ms n (ok tt)
    one_failed :
        (m : Migration) → get_elem? ms n ≡ some m → Ends ms n (err (apply_failed m.filename))

  pub record Applied (ms : List Migration) (db : Database Schema)
      (r : Result MigrationError (Unit {0})) (db' : Database Schema) : Type 0 where
    pub count : ℕ
    pub executed : execute_all (take count ms) db.schema ≡ some db'.schema
    pub noted :
        recorded_migrations execute db' ≡ note_all (take count ms) (recorded_migrations execute db)
    pub ends : Ends ms count r

  one_more :
      (m : Migration) (ms : List Migration) (n : ℕ) {r : Result MigrationError (Unit {0})}
      → Ends ms n r
      → Ends (m ∷ ms) (suc n) r
  one_more m ms n (all_applied h) = all_applied (omega (arith, h))
  one_more m ms n (one_failed k h) = one_failed k h

  pub apply_each-Applied :
      (items : List PlannedMigration) (db : Database Schema)
      → (r : Result MigrationError (Unit {0})) × (db' : Database Schema) × (apply_each execute items
            db
          ≡ (r, db'))
        × Applied (migrations_of items) db r db'
  unfolding apply_each apply_migration
  apply_each-Applied [] db = (
    ok tt,
    db,
    refl,
    record { count = 0; executed = refl; noted = refl; ends = all_applied refl },
  )
  apply_each-Applied (item ∷ items) db =
      elim (Option-cases (get (recorded_migrations execute db) item.migration.filename)) [
        | inr (prior, found) ↦ (
          err (apply_failed item.migration.filename),
          db,
          rw found refl,
          record {
            count = 0;
            executed = refl;
            noted = refl;
            ends = one_failed item.migration refl;
          },
        )
        | inl new ↦ elim (Option-cases (execute item.migration db.schema)) [
          | inl failed ↦ (
            err (apply_failed item.migration.filename),
            db,
            rw (new, failed) refl,
            record {
              count = 0;
              executed = refl;
              noted = refl;
              ends = one_failed item.migration refl;
            },
          )
          | inr (schema, done) ↦
              let mid : Database Schema = record {
                ledger = some (
                    put (recorded_migrations execute db) item.migration.filename
                      item.migration.checksum_sha256);
                schema = schema;
              } in
              let (r, db', ran, applied) = apply_each-Applied items mid in
              (
                r,
                db',
                rw (new, done) ran,
                record {
                  count = suc applied.count;
                  executed = rw done applied.executed;
                  noted = applied.noted;
                  ends = one_more item.migration (migrations_of items) applied.count applied.ends;
                },
              )
        ]
      ]

  -- The plan that a run returns, where applying did not fail.
  abbrev pub planned_again :
      Result MigrationError (Unit {0})
      → Result MigrationError MigrationPlan
      → Result MigrationError MigrationPlan
  planned_again (ok u) plan = plan
  planned_again (err e) plan = err e

  pub record Runs (files : List Migration) (enabled : List String) (p : MigrationPlan)
      (db : Database Schema) : Type 0 where
    pub result : Result MigrationError (Unit {0})
    pub after : Database Schema
    pub applied : Applied (migrations_of p.pending) db result after
    pub ran : run_migrations execute files enabled false db ≡ (
      planned_again result (plan_migrations (recorded_migrations execute after) files enabled),
      after,
    )

  ran_as :
      (files : List Migration) (enabled : List String) (p : MigrationPlan)
      (db db' : Database Schema) (r : Result MigrationError (Unit {0}))
      → plan_migrations (recorded_migrations execute db) files enabled ≡ ok p
      → is_clean p ≡ true
      → apply_each execute p.pending (created_ledger execute db) ≡ (r, db')
      → run_migrations execute files enabled false db
        ≡ (planned_again r (plan_migrations (recorded_migrations execute db') files enabled), db')
  unfolding run_migrations
  ran_as files enabled p db db' (ok u) planned clean applied = rw (planned, clean, applied) refl
  ran_as files enabled p db db' (err e) planned clean applied = rw (planned, clean, applied) refl

  -- A run that is no dry run, on a clean plan, applies the first so many of the pending migrations,
  -- in order: their SQL is executed on the schema one after the other, and exactly their rows are
  -- added to the ledger. Either these are all, and the result is the plan from there, or the next
  -- one fails, which the result names, and it and all after it leave no trace.
  pub run_migrations-Runs :
      (files : List Migration) (enabled : List String) (p : MigrationPlan) (db : Database Schema)
      → plan_migrations (recorded_migrations execute db) files enabled ≡ ok p
      → is_clean p ≡ true
      → Runs files enabled p db
  run_migrations-Runs files enabled p db planned clean =
      let (r, db', ran, applied) = apply_each-Applied p.pending (created_ledger execute db) in
      record {
        result = r;
        after = db';
        applied = record {
          count = applied.count;
          executed = applied.executed;
          noted = applied.noted;
          ends = applied.ends;
        };
        ran = ran_as files enabled p db db' r planned clean ran;
      }
