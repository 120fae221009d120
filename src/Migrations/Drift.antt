-- ===== src/Migrations/Drift.antt =====
-- A file that changed after it was applied stops every migration.
use ugsync.Prelude.{
  ℕ, zero, suc, ◌≡◌, ◌≤◌, ◌<◌, refl, sym, subst, false, Option, none, some, List, [], ◌∷◌, ◌++◌,
  map, String, str_eq, length, length-append, get_elem?, arith,
}
use ugsync.Dict.{Dict, get, keys}
use ugsync.Exec.{ok, err}
use ugsync.Migrations.Plan.{
  Migration, refusing_to_migrate, PlanProblem, checksum_drift, missing_file, without_file,
  pending_after_skipped, Progress, unsatisfied, discover_migrations, plan_one, plan_each,
  plan_migrations, plan_of, empty_progress, is_clean, plan_found, plan_unrecorded,
}
use ugsync.Migrations.Run.{Database, recorded_migrations, run_migrations}

longer : (es : List PlanProblem) (e : PlanProblem) → length es < length (es ++ e ∷ [])
longer es e = omega (arith, length-append es (e ∷ []))

pub plan_unrecorded-grows :
    (m : Migration) (needs : List String) (p : Progress)
    → length p.errors ≤ length (plan_unrecorded m needs p).errors
plan_unrecorded-grows m [] p = ground (arith, longer p.errors (pending_after_skipped m.filename))
plan_unrecorded-grows m (r ∷ rs) p = omega arith

plan_found-grows :
    (enabled : List String) (m : Migration) (found : Option String) (p : Progress)
    → length p.errors ≤ length (plan_found enabled m found p).errors
plan_found-grows enabled m none p = plan_unrecorded-grows m (unsatisfied enabled m) p
plan_found-grows enabled m (some prior) p =
    ground (arith, longer p.errors (checksum_drift m.filename))

pub plan_each-grows :
    (recorded : Dict String) (enabled : List String) (ms : List Migration) (p : Progress)
    → length p.errors ≤ length (plan_each recorded enabled ms p).errors
unfolding plan_each plan_one
plan_each-grows recorded enabled [] p = omega arith
plan_each-grows recorded enabled (m ∷ ms) p = omega (
  arith,
  plan_found-grows enabled m (get recorded m.filename) p,
  plan_each-grows recorded enabled ms (plan_found enabled m (get recorded m.filename) p),
)

pub drift_found :
    (recorded : Dict String) (enabled : List String) (ms : List Migration) (p : Progress) (i : ℕ)
    {m : Migration} {prior : String}
    → get_elem? ms i ≡ some m
    → get recorded m.filename ≡ some prior
    → str_eq prior m.checksum_sha256 ≡ false
    → 0 < length (plan_each recorded enabled ms p).errors
unfolding plan_each plan_one
drift_found recorded enabled [] p i at found changed = absurd (ground arith)
drift_found recorded enabled (k ∷ ms) p (suc i) at found changed =
    drift_found recorded enabled ms (plan_found enabled k (get recorded k.filename) p) i at found
      changed
drift_found recorded enabled (k ∷ ms) p zero {m} {prior} at found changed =
    let same : k ≡ m = ground arith in
    let there : get recorded k.filename ≡ some prior = rw same found in
    let differs : str_eq prior k.checksum_sha256 ≡ false = rw same changed in
    let next : Progress = record p { errors = p.errors ++ checksum_drift k.filename ∷ [] } in
    let step : plan_found enabled k (get recorded k.filename) p ≡ next = rw (there, differs) refl in
    subst (λ q. 0 < length (plan_each recorded enabled ms q).errors) (sym step)
      (omega (
        arith,
        longer p.errors (checksum_drift k.filename),
        plan_each-grows recorded enabled ms next,
      ))

unclean :
    (recorded : Dict String) (ms : List Migration) (p : Progress)
    → 0 < length p.errors
    → is_clean (plan_of recorded ms p) ≡ false
unclean recorded ms p h =
    let more : 0 < length (plan_of recorded ms p).errors =
      omega (arith, length-append p.errors (map missing_file (without_file ms (keys recorded)))) in
    ground arith

module _ {Schema : Type 0} (execute : Migration → Schema → Option Schema) where
  -- Where the recorded checksum of any discovered migration is not that of its file, a run that is
  -- no dry run raises and leaves the database as it was.
  pub drift_refused :
      (files : List Migration) (enabled : List String) (db : Database Schema) (ms : List Migration)
      (i : ℕ) {m : Migration} {prior : String}
      → discover_migrations files ≡ ok ms
      → get_elem? ms i ≡ some m
      → get (recorded_migrations execute db) m.filename ≡ some prior
      → str_eq prior m.checksum_sha256 ≡ false
      → run_migrations execute files enabled false db ≡ (err refusing_to_migrate, db)
  unfolding run_migrations plan_migrations
  drift_refused files enabled db ms i discovered at found changed =
      let p = plan_each (recorded_migrations execute db) enabled ms empty_progress in
      let broken =
        drift_found (recorded_migrations execute db) enabled ms empty_progress i at found changed in
      rw (discovered, unclean (recorded_migrations execute db) ms p broken) refl
