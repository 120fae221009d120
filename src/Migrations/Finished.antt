-- ===== src/Migrations/Finished.antt =====
-- A migration run that returns leaves nothing to do and nothing wrong.
use ugsync.Prelude.{
  ℕ, ◌+◌, ◌≡◌, ◌∙◌, refl, sym, ap, subst, true, false, Option, List, [], ◌∷◌, map, String, length,
  All, arith, Bool-cases, inl, inr, take, length-map, length-append,
}
use ugsync.Prelude.Sort.{sort_by}
use ugsync.Dict.{Dict, get, keys}
use ugsync.Exec.{Result, ok}
use ugsync.Exec.Rules.{Result-cases}
use ugsync.Migrations.Plan.{
  Migration, MigrationError, MigrationPlan, Progress, is_clean, plan_each, plan_of, empty_progress,
  plan_migrations, discover_migrations, assert_ordered_and_complete, sequences, has_duplicates,
  filename_le, without_file, missing_file,
}
use ugsync.Migrations.Run.{Database, recorded_migrations, run_migrations}
use ugsync.Migrations.Applied.{
  note_all, migrations_of, Ends, all_applied, one_failed, planned_again, run_migrations-Runs,
}
use ugsync.Migrations.Todo.{todo, IsDistinct, files-IsDistinct, undrifted}
use ugsync.Migrations.Complete.{pending-todo, all_vouched, All-todo}
use ugsync.Migrations.Settled.{
  replanned-IsQuiet, length-without_file, unknown, unknown-note_all, known_files,
}

assert-IsDistinct :
    (given ms : List Migration) → assert_ordered_and_complete given ≡ ok ms → IsDistinct ms
unfolding assert_ordered_and_complete
assert-IsDistinct given ms h = elim (Result-cases (sequences given)) [
  | inr (e, failed) ↦ absurd (ground arith)
  | inl (ns, read) ↦ elim (Bool-cases (has_duplicates ns)) [
    | inl twice ↦ absurd (ground arith)
    | inr once ↦
        let same : given ≡ ms = ground arith in
        subst IsDistinct same (files-IsDistinct given ns read once)
  ]
]

discovered-IsDistinct :
    (files ms : List Migration) → discover_migrations files ≡ ok ms → IsDistinct ms
unfolding discover_migrations
discovered-IsDistinct files ms h = assert-IsDistinct (sort_by filename_le files) ms h

take-length : (ms : List Migration) → take (length ms) ms ≡ ms
take-length [] = refl
take-length (m ∷ ms) = ap (λ l. m ∷ l) (take-length ms)

plan-length :
    (ledger : Dict String) (ms : List Migration) (q : Progress)
    → length (plan_of ledger ms q).errors ≡ length q.errors + unknown ms ledger
plan-length ledger ms q = omega (
  arith,
  length-append q.errors (map missing_file (without_file ms (keys ledger))),
  length-map missing_file (without_file ms (keys ledger)),
  length-without_file ms ledger,
)

clean-empty : (p : MigrationPlan) → is_clean p ≡ true → length p.errors ≡ 0
clean-empty p h = ground arith

-- After everything that a clean plan lists is noted in the ledger, a new plan lists nothing.
replan :
    (recorded : Dict String) (enabled : List String) (ms : List Migration)
    → IsDistinct ms
    → is_clean (plan_of recorded ms (plan_each recorded enabled ms empty_progress)) ≡ true
    → let ledger = note_all (todo recorded enabled ms) recorded in
      let again = plan_of ledger ms (plan_each ledger enabled ms empty_progress) in
      (again.pending ≡ []) × (is_clean again ≡ true)
replan recorded enabled ms distinct clean =
    let p = plan_each recorded enabled ms empty_progress in
    let ledger = note_all (todo recorded enabled ms) recorded in
    let q = plan_each ledger enabled ms empty_progress in
    let total = clean-empty (plan_of recorded ms p) clean in
    let parts = plan-length recorded ms p in
    let no_errors : length p.errors ≡ 0 = omega arith in
    let no_unknown : unknown ms recorded ≡ 0 = omega arith in
    let sound = undrifted recorded enabled ms empty_progress no_errors in
    let quiet =
      replanned-IsQuiet recorded enabled ledger ms empty_progress
        (all_vouched recorded enabled ms recorded distinct sound (agrees ms)) in
    let fewer =
      unknown-note_all ms (todo recorded enabled ms) recorded
        (All-todo _ recorded enabled ms (known_files ms)) in
    let none_left : length (plan_of ledger ms q).errors ≡ 0 =
      omega (arith, plan-length ledger ms q, ap length quiet.1) in
    (quiet.0, ground arith)
  where
    agrees : (ks : List Migration) → All (λ m. get recorded m.filename ≡ get recorded m.filename) ks
    agrees [] = tt
    agrees (k ∷ ks) = (refl, agrees ks)

planned-as :
    (recorded : Dict String) (files : List Migration) (enabled : List String) (p : MigrationPlan)
    → plan_migrations recorded files enabled ≡ ok p
    → (ms : List Migration) × (discover_migrations files ≡ ok ms)
      × (plan_of recorded ms (plan_each recorded enabled ms empty_progress) ≡ p)
unfolding plan_migrations
planned-as recorded files enabled p h = elim (Result-cases (discover_migrations files)) [
  | inr (e, failed) ↦ absurd (ground arith)
  | inl (ms, found) ↦ (ms, found, ground arith)
]

module _ {Schema : Type 0} (execute : Migration → Schema → Option Schema) where
  ended_well :
      (ms : List Migration) (n : ℕ) (r : Result MigrationError (Unit {0}))
      (plan : Result MigrationError MigrationPlan) (p' : MigrationPlan)
      → Ends execute ms n r
      → planned_again execute r plan ≡ ok p'
      → (n ≡ length ms) × (plan ≡ ok p')
  ended_well ms n r plan p' (all_applied h) same = (h, same)
  ended_well ms n r plan p' (one_failed m h) same = absurd (ground arith)

  was_clean :
      (files : List Migration) (enabled : List String) (db db' : Database Schema)
      (p' : MigrationPlan)
      → run_migrations execute files enabled false db ≡ (ok p', db')
      → (p : MigrationPlan) × (plan_migrations (recorded_migrations execute db) files enabled
          ≡ ok p)
        × (is_clean p ≡ true)
  unfolding run_migrations
  was_clean files enabled db db' p' h =
      elim (Result-cases (plan_migrations (recorded_migrations execute db) files enabled)) [
        | inr (e, failed) ↦ absurd (ground arith)
        | inl (p, planned) ↦ elim (Bool-cases (is_clean p)) [
          | inl clean ↦ (p, planned, clean)
          | inr unclean ↦ absurd (ground arith)
        ]
      ]

  plan_after :
      (files : List Migration) (enabled : List String) (p p' : MigrationPlan)
      (recorded ledger : Dict String)
      → plan_migrations recorded files enabled ≡ ok p
      → is_clean p ≡ true
      → ledger ≡ note_all (migrations_of p.pending) recorded
      → plan_migrations ledger files enabled ≡ ok p'
      → (p'.pending ≡ []) × (is_clean p' ≡ true)
  plan_after files enabled p p' recorded ledger planned clean noted again =
      let (ms, found, same) = planned-as recorded files enabled p planned in
      let (ms', found', same') = planned-as ledger files enabled p' again in
      let alike : ms ≡ ms' = ground arith in
      let due : migrations_of p.pending ≡ todo recorded enabled ms =
        ap (λ q. migrations_of q.pending) (sym same)
        ∙ pending-todo recorded enabled ms empty_progress in
      let done : ledger ≡ note_all (todo recorded enabled ms) recorded =
        noted ∙ ap (λ l. note_all l recorded) due in
      let first_clean : is_clean
            (plan_of recorded ms (plan_each recorded enabled ms empty_progress))
          ≡ true =
        subst (λ q. is_clean q ≡ true) (sym same) clean in
      let nothing = replan recorded enabled ms (discovered-IsDistinct files ms found) first_clean in
      let here : plan_of (note_all (todo recorded enabled ms) recorded) ms
            (plan_each (note_all (todo recorded enabled ms) recorded) enabled ms empty_progress)
          ≡ p' =
        subst (λ l. plan_of l ms (plan_each l enabled ms empty_progress) ≡ p') done
          (subst (λ ks. plan_of ledger ks (plan_each ledger enabled ks empty_progress) ≡ p')
            (sym alike) same') in
      subst (λ q. (q.pending ≡ []) × (is_clean q ≡ true)) here nothing

  -- Whenever a run that is no dry run returns, the plan that it returns has no pending migration and
  -- no error.
  pub finished_run :
      (files : List Migration) (enabled : List String) (db db' : Database Schema)
      (p' : MigrationPlan)
      → run_migrations execute files enabled false db ≡ (ok p', db')
      → (p'.pending ≡ []) × (is_clean p' ≡ true)
  finished_run files enabled db db' p' ran =
      let (p, planned, clean) = was_clean files enabled db db' p' ran in
      let runs = run_migrations-Runs execute files enabled p db planned clean in
      let both : (
        planned_again execute runs.result
            (plan_migrations (recorded_migrations execute runs.after) files enabled),
        runs.after,
      )
          ≡ (ok p', db') =
        sym runs.ran ∙ ran in
      let (whole, again) =
        ended_well (migrations_of p.pending) runs.applied.count runs.result _ p' runs.applied.ends
          (ap (λ x. x.0) both) in
      let all_of : take runs.applied.count (migrations_of p.pending) ≡ migrations_of p.pending =
        ap (λ n. take n (migrations_of p.pending)) whole ∙ take-length (migrations_of p.pending) in
      plan_after files enabled p p' (recorded_migrations execute db)
        (recorded_migrations execute runs.after) planned clean
        (runs.applied.noted ∙ ap (λ l. note_all l (recorded_migrations execute db)) all_of) again
