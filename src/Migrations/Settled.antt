-- ===== src/Migrations/Settled.antt =====
-- The plan that a run which succeeds returns.
use ugsync.Prelude.{
  ℕ, ◌+◌, ◌≡◌, ◌≤◌, ◌∙◌, refl, Bool, true, false, not, Option, none, some, List, [], ◌∷◌, map,
  String, eq_refl, length, All, keep_if, arith, Option-cases, inl, inr, if◌then◌else◌, sum,
  contains,
}
use ugsync.Prelude.Sort.{sort_by, sum-sort_by}
use ugsync.Dict.{Dict, get, put, keys}
use ugsync.Migrations.Plan.{
  Migration, Progress, unsatisfied, plan_found, plan_unrecorded, plan_one, plan_each, without_file,
  text_le,
}
use ugsync.Migrations.Applied.{note_all}
use ugsync.Migrations.Todo.{can_start, is_todo}
use ugsync.Migrations.Complete.{vouched}

-- Nothing is planned and nothing is wrong beyond what was before.
abbrev pub IsQuiet : Progress → Progress → Type 0
IsQuiet p q = (q.pending ≡ p.pending) × (q.errors ≡ p.errors)

unrecorded-IsQuiet :
    (m : Migration) (needs : List String) (p : Progress)
    → can_start none needs ≡ false
    → IsQuiet p (plan_unrecorded m needs p)
unrecorded-IsQuiet m [] p h = absurd (ground arith)
unrecorded-IsQuiet m (r ∷ rs) p h = (refl, refl)

module _ (recorded : Dict String) (enabled : List String) where
  found-IsQuiet :
      (m : Migration) (o : Option String) (p : Progress)
      → o ≡ vouched recorded enabled m
      → IsQuiet p (plan_found enabled m o p)
  found-IsQuiet m (some prior) p h =
      let same : prior ≡ m.checksum_sha256 = ground arith in
      rw (same, eq_refl m.checksum_sha256) (refl, refl)
  found-IsQuiet m none p h = elim (Option-cases (get recorded m.filename)) [
    | inr (prior, found) ↦ absurd (ground arith)
    | inl new ↦
        let waits : is_todo recorded enabled m ≡ false = ground arith in
        let needs : can_start none (unsatisfied enabled m) ≡ false = (rw new at waits) in
        unrecorded-IsQuiet m (unsatisfied enabled m) p needs
  ]

  pub replanned-IsQuiet :
      (ledger : Dict String) (ms : List Migration) (p : Progress)
      → All (λ m. get ledger m.filename ≡ vouched recorded enabled m) ms
      → IsQuiet p (plan_each ledger enabled ms p)
  unfolding plan_each plan_one
  replanned-IsQuiet ledger [] p all = (refl, refl)
  replanned-IsQuiet ledger (m ∷ ms) p all =
      let here = found-IsQuiet m (get ledger m.filename) p all.0 in
      let more =
        replanned-IsQuiet ledger ms (plan_found enabled m (get ledger m.filename) p) all.1 in
      (more.0 ∙ here.0, more.1 ∙ here.1)

abbrev counted : (String → Bool) → String → ℕ
counted test x = if test x then 1 else 0

length-keep_if :
    (test : String → Bool) (xs : List String)
    → length (keep_if test xs) ≡ sum (map (counted test) xs)
length-keep_if test [] = refl
length-keep_if test (x ∷ xs) = ground (arith, length-keep_if test xs)

abbrev pub is_unknown : List Migration → String → Bool
is_unknown ms name = not (contains (map (λ m. m.filename) ms) name)

-- How many names in a ledger belong to no file.
abbrev pub unknown : List Migration → Dict String → ℕ
unknown ms ledger = sum (map (counted (is_unknown ms)) (keys ledger))

pub length-without_file :
    (ms : List Migration) (ledger : Dict String)
    → length (without_file ms (keys ledger)) ≡ unknown ms ledger
length-without_file ms ledger =
    length-keep_if (is_unknown ms) (sort_by text_le (keys ledger))
    ∙ sum-sort_by text_le (counted (is_unknown ms)) (keys ledger)

keys-put :
    (f : String → ℕ) (ledger : Dict String) (k v : String)
    → sum (map f (keys (put ledger k v))) ≤ sum (map f (keys ledger)) + f k
unfolding keys put
keys-put f [] k v = omega arith
keys-put f ((j, w) ∷ ledger) k v = ground (arith, keys-put f ledger k v)

keys-note_all :
    (f : String → ℕ) (done : List Migration) (ledger : Dict String)
    → All (λ m. f m.filename ≡ 0) done
    → sum (map f (keys (note_all done ledger))) ≤ sum (map f (keys ledger))
keys-note_all f [] ledger all = omega arith
keys-note_all f (m ∷ ms) ledger all = omega (
  arith,
  all.0,
  keys-put f ledger m.filename m.checksum_sha256,
  keys-note_all f ms (put ledger m.filename m.checksum_sha256) all.1,
)

contains_more :
    (x : String) (names : List String) (ms : List Migration)
    → All (λ m. contains names m.filename ≡ true) ms
    → All (λ m. contains (x ∷ names) m.filename ≡ true) ms
unfolding contains
contains_more x names [] all = tt
contains_more x names (m ∷ ms) all = (ground (arith, all.0), contains_more x names ms all.1)

own_names :
    (ms : List Migration) → All (λ m. contains (map (λ k. k.filename) ms) m.filename ≡ true) ms
own_names [] = tt
own_names (m ∷ ms) = (
  unfold contains in ground (arith, eq_refl m.filename),
  contains_more m.filename (map (λ k. k.filename) ms) ms (own_names ms),
)

known_names :
    (all ms : List Migration)
    → All (λ m. contains (map (λ k. k.filename) all) m.filename ≡ true) ms
    → All (λ m. counted (is_unknown all) m.filename ≡ 0) ms
known_names all [] h = tt
known_names all (m ∷ ms) h = (ground (arith, h.0), known_names all ms h.1)

pub known_files : (ms : List Migration) → All (λ m. counted (is_unknown ms) m.filename ≡ 0) ms
known_files ms = known_names ms ms (own_names ms)

-- Applying migrations of the files adds no name that is unknown.
pub unknown-note_all :
    (ms done : List Migration) (ledger : Dict String)
    → All (λ m. counted (is_unknown ms) m.filename ≡ 0) done
    → unknown ms (note_all done ledger) ≤ unknown ms ledger
unknown-note_all ms done ledger all = keys-note_all (counted (is_unknown ms)) done ledger all
