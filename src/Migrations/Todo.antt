-- ===== src/Migrations/Todo.antt =====
-- The loop of `plan_migrations` as a filter, and the checksums that a clean plan vouches for.
use ugsync.Prelude.{
  ℕ, ◌≡◌, ◌<◌, ◌∙◌, refl, sym, subst, Bool, true, false, Option, none, some, List, [], ◌∷◌, String,
  str_eq, eq_iff, length, any, All, keep_if, ◌==◌, arith, Bool-cases, inl, inr,
}
use ugsync.Dict.{Dict, get}
use ugsync.Exec.{ok, err}
use ugsync.Migrations.Plan.{
  Migration, Progress, unsatisfied, plan_one, plan_each, has_duplicates, sequence, sequences,
  cons_sequence, Checked,
}
use ugsync.Migrations.Drift.{drift_found}

abbrev pub can_start : Option String → List String → Bool
can_start (some prior) needs = false
can_start none [] = true
can_start none (r ∷ rs) = false

-- Not recorded, and with all that it requires.
abbrev pub is_todo : Dict String → List String → Migration → Bool
is_todo recorded enabled m = can_start (get recorded m.filename) (unsatisfied enabled m)

abbrev pub todo : Dict String → List String → List Migration → List Migration
todo recorded enabled = keep_if (is_todo recorded enabled)

-- The checksum of each recorded migration is that of its file.
abbrev pub IsUndrifted : Dict String → List Migration → Type 0
IsUndrifted recorded =
    All (λ m. (prior : String) → get recorded m.filename ≡ some prior → prior ≡ m.checksum_sha256)

pub undrifted :
    (recorded : Dict String) (enabled : List String) (ms : List Migration) (p : Progress)
    → length (plan_each recorded enabled ms p).errors ≡ 0
    → IsUndrifted recorded ms
unfolding plan_each
undrifted recorded enabled [] p h = tt
undrifted recorded enabled (m ∷ ms) p h = (
  (λ prior found. elim (Bool-cases (str_eq prior m.checksum_sha256)) [
    | inl same ↦ (eq_iff prior m.checksum_sha256).0 same
    | inr differs ↦
        let broken : 0 < length (plan_each recorded enabled (m ∷ ms) p).errors =
          drift_found recorded enabled (m ∷ ms) p 0 {m = m} {prior = prior} refl found differs in
        absurd (omega arith)
  ]),
  undrifted recorded enabled ms (plan_one recorded enabled m p) h,
)

-- No two files share a name.
abbrev pub IsDistinct : List Migration → Type 0
IsDistinct [] = Unit
IsDistinct (m ∷ ms) = All (λ k. str_eq m.filename k.filename ≡ false) ms × IsDistinct ms

sequence-filename : (m k : Migration) → m.filename ≡ k.filename → sequence m ≡ sequence k
unfolding sequence
sequence-filename m k same = rw same refl

sequences_cons :
    (m : Migration) (ms : List Migration) (ns : List ℕ)
    → sequences (m ∷ ms) ≡ ok ns
    → (n : ℕ) × (rest : List ℕ) × (sequence m ≡ some n) × (sequences ms ≡ ok rest) × (n ∷ rest ≡ ns)
unfolding sequences
sequences_cons m ms ns h = split_cons (sequence m) (sequences ms) refl refl h
  where
    split_cons :
        (o : Option ℕ) (r : Checked (List ℕ))
        → sequence m ≡ o
        → sequences ms ≡ r
        → cons_sequence o r ≡ ok ns
        → (n : ℕ) × (rest : List ℕ) × (sequence m ≡ some n)
          × (sequences ms ≡ ok rest)
          × (n ∷ rest ≡ ns)
    split_cons none r a b c = absurd (ground arith)
    split_cons (some n) (err e) a b c = absurd (ground arith)
    split_cons (some n) (ok rest) a b c = (n, rest, a, b, ground arith)

apart_from :
    (m : Migration) (n : ℕ) (ms : List Migration) (ns : List ℕ)
    → sequence m ≡ some n
    → sequences ms ≡ ok ns
    → any (λ k. k == n) ns ≡ false
    → All (λ k. str_eq m.filename k.filename ≡ false) ms
apart_from m n [] ns own all none_same = tt
apart_from m n (k ∷ ms) ns own all none_same =
    let (j, rest, head, tail, same) = sequences_cons k ms ns all in
    let parts : any (λ i. i == n) (j ∷ rest) ≡ false =
      subst (λ l. any (λ i. i == n) l ≡ false) (sym same) none_same in
    (
      elim (Bool-cases (str_eq m.filename k.filename)) [
        | inr differs ↦ differs
        | inl equal ↦
            let alike : some n ≡ some j =
              sym own ∙ sequence-filename m k ((eq_iff _ _).0 equal) ∙ head in
            absurd (ground arith)
      ],
      apart_from m n ms rest own tail (ground arith),
    )

pub files-IsDistinct :
    (ms : List Migration) (ns : List ℕ)
    → sequences ms ≡ ok ns
    → has_duplicates ns ≡ false
    → IsDistinct ms
unfolding has_duplicates
files-IsDistinct [] ns h none_twice = tt
files-IsDistinct (m ∷ ms) ns h none_twice =
    let (n, rest, head, tail, same) = sequences_cons m ms ns h in
    let parts : has_duplicates (n ∷ rest) ≡ false =
      subst (λ l. has_duplicates l ≡ false) (sym same) none_twice in
    (apart_from m n ms rest head tail (ground arith), files-IsDistinct ms rest tail (ground arith))
