-- ===== src/Migrations/Complete.antt =====
-- A run that succeeds leaves nothing to do.
use ugsync.Prelude.{
  ◌≡◌, ◌∙◌, refl, sym, ap, subst, Bool, false, ◌||◌, Option, none, some, List, [], ◌∷◌, ◌++◌,
  String, str_eq, eq_iff, eq_refl, All, arith, Option-cases, Bool-cases, inl, inr, if◌then◌else◌,
  is_some,
}
use mathlib.Core.List.{append-nil, append_assoc, map-append}
use ugsync.Dict.{Dict, get, put, get-put}
use ugsync.Migrations.Plan.{
  Migration, Progress, unsatisfied, plan_found, plan_unrecorded, plan_one, plan_each,
}
use ugsync.Migrations.Applied.{note_all, migrations_of}
use ugsync.Migrations.Todo.{can_start, is_todo, todo, IsUndrifted, IsDistinct}

abbrev listed_if : Bool → Migration → List Migration
listed_if b m = if b then m ∷ [] else []

pending-unrecorded :
    (m : Migration) (needs : List String) (p : Progress)
    → migrations_of (plan_unrecorded m needs p).pending
      ≡ migrations_of p.pending ++ listed_if (can_start none needs) m
pending-unrecorded m [] p = map-append (λ i. i.migration) p.pending _
pending-unrecorded m (r ∷ rs) p = sym (append-nil _)

pending-found :
    (enabled : List String) (m : Migration) (o : Option String) (p : Progress)
    → migrations_of (plan_found enabled m o p).pending
      ≡ migrations_of p.pending ++ listed_if (can_start o (unsatisfied enabled m)) m
pending-found enabled m none p = pending-unrecorded m (unsatisfied enabled m) p
pending-found enabled m (some prior) p = elim (Bool-cases (str_eq prior m.checksum_sha256)) [
  | inl same ↦ rw same (sym (append-nil _))
  | inr differs ↦ rw differs (sym (append-nil _))
]

todo_cons :
    (recorded : Dict String) (enabled : List String) (m : Migration) (ms : List Migration)
    → listed_if (is_todo recorded enabled m) m ++ todo recorded enabled ms
      ≡ todo recorded enabled (m ∷ ms)
todo_cons recorded enabled m ms = elim (Bool-cases (is_todo recorded enabled m)) [
  | inl due ↦ rw due refl
  | inr settled ↦ rw settled refl
]

-- What the loop plans is what is not recorded and can start.
pub pending-todo :
    (recorded : Dict String) (enabled : List String) (ms : List Migration) (p : Progress)
    → migrations_of (plan_each recorded enabled ms p).pending
      ≡ migrations_of p.pending ++ todo recorded enabled ms
unfolding plan_each plan_one
pending-todo recorded enabled [] p = sym (append-nil _)
pending-todo recorded enabled (m ∷ ms) p =
    pending-todo recorded enabled ms (plan_found enabled m (get recorded m.filename) p)
    ∙ ap (λ l. l ++ todo recorded enabled ms) (pending-found enabled m (get recorded m.filename) p)
    ∙ append_assoc (migrations_of p.pending) (listed_if (is_todo recorded enabled m) m)
        (todo recorded enabled ms)
    ∙ ap (λ l. migrations_of p.pending ++ l) (todo_cons recorded enabled m ms)

get-note_all :
    (ms : List Migration) (ledger : Dict String) (k : String)
    → All (λ m. str_eq k m.filename ≡ false) ms
    → get (note_all ms ledger) k ≡ get ledger k
get-note_all [] ledger k apart = refl
get-note_all (m ∷ ms) ledger k apart =
    get-note_all ms (put ledger m.filename m.checksum_sha256) k apart.1
    ∙ ground (
      arith,
      get-put ledger m.filename k m.checksum_sha256,
      eq_iff m.filename k,
      eq_iff k m.filename,
      apart.0,
    )

pub All-todo :
    (P : Migration → Type 0) (recorded : Dict String) (enabled : List String) (ms : List Migration)
    → All P ms
    → All P (todo recorded enabled ms)
All-todo P recorded enabled [] h = tt
All-todo P recorded enabled (m ∷ ms) h = elim (Bool-cases (is_todo recorded enabled m)) [
  | inl due ↦ rw due (h.0, All-todo P recorded enabled ms h.1)
  | inr settled ↦ rw settled (All-todo P recorded enabled ms h.1)
]

-- What the ledger says of a file after its migrations are applied.
abbrev pub vouched : Dict String → List String → Migration → Option String
vouched recorded enabled m =
    if is_some (get recorded m.filename) || is_todo recorded enabled m
    then some m.checksum_sha256
    else none

module _ (recorded : Dict String) (enabled : List String) where
  -- The ledger agrees with the recorded one on the files still to come.
  abbrev Agrees : Dict String → List Migration → Type 0
  Agrees ledger = All (λ m. get ledger m.filename ≡ get recorded m.filename)

  Agrees-put :
      (ledger : Dict String) (m : Migration) (ms : List Migration)
      → All (λ k. str_eq m.filename k.filename ≡ false) ms
      → Agrees ledger ms
      → Agrees (put ledger m.filename m.checksum_sha256) ms
  Agrees-put ledger m [] apart agree = tt
  Agrees-put ledger m (k ∷ ms) apart agree = (
    ground (arith, get-put ledger m.filename k.filename m.checksum_sha256, apart.0, agree.0),
    Agrees-put ledger m ms apart.1 agree.1,
  )

  -- A ledger with the rows of `done` vouches for each file.
  abbrev pub Vouches : List Migration → Dict String → List Migration → Type 0
  Vouches done ledger =
      All (λ m. get (note_all done ledger) m.filename ≡ vouched recorded enabled m)

  pub all_vouched :
      (ms : List Migration) (ledger : Dict String)
      → IsDistinct ms
      → IsUndrifted recorded ms
      → Agrees ledger ms
      → Vouches (todo recorded enabled ms) ledger ms
  all_vouched [] ledger distinct sound agree = tt
  all_vouched (m ∷ ms) ledger distinct sound agree =
      let others = get-note_all (todo recorded enabled ms) in
      let apart = All-todo _ recorded enabled ms distinct.0 in
      elim (Bool-cases (is_todo recorded enabled m)) [
        | inl due ↦
            let first : todo recorded enabled (m ∷ ms) ≡ m ∷ todo recorded enabled ms =
              rw due refl in
            subst (λ l. Vouches l ledger (m ∷ ms)) (sym first)
              (
                others (put ledger m.filename m.checksum_sha256) m.filename apart
                    ∙ ground (
                      arith,
                      due,
                      get-put ledger m.filename m.filename m.checksum_sha256,
                      eq_refl m.filename,
                    ),
                all_vouched ms (put ledger m.filename m.checksum_sha256) distinct.1 sound.1
                    (Agrees-put ledger m ms distinct.0 agree.1),
              )
        | inr settled ↦
            let rest : todo recorded enabled (m ∷ ms) ≡ todo recorded enabled ms =
              rw settled refl in
            subst (λ l. Vouches l ledger (m ∷ ms)) (sym rest)
              (
                others ledger m.filename apart ∙ agree.0 ∙ as_vouched m sound.0 settled,
                all_vouched ms ledger distinct.1 sound.1 agree.1,
              )
      ]
    where
      as_vouched :
          (k : Migration)
          → ((prior : String) → get recorded k.filename ≡ some prior → prior ≡ k.checksum_sha256)
          → is_todo recorded enabled k ≡ false
          → get recorded k.filename ≡ vouched recorded enabled k
      as_vouched k sound_here settled = elim (Option-cases (get recorded k.filename)) [
        | inl new ↦ ground (arith, new, settled)
        | inr (prior, found) ↦ ground (arith, found, settled, sound_here prior found)
      ]
