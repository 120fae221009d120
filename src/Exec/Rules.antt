-- ===== src/Exec/Rules.antt =====
-- What a call has done, read off how it ended.
use ugsync.Prelude.{◌≡◌, ◌⊎◌, inl, inr, refl, Bool, true, false, Option, none, some, arith}
use ugsync.Exec.{Result, ok, err, Exec, continue, commit, raise_if, or_raise}

-- `P` of the result and the new state on success; on an error the state is the one before.
abbrev pub Atomic : {E S A : Type 0} → (A → S → Type 0) → S → Result E A × S → Type 0
Atomic P s (ok a, s') = P a s'
Atomic P s (err e, s') = s' ≡ s

pub Result-cases :
    {E A : Type 0} (r : Result E A) → ((a : A) × (r ≡ ok a)) ⊎ ((e : E) × (r ≡ err e))
Result-cases (ok a) = inl (a, refl)
Result-cases (err e) = inr (e, refl)

module _ {E S A B : Type 0} where
  -- A bind that succeeded: the first action's result and state, and the second's run from them.
  pub continue-eq_ok :
      (f : A → Exec E S B) (p : Result E A × S) {b : B} {s' : S}
      → continue f p ≡ (ok b, s')
      → (a : A) × (t : S) × (p ≡ (ok a, t)) × (f a t ≡ (ok b, s'))
  continue-eq_ok f (ok a, t) h = (a, t, refl, h)
  continue-eq_ok f (err e, t) h = absurd (ground arith)

module _ {E S : Type 0} where
  pub raise_if-eq_ok :
      (b : Bool) (e : E) (s : S) {u : Unit {0}} {s' : S}
      → raise_if b e s ≡ (ok u, s')
      → (b ≡ false) × (s' ≡ s)
  raise_if-eq_ok true e s h = absurd (ground arith)
  raise_if-eq_ok false e s h = (refl, ground arith)

module _ {E S A : Type 0} where
  pub or_raise-eq_ok :
      (o : Option A) (e : E) (s : S) {a : A} {s' : S}
      → or_raise o e s ≡ (ok a, s')
      → (o ≡ some a) × (s' ≡ s)
  or_raise-eq_ok none e s h = absurd (ground arith)
  or_raise-eq_ok (some x) e s h = (ground arith, ground arith)

  pub commit-eq_ok :
      (s : S) (p : Result E A × S) {a : A} {s' : S} → commit s p ≡ (ok a, s') → p ≡ (ok a, s')
  commit-eq_ok s (ok x, t) h = h
  commit-eq_ok s (err e, t) h = absurd (ground arith)

  -- A transaction that raised has left the store as it was.
  pub commit-eq_err :
      (s : S) (p : Result E A × S) {e : E} {s' : S} → commit s p ≡ (err e, s') → s' ≡ s
  commit-eq_err s (ok x, t) h = absurd (ground arith)
  commit-eq_err s (err e, t) h = ground arith
