-- ===== src/Exec/Triples.antt =====
-- What holds after a method that succeeded, from what held before: the rules for each step of a do
-- block. On an error nothing is said, since a transaction puts the state back.
use ugsync.Prelude.{◌≡◌, refl, Bool, true, false, Option, none, some, arith, if◌then◌else◌}
use ugsync.Exec.{Result, ok, err, Exec, continue, commit, or_raise}

-- `Q` of the result and the new state, on success.
pub data Holds {E S A : Type 0} (Q : A → S → Type 0) : Result E A × S → Type 0 where
  holds : {a : A} {s : S} → Q a s → Holds Q (ok a, s)
  fails : {e : E} {s : S} → Holds Q (err e, s)

abbrev pub Triple : {E S A : Type 0} → (S → Type 0) → Exec E S A → (A → S → Type 0) → Type 0
Triple {S = S} P m Q = (s : S) → P s → Holds Q (m s)

module _ {E S A B : Type 0} {Q : B → S → Type 0} where
  pub continue-Holds :
      (P : A → S → Type 0) (p : Result E A × S) (f : A → Exec E S B)
      → Holds P p
      → ((a : A) (s : S) → P a s → Holds Q (f a s))
      → Holds Q (continue f p)
  continue-Holds P (_, _) f (holds h) next = next _ _ h
  continue-Holds P (_, _) f fails next = fails

module _ {E S A : Type 0} {Q : A → S → Type 0} where
  pub Holds-of_ok : {p : Result E A × S} {a : A} {t : S} → Holds Q p → p ≡ (ok a, t) → Q a t
  Holds-of_ok {p = (ok b, s)} (holds h) seen = ground arith
  Holds-of_ok {p = (err e, s)} fails seen = absurd (ground arith)

  -- A step that raises under a condition goes on when it fails.
  pub raise_if-Holds :
      (b : Bool) (e : E) (f : Unit {0} → Exec E S A) (s : S)
      → (b ≡ false → Holds Q (f tt s))
      → Holds Q (continue f (if b then err e else ok tt, s))
  raise_if-Holds true e f s next = fails
  raise_if-Holds false e f s next = next refl

module _ {E S A B : Type 0} {Q : B → S → Type 0} where
  pub or_raise-Holds :
      (o : Option A) (e : E) (f : A → Exec E S B) (s : S)
      → ((a : A) → o ≡ some a → Holds Q (f a s))
      → Holds Q (continue f (or_raise o e s))
  or_raise-Holds none e f s next = fails
  or_raise-Holds (some a) e f s next = next a refl

module _ {E S A : Type 0} {P Q : A → S → Type 0} where
  pub Holds-post : {p : Result E A × S} → Holds P p → ((a : A) (s : S) → P a s → Q a s) → Holds Q p
  Holds-post (holds h) f = holds (f _ _ h)
  Holds-post fails f = fails

module _ {E S A : Type 0} {Q : A → S → Type 0} where
  pub always-Holds : (p : Result E A × S) → ((a : A) (s : S) → Q a s) → Holds Q p
  always-Holds (ok a, s) h = holds (h a s)
  always-Holds (err e, s) h = fails

module _ {E S A : Type 0} (P : S → Type 0) where
  -- A transaction whose body keeps `P` on success keeps it always.
  pub commit-keeps : (s : S) (p : Result E A × S) → P s → Holds (λ a. P) p → P (commit s p).1
  commit-keeps s (_, _) before (holds after) = after
  commit-keeps s (_, _) before fails = before
