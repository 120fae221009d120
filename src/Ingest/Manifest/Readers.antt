-- ===== src/Ingest/Manifest/Readers.antt =====
-- What the readers of single fields promise.
use ugsync.Prelude.{
  ℕ, zero, suc, ◌≡◌, ◌≤◌, refl, Bool, true, false, Option, none, some, List, [], ◌∷◌, ◌++◌, String,
  strip, is_blank, All, arith, Bool-cases, inl, inr,
}
use ugsync.Prelude.Int.{ℤ, pos, negsuc}
use ugsync.Ingest.Device.{Host, Parsed, not_iso, naive, aware, with_offset}
use ugsync.Ingest.Store.{LandmarkHash}
use ugsync.Ingest.Fields.{
  Json, Items, null, bool, integer, fraction, text, array, object, no_items, item, Problem, Read,
  require_str, read_moment, read_timestamp, in_range, of_integers, read_landmark, push, read_items,
  parse_landmarks,
}
use ugsync.Ingest.Manifest.{problem_if, read_byte_count}

pub append-eq_nil : {A : Type 0} (xs ys : List A) → xs ++ ys ≡ [] → (xs ≡ []) × (ys ≡ [])
append-eq_nil [] ys h = (refl, h)
append-eq_nil (x ∷ xs) ys h = absurd (ground arith)

pub problem_if-eq_nil : (b : Bool) (p : Problem) → problem_if b p ≡ [] → b ≡ false
problem_if-eq_nil true p h = absurd (ground arith)
problem_if-eq_nil false p h = refl

-- A reader that reports no problem has read something.
abbrev pub Reads : {A : Type 0} → Read A → Type 0
Reads {A} r = r.1 ≡ [] → (a : A) × (r.0 ≡ some a)

pub require_str-Reads : (v : Json) (name : String) → Reads (require_str v name)
unfolding require_str
require_str-Reads (text s) name h = elim (Bool-cases (is_blank (strip s))) [
  | inl blank ↦ absurd (ground arith)
  | inr full ↦ (strip s, rw full refl)
]
require_str-Reads null name h = absurd (ground arith)
require_str-Reads (bool b) name h = absurd (ground arith)
require_str-Reads (integer n) name h = absurd (ground arith)
require_str-Reads (fraction n) name h = absurd (ground arith)
require_str-Reads (array xs) name h = absurd (ground arith)
require_str-Reads (object fs) name h = absurd (ground arith)

read_moment-Reads : (p : Parsed) (name : String) → Reads (read_moment p name)
read_moment-Reads not_iso name h = absurd (ground arith)
read_moment-Reads naive name h = absurd (ground arith)
read_moment-Reads (aware moment) name h = (moment, refl)

pub read_timestamp-Reads :
    (host : Host) (v : Json) (name : String) → Reads (read_timestamp host v name)
unfolding read_timestamp
read_timestamp-Reads host (text s) name h = elim (Bool-cases (is_blank (strip s))) [
  | inl blank ↦ absurd (ground arith)
  | inr full ↦
      rw full (read_moment-Reads (host.from_isoformat (with_offset (strip s))) name (rw full at h))
]
read_timestamp-Reads host null name h = absurd (ground arith)
read_timestamp-Reads host (bool b) name h = absurd (ground arith)
read_timestamp-Reads host (integer n) name h = absurd (ground arith)
read_timestamp-Reads host (fraction n) name h = absurd (ground arith)
read_timestamp-Reads host (array xs) name h = absurd (ground arith)
read_timestamp-Reads host (object fs) name h = absurd (ground arith)

pub read_byte_count-Reads : (v : Json) → Reads (read_byte_count v)
unfolding read_byte_count
read_byte_count-Reads (integer (pos n)) h = (n, refl)
read_byte_count-Reads (integer (negsuc n)) h = absurd (ground arith)
read_byte_count-Reads null h = absurd (ground arith)
read_byte_count-Reads (bool b) h = absurd (ground arith)
read_byte_count-Reads (text s) h = absurd (ground arith)
read_byte_count-Reads (fraction n) h = absurd (ground arith)
read_byte_count-Reads (array xs) h = absurd (ground arith)
read_byte_count-Reads (object fs) h = absurd (ground arith)

-- The landmark contract.
abbrev pub IsLandmark : LandmarkHash → Type 0
IsLandmark l = 1 ≤ l.delta_frames

abbrev IfRead : Option LandmarkHash → Type 0
IfRead none = Unit
IfRead (some l) = IsLandmark l

in_range-IfRead : (i : ℕ) (anchor ratio delta : ℤ) → IfRead (in_range i anchor ratio delta).0
in_range-IfRead i (pos anchor) ratio (pos zero) = tt
in_range-IfRead i (pos anchor) ratio (pos (suc delta)) = omega arith
in_range-IfRead i (pos anchor) ratio (negsuc delta) = tt
in_range-IfRead i (negsuc anchor) ratio delta = tt

of_integers-IfRead :
    (i : ℕ) (anchor ratio delta : Json) → IfRead (of_integers i anchor ratio delta).0
of_integers-IfRead i (integer anchor) (integer ratio) (integer delta) =
    in_range-IfRead i anchor ratio delta
of_integers-IfRead i _ _ _ = tt

read_landmark-IfRead : (i : ℕ) (v : Json) → IfRead (read_landmark i v).0
unfolding read_landmark
read_landmark-IfRead i (object fs) = of_integers-IfRead i _ _ _
read_landmark-IfRead i _ = tt

push-All :
    (l : Option LandmarkHash) (ls : List LandmarkHash)
    → IfRead l
    → All IsLandmark ls
    → All IsLandmark (push l ls)
push-All none ls h all = all
push-All (some l) ls h all = (h, all)

read_items-All : (i : ℕ) (xs : Items) → All IsLandmark (read_items i xs).0
unfolding read_items
read_items-All i no_items = tt
read_items-All i (item x rest) =
    push-All _ _ (read_landmark-IfRead i x) (read_items-All (suc i) rest)

pub parse_landmarks-All : (v : Json) → All IsLandmark (parse_landmarks v).0
unfolding parse_landmarks
parse_landmarks-All (array xs) = read_items-All 0 xs
parse_landmarks-All _ = tt
