-- ===== src/Spool/Backoff.antt =====
-- The delay between two attempts to upload a chunk.
use ugsync.Prelude.{ℕ, zero, suc, ◌-◌, ◌*◌, ◌^◌, ◌≤◌, ◌≡◌, refl, arith, min}
use native.Mathlib.Nat.{pow-suc}
use ugsync.Spool.Outbox.{backoff, micros}

one-le-pow : (n : ℕ) → 1 ≤ 2 ^ n
one-le-pow zero = omega arith
one-le-pow (suc n) = omega (arith, one-le-pow n, pow-suc 2 n)

-- After the first attempt the delay is 30 seconds, each further attempt doubles it or brings it to
-- six hours, and after any number of attempts it is at least 30 seconds and at most six hours.
pub backoff_bounds :
    (attempts : ℕ)
    → (backoff 1 ≡ 30 * micros)
      × (30 * micros ≤ backoff attempts)
      × (backoff attempts ≤ 21_600 * micros)
      × (backoff (suc (suc attempts)) ≡ min (21_600 * micros) (2 * backoff (suc attempts)))
unfolding backoff
backoff_bounds attempts =
    let less : suc (suc attempts) - 1 ≡ suc attempts = omega arith in
    let less' : suc attempts - 1 ≡ attempts = omega arith in
    (
      refl,
      omega (arith, one-le-pow (attempts - 1)),
      omega (arith, one-le-pow (attempts - 1)),
      rw (less, less') (omega (arith, pow-suc 2 attempts, one-le-pow attempts)),
    )
