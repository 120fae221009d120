-- ===== src/Royalties/Decimal.antt =====
-- The arithmetic of Python's `Decimal` in the default context, which rounds every result half even to
-- 28 significant digits, on amounts that are not negative. An amount is a number of small decimal
-- units, as in Rounding; how small they are does not matter to the digits that are significant.
use ugsync.Prelude.{ℕ, zero, suc, ◌+◌, ◌*◌, ◌/◌, ◌%◌, ◌^◌, List, [], ◌∷◌, ltb, if◌then◌else◌}

-- 10^28 and 10^27, which bound coefficients of 28 and of 27 digits.
unfoldable pub limit : ℕ
limit = 10 ^ 28

unfoldable pub tenth : ℕ
tenth = 10 ^ 27

-- The quotient of two numbers, rounded to the nearest, and to the even one of two.
unfoldable pub half_even : (n d : ℕ) → ℕ
half_even n d =
    if ltb (2 * (n % d)) d
    then n / d
    else if ltb d (2 * (n % d))
    then suc (n / d)
    else n / d + n / d % 2

-- The unit of the last of 28 significant digits, a power of ten.
unfoldable pub ulp_from : (fuel p n : ℕ) → ℕ
ulp_from zero p n = p
ulp_from (suc fuel) p n =
    let rest = ulp_from fuel (10 * p) n in if ltb n (limit * p) then p else rest

abbrev pub ulp : ℕ → ℕ
ulp n = ulp_from n 1 n

unfoldable pub round : ℕ → ℕ
round n = half_even n (ulp n) * ulp n

-- `a + b`
abbrev pub plus : ℕ → ℕ → ℕ
plus a b = round (a + b)

-- `sum(xs, start)`
unfoldable pub add_up : (start : ℕ) → List ℕ → ℕ
add_up start [] = start
add_up start (x ∷ xs) = add_up (plus start x) xs

-- The power of ten that gives a whole part the digits that are missing to 28.
unfoldable pub scale_from : (fuel p whole : ℕ) → ℕ
scale_from zero p whole = p
scale_from (suc fuel) p whole =
    let more = scale_from fuel (10 * p) whole in if ltb (whole * (10 * p)) limit then more else p

abbrev pub scale : ℕ → ℕ
scale whole = scale_from 28 1 whole

-- `int(n / d)`: the quotient is rounded to 28 digits before its fraction is cut.
unfoldable pub int_quotient : (n d : ℕ) → ℕ
int_quotient n d =
    if ltb (n / d) limit
    then half_even (n * scale (n / d)) d / scale (n / d)
    else half_even n (d * ulp (n / d)) * ulp (n / d)
