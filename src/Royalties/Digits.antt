-- ===== src/Royalties/Digits.antt =====
-- What the rounding of `Decimal` keeps: numbers of 28 digits and multiples of powers of ten are exact,
-- and any other is off by a half in its last digit at most.
use ugsync.Prelude.{
  ℕ, zero, suc, ◌+◌, ◌*◌, ◌/◌, ◌%◌, ◌^◌, ◌≤◌, ◌<◌, ◌≡◌, ◌⊎◌, inl, inr, refl, true, false, List, [],
  ◌∷◌, ltb, ltb→lt, ap, sym, subst, ◌∙◌, arith, Bool-cases, sum, map,
}
use native.Mathlib.Nat.{
  div-add-mod', mod-lt, div-eq_of_eq-mul_left, div-eq_of_lt, pow-suc, mul-le-mul_right,
}
use ugsync.Royalties.Decimal.{
  limit, tenth, half_even, ulp_from, ulp, round, add_up, scale_from, scale, int_quotient,
}

pub limit-tenth : limit ≡ 10 * tenth
unfolding limit tenth
limit-tenth = refl

pub limit-positive : 2 < limit
unfolding limit
limit-positive = omega arith

pub tenth-positive : 2 < tenth
unfolding tenth
tenth-positive = omega arith

lt→ltb : (a b : ℕ) → a < b → ltb a b ≡ true
lt→ltb a b h = ground arith

pub ltb-false→le : (a b : ℕ) → ltb a b ≡ false → b ≤ a
ltb-false→le a b h = ground arith

-- Two multiples that differ by less than a unit are the same.
le_of_close : (x y d : ℕ) → 0 < d → 2 * (x * d) ≤ 2 * (y * d) + d → x ≤ y
le_of_close x y d h close = elim (Bool-cases (ltb y x)) [
  | inl more ↦
      let step : suc y * d ≤ x * d = mul-le-mul_right d (ltb→lt y x more) in
      absurd (omega (arith, step, close, h))
  | inr less ↦ ground (arith, less)
]

lt_of_close : (x f d : ℕ) → 0 < d → 10 ≤ f → 2 * (x * d) ≤ f * d + d → x < f
lt_of_close x f d h ten close = elim (Bool-cases (ltb x f)) [
  | inl less ↦ ltb→lt x f less
  | inr more ↦
      let scaled : f * d ≤ x * d = mul-le-mul_right d (ltb-false→le x f more) in
      let wide : 10 * d ≤ f * d = mul-le-mul_right d ten in
      absurd (omega (arith, scaled, wide, close, h))
]

even_or_odd : (n : ℕ) → (n % 2 ≡ 0) ⊎ (n % 2 ≡ 1)
even_or_odd n = omega arith

-- The error is at most a half.
pub half_even-close :
    (n d : ℕ)
    → 0 < d
    → (2 * (half_even n d * d) ≤ 2 * n + d) × (2 * n ≤ 2 * (half_even n d * d) + d)
unfolding half_even
half_even-close n d h =
    let parts = div-add-mod' n d in
    let below = mod-lt n h in
    elim (Bool-cases (ltb (2 * (n % d)) d)) [
      | inl low ↦ rw low (ground (arith, parts, below, low), ground (arith, parts, low))
      | inr high ↦ elim (Bool-cases (ltb d (2 * (n % d)))) [
        | inl up ↦
            rw (high, up) (ground (arith, parts, below, up), ground (arith, parts, below, up))
        | inr tie ↦ elim (even_or_odd (n / d)) [
          | inl even ↦
              rw (high, tie, even)
                (ground (arith, parts, high, tie), ground (arith, parts, high, tie))
          | inr odd ↦
              rw (high, tie, odd)
                (ground (arith, parts, high, tie), ground (arith, parts, high, tie))
        ]
      ]
    ]

pub half_even-exact : (m d : ℕ) → 0 < d → half_even (m * d) d ≡ m
half_even-exact m d h =
    let (a, b) = half_even-close (m * d) d h in
    omega (arith, le_of_close _ _ d h a, le_of_close _ _ d h b)

-- The unit is one, or the number has 28 digits before it.
abbrev IsUlp : (n p : ℕ) → Type 0
IsUlp n p = (0 < p) × ((p ≡ 1) ⊎ (tenth * p ≤ n))

ulp_from-IsUlp : (fuel p n : ℕ) → IsUlp n p → IsUlp n (ulp_from fuel p n)
unfolding ulp_from
ulp_from-IsUlp zero p n h = h
ulp_from-IsUlp (suc fuel) p n h = elim (Bool-cases (ltb n (limit * p))) [
  | inl fits ↦ rw fits h
  | inr longer ↦
      let big : tenth * (10 * p) ≤ n =
        subst (λ l. l * p ≤ n → tenth * (10 * p) ≤ n) (sym limit-tenth) (λ h. omega (arith, h))
          (ltb-false→le n (limit * p) longer) in
      rw longer (ulp_from-IsUlp fuel (10 * p) n (omega (arith, h.0), inr big))
]

ulp_from-enough : (fuel p n : ℕ) → n < limit * (p * 10 ^ fuel) → n < limit * ulp_from fuel p n
unfolding ulp_from
ulp_from-enough zero p n h =
    let one : p * 10 ^ 0 ≡ p = omega arith in subst (λ x. n < limit * x) one h
ulp_from-enough (suc fuel) p n h = elim (Bool-cases (ltb n (limit * p))) [
  | inl fits ↦ rw fits (ltb→lt n (limit * p) fits)
  | inr longer ↦
      let next : p * 10 ^ suc fuel ≡ 10 * p * 10 ^ fuel = rw (pow-suc 10 fuel) (omega arith) in
      rw longer (ulp_from-enough fuel (10 * p) n (subst (λ x. n < limit * x) next h))
]

lt-pow : (n : ℕ) → n < 10 ^ n
lt-pow zero = omega arith
lt-pow (suc n) = rw (pow-suc 10 n) (omega (arith, lt-pow n))

-- The fuel of `ulp` is enough: the unit leaves at most 28 digits.
pub ulp-enough : (n : ℕ) → n < limit * ulp n
ulp-enough n = ulp_from-enough n 1 n (
    let wide : 1 * (1 * 10 ^ n) ≤ limit * (1 * 10 ^ n) =
      mul-le-mul_right (1 * 10 ^ n) (omega (arith, limit-positive)) in
    omega (arith, wide, lt-pow n))

-- A number of 28 digits stays.
pub ulp-eq_one : (n : ℕ) → n < limit → ulp n ≡ 1
unfolding ulp_from
ulp-eq_one zero h = refl
ulp-eq_one (suc n) h = ground (arith, h)

-- The unit divides every larger power of ten.
ulp_from-divides :
    (t fuel p m n : ℕ)
    → m < limit
    → 0 < p
    → n ≡ m * (p * 10 ^ t)
    → (c : ℕ) × (p * 10 ^ t ≡ c * ulp_from fuel p n)
unfolding ulp_from
ulp_from-divides t zero p m n h pos eq = (10 ^ t, omega arith)
ulp_from-divides zero (suc fuel) p m n h pos eq =
    let one : 10 ^ 0 ≡ 1 = refl in
    let bound : suc m * p ≤ limit * p = mul-le-mul_right p (omega (arith, h)) in
    let fits : ltb n (limit * p) ≡ true = lt→ltb _ _ (omega (arith, eq, one, bound, pos)) in
    (1, rw fits (omega (arith, one)))
ulp_from-divides (suc t) (suc fuel) p m n h pos eq = elim (Bool-cases (ltb n (limit * p))) [
  | inl fits ↦ (10 ^ suc t, rw fits (omega arith))
  | inr longer ↦
      let next : p * 10 ^ suc t ≡ 10 * p * 10 ^ t = rw (pow-suc 10 t) (omega arith) in
      let (c, divides) =
        ulp_from-divides t fuel (10 * p) m n h (omega (arith, pos)) (eq ∙ ap (λ x. m * x) next) in
      (c, rw longer (next ∙ divides))
]

-- So do multiples of a power of ten.
pub round-exact : (m t : ℕ) → m < limit → round (m * 10 ^ t) ≡ m * 10 ^ t
unfolding round
round-exact m t h =
    let n = m * 10 ^ t in
    let (c, divides) = ulp_from-divides t n 1 m n h (omega arith) (omega arith) in
    let whole : 10 ^ t ≡ c * ulp n = omega (arith, divides) in
    let (positive, size) = ulp_from-IsUlp n 1 n (omega arith, inl refl) in
    let same : n ≡ m * c * ulp n = ap (λ x. m * x) whole ∙ omega arith in
    rw (ap (λ x. half_even x (ulp n)) same ∙ half_even-exact (m * c) (ulp n) positive) (sym same)

round-unit : (n : ℕ) → ulp n ≡ 1 → round n ≡ n
unfolding round
round-unit n one =
    let same : n ≡ n * 1 = omega arith in
    rw one (
      ap (λ x. x * 1) (ap (λ x. half_even x 1) same ∙ half_even-exact n 1 (omega arith)) ∙ sym same)

-- The error of a rounded number is at most a half in the 28th digit.
pub round-close :
    (n : ℕ)
    → (tenth * (2 * round n) ≤ tenth * (2 * n) + n) × (tenth * (2 * n) ≤ tenth * (2 * round n) + n)
unfolding round
round-close n =
    let (positive, size) = ulp_from-IsUlp n 1 n (omega arith, inl refl) in
    let (a, b) = half_even-close n (ulp n) positive in
    elim size [
      | inl one ↦ let exact = round-unit n one in (rw exact (omega arith), rw exact (omega arith))
      | inr long ↦
          let a' = mul-le-mul_right tenth a in
          let b' = mul-le-mul_right tenth b in (omega (arith, a', long), omega (arith, b', long))
    ]

pub round-small : (n : ℕ) → n < limit → round n ≡ n
round-small n h = round-unit n (ulp-eq_one n h)

-- A sum of multiples of a power of ten is exact, up to 28 digits.
pub add_up-exact :
    (t a : ℕ) (ks : List ℕ)
    → a + sum ks < limit
    → add_up (a * 10 ^ t) (map (λ k. k * 10 ^ t) ks) ≡ (a + sum ks) * 10 ^ t
unfolding add_up
add_up-exact t a [] h = omega arith
add_up-exact t a (k ∷ ks) h =
    let joined : a * 10 ^ t + k * 10 ^ t ≡ (a + k) * 10 ^ t = omega arith in
    let step = ap round joined ∙ round-exact (a + k) t (omega (arith, h)) in
    ap (λ x. add_up x (map (λ k. k * 10 ^ t) ks)) step
    ∙ add_up-exact t (a + k) ks (omega (arith, h))
    ∙ omega arith

scale_from-positive : (fuel p whole : ℕ) → 0 < p → 0 < scale_from fuel p whole
unfolding scale_from
scale_from-positive zero p whole h = h
scale_from-positive (suc fuel) p whole h = elim (Bool-cases (ltb (whole * (10 * p)) limit)) [
  | inl more ↦ rw more (scale_from-positive fuel (10 * p) whole (omega (arith, h)))
  | inr full ↦ rw full h
]

-- The quotient of a multiple is exact.
pub int_quotient-exact : (k d : ℕ) → k < limit → 0 < d → int_quotient (k * d) d ≡ k
unfolding int_quotient
int_quotient-exact k d h positive =
    let whole : k * d / d ≡ k = div-eq_of_eq-mul_left positive refl in
    let fits : ltb k limit ≡ true = lt→ltb k limit h in
    let f = scale k in
    let same : k * d * f ≡ k * f * d = omega arith in
    rw (whole, fits)
      (rw (same, half_even-exact (k * f) d positive)
        (div-eq_of_eq-mul_left (scale_from-positive 28 1 k (omega arith)) refl))

scale_from-le : (fuel p whole : ℕ) → p ≤ scale_from fuel p whole
unfolding scale_from
scale_from-le zero p whole = omega arith
scale_from-le (suc fuel) p whole = elim (Bool-cases (ltb (whole * (10 * p)) limit)) [
  | inl more ↦ rw more (omega (arith, scale_from-le fuel (10 * p) whole))
  | inr full ↦ rw full (omega arith)
]

scale_zero : 10 ≤ scale 0
unfolding scale_from limit
scale_zero = scale_from-le 27 10 0

-- A quotient of at most a half has no whole part.
pub int_quotient-half : (n d : ℕ) → 0 < d → 2 * n ≤ d → int_quotient n d ≡ 0
unfolding int_quotient
int_quotient-half n d positive half =
    let none_whole : n / d ≡ 0 = div-eq_of_lt (omega (arith, positive, half)) in
    let fits : ltb 0 limit ≡ true = lt→ltb 0 limit (omega (arith, limit-positive)) in
    let f = scale 0 in
    let (up, down) = half_even-close (n * f) d positive in
    let bounded : 2 * n * f ≤ d * f = mul-le-mul_right f half in
    let below : half_even (n * f) d < f =
      lt_of_close (half_even (n * f) d) f d positive scale_zero (omega (arith, up, bounded)) in
    rw (none_whole, fits) (div-eq_of_lt below)
