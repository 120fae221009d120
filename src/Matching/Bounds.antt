-- ===== src/Matching/Bounds.antt =====
-- The votes of a candidate: each landmark of the query counts once for an alignment.
use ugsync.Prelude.{
  All, All-take, ℕ, zero, suc, ◌+◌, ◌≤◌, ◌<◌, ◌≡◌, refl, Bool, false, not, List, [], ◌∷◌, ◌++◌,
  String, str_eq, keep_if, length, take, any, ltb, subst, arith, Bool-cases, inl, inr, ◌==◌,
}
use ugsync.Prelude.Sort.{sort_by, All-sort_by}
use ugsync.Dict.{Dict, get, put}
use ugsync.Exec.{Result, ok, err}
use ugsync.Ingest.Store.{LandmarkHash}
use ugsync.Ingest.Service.{Fingerprint}
use ugsync.Matching.Index.{Occurrence, IndexError}
use ugsync.Matching.Hits.{
  Rounding, MatchConfig, LandmarkReader, CandidateKey, Hits, VoteResult, same_key, add_index,
  add_hit, alignment, count_all,
}
use ugsync.Matching.Vote.{
  vote_landmarks, vote_scales, better, best_per_track, collect_results, ranks_before, ranked,
  scales_of, candidates_of, vote_candidates,
}

abbrev is_in : ℕ → List ℕ → Bool
is_in n ns = any (λ m. m == n) ns

abbrev AreDistinct : List ℕ → Type 0
AreDistinct [] = Unit
AreDistinct (m ∷ ms) = (is_in m ms ≡ false) × AreDistinct ms

abbrev AreBelow : ℕ → List ℕ → Type 0
AreBelow n ns = All (λ m. m < n) ns

is_in-append :
    (m n : ℕ) (ns : List ℕ) → is_in m ns ≡ false → (n == m) ≡ false → is_in m (ns ++ n ∷ []) ≡ false
is_in-append m n [] h other = ground (arith, other)
is_in-append m n (x ∷ xs) h other = ground (arith, is_in-append m n xs, other, h)

AreDistinct-append :
    (n : ℕ) (ns : List ℕ) → is_in n ns ≡ false → AreDistinct ns → AreDistinct (ns ++ n ∷ [])
AreDistinct-append n [] h distinct = (refl, tt)
AreDistinct-append n (m ∷ ms) h (new, distinct) = (
  is_in-append m n ms new (ground (arith, h)),
  AreDistinct-append n ms (ground (arith, h)) distinct,
)

AreBelow-append : (k n : ℕ) (ns : List ℕ) → n < k → AreBelow k ns → AreBelow k (ns ++ n ∷ [])
AreBelow-append k n [] h below = (h, tt)
AreBelow-append k n (m ∷ ms) h (this, rest) = (this, AreBelow-append k n ms h rest)

-- The list without a number.
abbrev without : ℕ → List ℕ → List ℕ
without n ns = keep_if (λ m. not (m == n)) ns

without_all : (n : ℕ) (ns : List ℕ) → is_in n ns ≡ false → without n ns ≡ ns
without_all n [] h = refl
without_all n (m ∷ ms) h = ground (arith, without_all n ms, h)

length-without : (n : ℕ) (ns : List ℕ) → AreDistinct ns → length ns ≤ suc (length (without n ns))
length-without n [] distinct = omega arith
length-without n (m ∷ ms) (new, distinct) =
    ground (arith, length-without n ms distinct, without_all n ms, new)

is_in-without : (m n : ℕ) (ns : List ℕ) → is_in m ns ≡ false → is_in m (without n ns) ≡ false
is_in-without m n [] h = refl
is_in-without m n (x ∷ xs) h = ground (arith, is_in-without m n xs, h)

AreDistinct-without : (n : ℕ) (ns : List ℕ) → AreDistinct ns → AreDistinct (without n ns)
AreDistinct-without n [] distinct = tt
AreDistinct-without n (m ∷ ms) (new, distinct) = elim (Bool-cases (m == n)) [
  | inl same ↦ rw same (AreDistinct-without n ms distinct)
  | inr other ↦ rw other (is_in-without m n ms new, AreDistinct-without n ms distinct)
]

AreBelow-without : (n : ℕ) (ns : List ℕ) → AreBelow (suc n) ns → AreBelow n (without n ns)
AreBelow-without n [] below = tt
AreBelow-without n (m ∷ ms) (this, rest) = elim (Bool-cases (m == n)) [
  | inl same ↦ rw same (AreBelow-without n ms rest)
  | inr other ↦ rw other (ground (arith, this, other), AreBelow-without n ms rest)
]

-- Distinct numbers below `n` are at most `n` in number.
pigeons : (n : ℕ) (ns : List ℕ) → AreDistinct ns → AreBelow n ns → length ns ≤ n
pigeons n [] distinct below = omega arith
pigeons zero (m ∷ ms) distinct (this, rest) = absurd (omega arith)
pigeons (suc n) (m ∷ ms) distinct below = omega (
  arith,
  length-without n (m ∷ ms) distinct,
  pigeons n (without n (m ∷ ms)) (AreDistinct-without n (m ∷ ms) distinct)
      (AreBelow-without n (m ∷ ms) below),
)

abbrev IsVote : ℕ → Hits → Type 0
IsVote n v = AreDistinct v.query_hits × AreBelow n v.query_hits

add_index-IsVote :
    (n q : ℕ) (ns : List ℕ)
    → q < n
    → AreDistinct ns × AreBelow n ns
    → AreDistinct (add_index q ns) × AreBelow n (add_index q ns)
add_index-IsVote n q ns small (distinct, below) = elim (Bool-cases (is_in q ns)) [
  | inl there ↦ rw there (distinct, below)
  | inr new ↦ rw new (AreDistinct-append q ns new distinct, AreBelow-append n q ns small below)
]

module _ (n : ℕ) where
  add_hit-IsVote :
      (key : CandidateKey) (q h : ℕ) (vs : List Hits)
      → q < n
      → All (IsVote n) vs
      → All (IsVote n) (add_hit key q h vs)
  unfolding add_hit
  add_hit-IsVote key q h [] small all = (((refl, tt), (small, tt)), tt)
  add_hit-IsVote key q h (v ∷ vs) small (this, rest) = elim (Bool-cases (same_key v.key key)) [
    | inl same ↦ rw same (add_index-IsVote n q v.query_hits small this, rest)
    | inr other ↦ rw other (this, add_hit-IsVote key q h vs small rest)
  ]

  count_all-IsVote :
      (scale anchor q : ℕ) (os : List Occurrence) (seen : List CandidateKey) (vs : List Hits)
      → q < n
      → All (IsVote n) vs
      → All (IsVote n) (count_all scale anchor q os seen vs)
  unfolding count_all
  count_all-IsVote scale anchor q [] seen vs small all = all
  count_all-IsVote scale anchor q (o ∷ os) seen vs small all =
      elim (Bool-cases (any (same_key (alignment scale anchor o)) seen)) [
        | inl before ↦ rw before (count_all-IsVote scale anchor q os seen vs small all)
        | inr new ↦ rw new (
            count_all-IsVote scale anchor q os _ _ small
              (add_hit-IsVote (alignment scale anchor o) q o.hash_index vs small all))
      ]

  put-IsVote :
      (best : Dict Hits) (t : String) (v : Hits)
      → IsVote n v
      → All (λ (x, w). IsVote n w) best
      → All (λ (x, w). IsVote n w) (put best t v)
  unfolding put
  put-IsVote [] t v vote all = (vote, tt)
  put-IsVote ((x, w) ∷ best) t v vote (this, rest) = elim (Bool-cases (str_eq x t)) [
    | inl own ↦ rw own (vote, rest)
    | inr other ↦ rw other (this, put-IsVote best t v vote rest)
  ]

  best-IsVote :
      (vs : List Hits) (best : Dict Hits)
      → All (IsVote n) vs
      → All (λ (x, w). IsVote n w) best
      → All (λ (x, w). IsVote n w) (best_per_track vs best)
  unfolding best_per_track
  best-IsVote [] best votes all = all
  best-IsVote (v ∷ vs) best (this, rest) all =
      elim (Bool-cases (better (get best v.key.track_id) v)) [
        | inl wins ↦ rw wins (best-IsVote vs _ rest (put-IsVote best v.key.track_id v this all))
        | inr loses ↦ rw loses (best-IsVote vs best rest all)
      ]

-- At least `min_votes`, and at most one vote for each of `n` landmarks.
abbrev pub HasVotes : (min_votes n : ℕ) → VoteResult → Type 0
HasVotes min_votes n r = (min_votes ≤ r.vote_count) × (r.vote_count ≤ n)

module _ (rounding : Rounding) (config : MatchConfig) (reader : LandmarkReader) where
  vote_landmarks-IsVote :
      (n scale q : ℕ) (ls : List LandmarkHash) (vs : List Hits)
      → q + length ls ≤ n
      → All (IsVote n) vs
      → All (IsVote n) (vote_landmarks rounding config reader scale q ls vs)
  unfolding vote_landmarks
  vote_landmarks-IsVote n scale q [] vs fits all = all
  vote_landmarks-IsVote n scale q (l ∷ ls) vs fits all =
      vote_landmarks-IsVote n scale (suc q) ls _ (omega (arith, fits))
        (count_all-IsVote n scale _ q _ [] vs (omega (arith, fits)) all)

  vote_scales-IsVote :
      (scales : List ℕ) (ls : List LandmarkHash) (vs : List Hits)
      → All (IsVote (length ls)) vs
      → All (IsVote (length ls)) (vote_scales rounding config reader scales ls vs)
  unfolding vote_scales
  vote_scales-IsVote [] ls vs all = all
  vote_scales-IsVote (s ∷ scales) ls vs all =
      vote_scales-IsVote scales ls _ (vote_landmarks-IsVote (length ls) s 0 ls vs (omega arith) all)

  collect-HasVotes :
      (n count min_votes : ℕ) (best : Dict Hits)
      → All (λ (x, w). IsVote n w) best
      → All (HasVotes min_votes n) (collect_results rounding reader count min_votes best)
  unfolding collect_results
  collect-HasVotes n count min_votes [] all = tt
  collect-HasVotes n count min_votes ((t, v) ∷ best) ((distinct, below), rest) =
      let more = collect-HasVotes n count min_votes best rest in
      elim (Bool-cases (ltb (length v.query_hits) min_votes)) [
        | inl few ↦ rw few more
        | inr enough ↦
            rw enough ((ground (arith, enough), pigeons n v.query_hits distinct below), more)
      ]

  length-take_le : (k : ℕ) (rs : List VoteResult) → length (take k rs) ≤ k
  length-take_le zero rs = omega arith
  length-take_le (suc k) [] = omega arith
  length-take_le (suc k) (r ∷ rs) = omega (arith, length-take_le k rs)

  abbrev Bounded : (min_votes limit n : ℕ) → List VoteResult → Type 0
  Bounded min_votes limit n rs = (length rs ≤ limit) × All (HasVotes min_votes n) rs

  candidates-Bounded :
      (min_votes limit : ℕ) (ls : List LandmarkHash) (scales : Result IndexError (List ℕ))
      {rs : List VoteResult}
      → candidates_of rounding config reader min_votes limit ls scales ≡ ok rs
      → Bounded min_votes limit (length ls) rs
  unfolding ranked
  candidates-Bounded min_votes limit ls (err e) found = absurd (ground arith)
  candidates-Bounded min_votes limit ls (ok scales) {rs} found =
      let results =
        collect_results rounding reader (length ls) min_votes
          (best_per_track (vote_scales rounding config reader scales ls []) []) in
      let same : ranked rounding limit results ≡ rs = ground (arith, found) in
      let le = ranks_before rounding.text_leb in
      subst (Bounded min_votes limit (length ls)) same (
        length-take_le limit (sort_by le results),
        All-take (HasVotes min_votes (length ls)) limit (sort_by le results) (
            All-sort_by le (HasVotes min_votes (length ls)) results (
              collect-HasVotes (length ls) (length ls) min_votes _
                (best-IsVote (length ls) _ [] (vote_scales-IsVote scales ls [] tt) tt))),
      )

  -- What a query finds: at most `limit` candidates, each with at least `min_votes` votes and with
  -- at most one vote for each landmark of the query, so that its coverage is a fraction in [0, 1].
  pub vote_candidates-HasVotes :
      (query : Fingerprint) (min_votes : ℕ) (scales : List ℕ) (limit : ℕ) {rs : List VoteResult}
      → vote_candidates rounding config reader query min_votes scales limit ≡ ok rs
      → (length rs ≤ limit) × All (HasVotes min_votes (length query.hashes)) rs
  unfolding vote_candidates
  vote_candidates-HasVotes query min_votes scales limit found =
      candidates-Bounded min_votes limit query.hashes
        (scales_of min_votes limit query.hashes scales) found
