-- ===== src/Matching/Hits.antt =====
-- matching/service.py: the hits of a candidate alignment, and how an occurrence votes. A set of indices
-- is a list without repetition, a dictionary of candidates the list of its items.
use ugsync.Prelude.{
  ℕ, zero, suc, ◌+◌, Bool, ◌&&◌, List, [], ◌∷◌, ◌++◌, String, str_eq, any, ◌==◌, if◌then◌else◌,
}
use ugsync.Prelude.Int.{ℤ, pos, negsuc, sub_ℕ}
use ugsync.Matching.Index.{Occurrence, same_ℤ}

-- The rounding of floats is the host's: `scaled s n` is `round(n * s)` for a tempo scale `s`, a number
-- of hundred-thousandths in which 0 stands for one that is not positive; `ratio a b` is
-- `round(a / b, 6)` in millionths, `seconds` the offset of a number of frames in millionths of a
-- second, and `text_leb` the order of texts.
pub record Rounding : Type 0 where
  pub scaled : ℕ → ℕ → ℕ
  pub ratio : ℕ → ℕ → ℕ
  pub seconds : ℤ → ℤ
  pub text_leb : String → String → Bool

pub record MatchConfig : Type 0 where
  pub ratio_tolerance_bins : ℕ
  pub tempo_delta_tolerance_frames : ℕ

-- What voting reads of a store, for one schema.
pub record LandmarkReader : Type 0 where
  pub fetch : ℤ → ℕ → List Occurrence
  pub hash_count : String → ℕ

pub record CandidateKey : Type 0 where
  pub track_id : String
  pub scale : ℕ
  pub offset : ℤ

-- The two sets of hits of a candidate.
pub record Hits : Type 0 where
  pub key : CandidateKey
  pub query_hits : List ℕ
  pub reference_hits : List ℕ

pub record VoteResult : Type 0 where
  pub track_id : String
  pub vote_count : ℕ
  pub query_coverage : ℕ
  pub track_coverage : ℕ
  pub tempo_scale : ℕ
  pub offset_seconds : ℤ

abbrev pub same_key : CandidateKey → CandidateKey → Bool
same_key a b = str_eq a.track_id b.track_id && a.scale == b.scale && same_ℤ a.offset b.offset

-- `s.add(n)`
abbrev pub add_index : ℕ → List ℕ → List ℕ
add_index n ns = if any (λ m. m == n) ns then ns else ns ++ n ∷ []

-- `query_hits[key].add(q)` and `reference_hits[key].add(h)`
unfoldable pub add_hit : CandidateKey → (query_index hash_index : ℕ) → List Hits → List Hits
add_hit key q h [] = record { key = key; query_hits = q ∷ []; reference_hits = h ∷ [] } ∷ []
add_hit key q h (v ∷ vs) =
    let rest = add_hit key q h vs in
    if same_key v.key key
    then record {
      key = v.key;
      query_hits = add_index q v.query_hits;
      reference_hits = add_index h v.reference_hits;
    }
      ∷ vs
    else v ∷ rest

abbrev pub next_ℤ : ℤ → ℤ
next_ℤ (pos n) = pos (suc n)
next_ℤ (negsuc zero) = pos 0
next_ℤ (negsuc (suc n)) = negsuc n

abbrev pub minus_ℕ : ℤ → ℕ → ℤ
minus_ℕ (pos n) t = sub_ℕ n t
minus_ℕ (negsuc n) t = negsuc (n + t)

-- `range(c, c + n)`
unfoldable pub span : ℤ → ℕ → List ℤ
span c zero = []
span c (suc n) = c ∷ span (next_ℤ c) n

abbrev pub around : ℤ → ℕ → List ℤ
around c t = span (minus_ℕ c t) (suc (t + t))

abbrev pub alignment : (scale scaled_anchor : ℕ) → Occurrence → CandidateKey
alignment scale anchor o = record {
  track_id = o.track_id;
  scale = scale;
  offset = sub_ℕ o.anchor_frame anchor;
}

-- An occurrence votes for its alignment, once for each landmark of the query and scale.
unfoldable pub count_all :
    (scale scaled_anchor query_index : ℕ)
    → List Occurrence
    → (seen : List CandidateKey) → List Hits
    → List Hits
count_all scale anchor q [] seen hits = hits
count_all scale anchor q (o ∷ os) seen hits =
    let key = alignment scale anchor o in
    if any (same_key key) seen
    then count_all scale anchor q os seen hits
    else count_all scale anchor q os (key ∷ seen) (add_hit key q o.hash_index hits)
