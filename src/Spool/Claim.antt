-- ===== src/Spool/Claim.antt =====
-- `claim_due` takes the oldest chunk that is due, and nothing else.
use ugsync.Prelude.{
  ℕ, ◌+◌, ◌≤◌, ◌≡◌, refl, Bool, true, false, Option, none, some, List, [], ◌∷◌, arith, All, keep_if,
  All-keep_if, All-of_keep_if, Option-cases, Bool-cases, inl, inr,
}
use ugsync.Dict.{get, put, values, IsKeyed, values-get}
use ugsync.Exec.{ok}
use ugsync.Spool.Outbox.{
  OutboxRow, QueuedChunk, Spool, row_to_chunk, earliest, sooner, is_due, due_row, claimed,
  claim_due,
}

abbrev pub IsSpool : Spool → Type 0
IsSpool s = IsKeyed (λ row. row.chunk_id) s

-- Created no later than any of the rows.
abbrev pub IsOldest : OutboxRow → List OutboxRow → Type 0
IsOldest row rows = All (λ r. row.created_at ≤ r.created_at) rows

IsOldest-trans :
    (a b : OutboxRow) (rows : List OutboxRow)
    → a.created_at ≤ b.created_at
    → IsOldest b rows
    → IsOldest a rows
IsOldest-trans a b [] h old = tt
IsOldest-trans a b (r ∷ rows) h old = (omega arith, IsOldest-trans a b rows h old.1)

earliest-none : (rows : List OutboxRow) → earliest rows ≡ none → rows ≡ []
unfolding earliest
earliest-none [] h = refl
earliest-none (r ∷ rows) h = absurd (ground arith)

earliest-IsOldest :
    (rows : List OutboxRow) (row : OutboxRow) → earliest rows ≡ some row → IsOldest row rows
unfolding earliest
earliest-IsOldest [] row h = tt
earliest-IsOldest (r ∷ rows) row h = elim (Option-cases (earliest rows)) [
  | inl empty ↦ (ground arith, rw (earliest-none rows empty) tt)
  | inr (best, found) ↦ (
    ground arith,
    IsOldest-trans row best rows (ground arith) (earliest-IsOldest rows best found),
  )
]

earliest-holds :
    (P : OutboxRow → Type 0) (rows : List OutboxRow) (row : OutboxRow)
    → All P rows
    → earliest rows ≡ some row
    → P row
unfolding earliest
earliest-holds P [] row all h = absurd (ground arith)
earliest-holds P (r ∷ rows) row all h = elim (Option-cases (earliest rows)) [
  | inl empty ↦ let same : r ≡ row = ground arith in rw (← same) all.0
  | inr (best, found) ↦ elim (Bool-cases (sooner r best)) [
    | inl first ↦ let same : r ≡ row = ground arith in rw (← same) all.0
    | inr after ↦
        let same : best ≡ row = ground arith in rw (← same) (earliest-holds P rows best all.1 found)
  ]
]

keeps_none :
    (p : OutboxRow → Bool) (rows : List OutboxRow)
    → keep_if p rows ≡ []
    → All (λ r. p r ≡ false) rows
keeps_none p [] h = tt
keeps_none p (r ∷ rows) h = elim (Bool-cases (p r)) [
  | inl kept ↦ absurd (ground arith)
  | inr dropped ↦ (dropped, keeps_none p rows (rw dropped at h))
]

-- What a claim at an instant did: it took the oldest of the chunks that were due, or there was none.
pub data Claims (now : ℕ) (s : Spool) : Option QueuedChunk → Spool → Type 0 where
  nothing_due : All (λ r. is_due now r ≡ false) (values s) → Claims now s none s
  took :
      (row : OutboxRow)
      → get s row.chunk_id ≡ some row
      → is_due now row ≡ true
      → All (λ r. is_due now r ≡ true → row.created_at ≤ r.created_at) (values s)
      → Claims now s (some (row_to_chunk row (row.attempts + 1))) (put s row.chunk_id (claimed row))

-- A claim never raises. In a keyed table it takes the oldest due chunk, marks its row as being
-- uploaded with one attempt more and returns it; where no chunk is due it changes nothing.
pub claim_due-Claims :
    (now : ℕ) (s : Spool)
    → IsSpool s
    → (chunk : Option QueuedChunk) × (s' : Spool) × (claim_due now s ≡ (ok chunk, s'))
      × Claims now s chunk s'
unfolding claim_due due_row
claim_due-Claims now s keyed = elim (Option-cases (earliest (keep_if (is_due now) (values s)))) [
  | inl empty ↦ (
    none,
    s,
    rw empty refl,
    nothing_due (keeps_none (is_due now) (values s) (earliest-none _ empty)),
  )
  | inr (row, found) ↦
      let (listed, due) =
        earliest-holds _ _ row (All-keep_if _ (is_due now) (values s) (values-get _ s keyed))
          found in
      (
        some (row_to_chunk row (row.attempts + 1)),
        put s row.chunk_id (claimed row),
        rw found refl,
        took row listed due
            (All-of_keep_if _ (is_due now) (values s) (earliest-IsOldest _ row found)),
      )
]
