-- ===== src/Spool/Flushed.antt =====
-- What one flush does: it never raises, and leaves the chunk that it took acknowledged or waiting for
-- a retry.
use ugsync.Prelude.{
  ℕ, ◌+◌, ◌≤◌, ◌≡◌, refl, Bool, true, false, Option, none, some, String, arith, All, str_eq,
  eq_refl, if◌then◌else◌,
}
use ugsync.Dict.{get, put, values, get-put, IsKeyed-put}
use ugsync.Exec.{ok}
use ugsync.Spool.Outbox.{
  OutboxRow, QueuedChunk, Spool, row_to_chunk, is_due, claimed, claim_due, acknowledged, released,
  mark_uploaded, mark_retry, uploading_row,
}
use ugsync.Spool.Flush.{Upload, receipt, failed, Uploader, checked, settle, flush_one}
use ugsync.Spool.Claim.{IsSpool, Claims, nothing_due, took, claim_due-Claims}

-- The row of a chunk whose upload was tried.
abbrev pub tried : OutboxRow → Upload → (later : ℕ) → OutboxRow
tried row (receipt text) later = acknowledged (claimed row) text
tried row (failed error) later = released (claimed row) error none later

abbrev pub is_receipt : Upload → Bool
is_receipt (receipt text) = true
is_receipt (failed error) = false

pub data Flushes (uploader : Uploader) (now later : ℕ) (s : Spool) : Bool → Spool → Type 0 where
  idle : All (λ r. is_due now r ≡ false) (values s) → Flushes uploader now later s false s
  tried_one :
      (row : OutboxRow) (answer : Upload) (s' : Spool) {sent : Bool}
      → get s row.chunk_id ≡ some row
      → is_due now row ≡ true
      → All (λ r. is_due now r ≡ true → row.created_at ≤ r.created_at) (values s)
      → checked (uploader (row_to_chunk row (row.attempts + 1))) ≡ answer
      → sent ≡ is_receipt answer
      → ((k : String)
          → get s' k ≡ (if str_eq row.chunk_id k then some (tried row answer later) else get s k))
      → IsSpool s'
      → Flushes uploader now later s sent s'

-- A claimed chunk can be settled either way.
settles :
    (row : OutboxRow) (s : Spool) (later : ℕ) (given : Upload)
    → settle
        (row_to_chunk row (row.attempts + 1))
        later
        (checked given)
        (put s row.chunk_id (claimed row))
      ≡ (
        ok (is_receipt (checked given)),
        put (put s row.chunk_id (claimed row)) row.chunk_id (tried row (checked given) later),
      )
unfolding mark_uploaded mark_retry uploading_row
settles row s later (receipt text) =
    ground (arith, get-put s row.chunk_id row.chunk_id (claimed row), eq_refl row.chunk_id)
settles row s later (failed error) =
    ground (arith, get-put s row.chunk_id row.chunk_id (claimed row), eq_refl row.chunk_id)

overwrite :
    (s : Spool) (k j : String) (a b : OutboxRow)
    → get (put (put s k a) k b) j ≡ (if str_eq k j then some b else get s j)
overwrite s k j a b = ground (arith, get-put (put s k a) k j b, get-put s k j a)

chunk_id-tried :
    (row : OutboxRow) (answer : Upload) (later : ℕ)
    → (tried row answer later).chunk_id ≡ row.chunk_id
chunk_id-tried row (receipt text) later = refl
chunk_id-tried row (failed error) later = refl

-- The result of a flush that ends in some way described by `Flushes`.
abbrev pub FlushesTo : Uploader → (now later : ℕ) → Spool → Type 0
FlushesTo uploader now later s =
    (sent : Bool) × (s' : Spool) × (flush_one uploader now later s ≡ (ok sent, s'))
    × Flushes uploader now later s sent s'

after_claim :
    (uploader : Uploader) (now later : ℕ) (s : Spool) {chunk : Option QueuedChunk} {s1 : Spool}
    → IsSpool s
    → Claims now s chunk s1
    → claim_due now s ≡ (ok chunk, s1)
    → FlushesTo uploader now later s
unfolding flush_one
after_claim uploader now later s keyed (nothing_due none_due) ran =
    (false, s, rw ran refl, idle none_due)
after_claim uploader now later s keyed (took row listed due oldest) ran =
    let answer = checked (uploader (row_to_chunk row (row.attempts + 1))) in
    let mid = put s row.chunk_id (claimed row) in
    let end = tried row answer later in
    (
      is_receipt answer,
      put mid row.chunk_id end,
      rw ran (settles row s later (uploader (row_to_chunk row (row.attempts + 1)))),
      tried_one row answer _ listed due oldest refl refl
          (λ k. overwrite s row.chunk_id k (claimed row) end)
          (IsKeyed-put _ mid row.chunk_id end (chunk_id-tried row answer later)
            (IsKeyed-put _ s row.chunk_id (claimed row) refl keyed)),
    )

-- In a keyed table a flush never raises. Where no chunk is due it returns false and changes
-- nothing. Otherwise it tries the oldest due chunk: on a receipt that is not blank it returns true
-- and stores the receipt; on an error or a blank receipt it returns false and leaves the chunk to
-- be retried after the backoff, with the error. No other chunk changes.
pub flush_one-Flushes :
    (uploader : Uploader) (now later : ℕ) (s : Spool) → IsSpool s → FlushesTo uploader now later s
flush_one-Flushes uploader now later s keyed =
    let (chunk, s1, ran, claims) = claim_due-Claims now s keyed in
    after_claim uploader now later s keyed claims ran
