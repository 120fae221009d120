-- ===== src/Spool/Steps.antt =====
-- The calls on an outbox, as requests, and what each keeps.
use ugsync.Prelude.{
  ℕ, ◌≡◌, ◌∙◌, refl, Bool, Option, none, some, String, arith, eq_iff, Option-cases, inl, inr,
}
use ugsync.Dict.{get, put, get-put, IsKeyed-put, key_of_get}
use ugsync.Spool.Outbox.{
  OutboxRow, QueuedChunk, CaptureFile, Spool, uploading, new_row, claimed, acknowledged, released,
  enqueue_file, insert_row, claim_due, mark_uploaded, mark_retry, uploading_row,
}
use ugsync.Spool.Flush.{Uploader, flush_one}
use ugsync.Spool.Claim.{IsSpool, Claims, nothing_due, took, claim_due-Claims}
use ugsync.Spool.Flushed.{Flushes, idle, tried_one, flush_one-Flushes}

pub data Request : Type 0 where
  enqueue :
      (source_id : String)
      → Option CaptureFile
      → (started_at ended_at : ℕ) → (chunk_id : String) → (now : ℕ) → Request
  claim : (now : ℕ) → Request
  acknowledge : (chunk_id receipt : String) → Request
  release : (chunk_id error : String) → (retry_after : Option ℕ) → (now : ℕ) → Request
  flush : Uploader → (now later : ℕ) → Request

unfoldable pub after : Request → Spool → Spool
after (enqueue source file started ended id now) s =
    (enqueue_file source file started ended id now s).1
after (claim now) s = (claim_due now s).1
after (acknowledge id text) s = (mark_uploaded id text s).1
after (release id error delay now) s = (mark_retry id error delay now s).1
after (flush uploader now later) s = (flush_one uploader now later s).1

-- The calls that a device makes after a restart: captures go on, and chunks that are due are claimed
-- and uploaded.
abbrev pub IsRestartable : Request → Type 0
IsRestartable (enqueue _ _ _ _ _ _) = Unit
IsRestartable (claim _) = Unit
IsRestartable (flush _ _ _) = Unit
IsRestartable (acknowledge _ _) = ⊥
IsRestartable (release _ _ _ _) = ⊥

-- A claim and a flush leave a row that is being uploaded.
module _ (k : String) (row : OutboxRow) (s : Spool) (there : get s k ≡ some row)
    (busy : row.status ≡ uploading) where
  claim_leaves :
      (now : ℕ) {chunk : Option QueuedChunk} {s' : Spool}
      → Claims now s chunk s'
      → get s' k ≡ some row
  claim_leaves now (nothing_due h) = there
  claim_leaves now (took other listed due oldest) =
      ground (arith, get-put s other.chunk_id k (claimed other), eq_iff other.chunk_id k)

  flush_leaves :
      (uploader : Uploader) (now later : ℕ) {sent : Bool} {s' : Spool}
      → Flushes uploader now later s sent s'
      → get s' k ≡ some row
  flush_leaves uploader now later (idle h) = there
  flush_leaves uploader now later
        (tried_one other answer s' listed due oldest asked same view keyed) =
      ground (arith, view k, eq_iff other.chunk_id k)

  pub restart_leaves : (q : Request) → IsRestartable q → IsSpool s → get (after q s) k ≡ some row
  unfolding after enqueue_file insert_row
  restart_leaves (enqueue source none started ended id now) h keyed = ground arith
  restart_leaves (enqueue source (some file) started ended id now) h keyed =
      ground (arith, get-put s id k (new_row id source file started ended now), eq_iff id k)
  restart_leaves (claim now) h keyed =
      let (chunk, s', ran, claims) = claim_due-Claims now s keyed in
      rw (ran, after) (claim_leaves now claims)
  restart_leaves (flush uploader now later) h keyed =
      let (sent, s', ran, flushes) = flush_one-Flushes uploader now later s keyed in
      rw (ran, after) (flush_leaves uploader now later flushes)
  restart_leaves (acknowledge id text) h keyed = absurd h
  restart_leaves (release id error delay now) h keyed = absurd h

Claims-IsSpool :
    (now : ℕ) (s : Spool) {chunk : Option QueuedChunk} {s' : Spool}
    → Claims now s chunk s'
    → IsSpool s
    → IsSpool s'
Claims-IsSpool now s (nothing_due h) keyed = keyed
Claims-IsSpool now s (took row listed due oldest) keyed =
    IsKeyed-put _ s row.chunk_id (claimed row) refl keyed

Flushes-IsSpool :
    (uploader : Uploader) (now later : ℕ) (s : Spool) {sent : Bool} {s' : Spool}
    → Flushes uploader now later s sent s'
    → IsSpool s
    → IsSpool s'
Flushes-IsSpool uploader now later s (idle h) keyed = keyed
Flushes-IsSpool uploader now later s
      (tried_one row answer s' listed due oldest asked same view kept) keyed =
    kept

rewrite-IsSpool :
    (s : Spool) (k : String) (row new : OutboxRow)
    → IsSpool s
    → get s k ≡ some row
    → new.chunk_id ≡ row.chunk_id
    → IsSpool (put s k new)
rewrite-IsSpool s k row new keyed found same =
    IsKeyed-put _ s k new (same ∙ key_of_get _ s k keyed found) keyed

-- Whatever a call does, and whether it raises or not, the table stays keyed by its chunks.
pub after-IsSpool : (q : Request) (s : Spool) → IsSpool s → IsSpool (after q s)
unfolding after enqueue_file insert_row mark_uploaded mark_retry uploading_row
after-IsSpool (enqueue source none started ended id now) s keyed = ground (arith, keyed)
after-IsSpool (enqueue source (some file) started ended id now) s keyed =
    ground (arith, keyed, IsKeyed-put _ s id (new_row id source file started ended now) refl keyed)
after-IsSpool (claim now) s keyed =
    let (chunk, s', ran, claims) = claim_due-Claims now s keyed in
    rw (ran, after) (Claims-IsSpool now s claims keyed)
after-IsSpool (flush uploader now later) s keyed =
    let (sent, s', ran, flushes) = flush_one-Flushes uploader now later s keyed in
    rw (ran, after) (Flushes-IsSpool uploader now later s flushes keyed)
after-IsSpool (acknowledge id text) s keyed = elim (Option-cases (get s id)) [
  | inl missing ↦ ground (arith, keyed)
  | inr (row, found) ↦
      ground (arith, keyed, rewrite-IsSpool s id row (acknowledged row text) keyed found refl)
]
after-IsSpool (release id error delay now) s keyed = elim (Option-cases (get s id)) [
  | inl missing ↦ ground (arith, keyed)
  | inr (row, found) ↦
      ground
        (arith, keyed, rewrite-IsSpool s id row (released row error delay now) keyed found refl)
]
