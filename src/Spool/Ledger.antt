-- ===== src/Spool/Ledger.antt =====
-- Properties of an outbox over any calls: bytes are accounted for, retries back off within bounds,
-- and a chunk whose upload was cut off is never taken up again.
use ugsync.Prelude.{
  ℕ, ◌+◌, ◌≡◌, refl, Bool, true, false, Option, none, some, List, [], ◌∷◌, String, arith, All,
  if◌then◌else◌, Option-cases, inl, inr,
}
use ugsync.Dict.{get, weigh-put}
use ugsync.Exec.{Result, ok, err}
use ugsync.Spool.Outbox.{
  OutboxRow, QueuedChunk, CaptureFile, Spool, uploading, SpoolError, new_row, claimed, acknowledged,
  released, enqueue_file, insert_row, claim_due, mark_uploaded, mark_retry, uploading_row,
  queued_bytes, unacknowledged_bytes,
}
use ugsync.Spool.Claim.{IsSpool, Claims, nothing_due, took, claim_due-Claims}
use ugsync.Spool.Steps.{Request, after, IsRestartable, restart_leaves, after-IsSpool}

abbrev pub run : List Request → Spool → Spool
run [] s = s
run (q ∷ qs) s = run qs (after q s)

-- A chunk that is being uploaded when the device stops stays so: no captures, claims and flushes
-- that follow, however many and however late, take it up again or change its row.
pub uploading_stuck :
    (qs : List Request) (s : Spool) (k : String) (row : OutboxRow)
    → IsSpool s
    → All IsRestartable qs
    → get s k ≡ some row
    → row.status ≡ uploading
    → get (run qs s) k ≡ some row
uploading_stuck [] s k row keyed all there busy = there
uploading_stuck (q ∷ qs) s k row keyed all there busy =
    uploading_stuck qs (after q s) k row (after-IsSpool q s keyed) all.1
      (restart_leaves k row s there busy q all.0 keyed) busy

abbrev pub succeeded : {A : Type 0} → Result SpoolError A → Bool
succeeded (ok a) = true
succeeded (err e) = false

-- The bytes of the file that an enqueue accepted.
abbrev pub accepted_bytes : Option CaptureFile → Result SpoolError QueuedChunk → ℕ
accepted_bytes none r = 0
accepted_bytes (some file) r = if succeeded r then file.size else 0

pub enqueue_bytes :
    (source id : String) (file : Option CaptureFile) (started ended now : ℕ) (s : Spool)
    → let (r, s') = enqueue_file source file started ended id now s in
      queued_bytes s' ≡ queued_bytes s + accepted_bytes file r
unfolding enqueue_file insert_row queued_bytes
enqueue_bytes source id none started ended now s = ground arith
enqueue_bytes source id (some file) started ended now s =
    ground (arith, weigh-put unacknowledged_bytes s id (new_row id source file started ended now))

claim_bytes :
    (now : ℕ) (s : Spool) {chunk : Option QueuedChunk} {s' : Spool}
    → Claims now s chunk s'
    → queued_bytes s' ≡ queued_bytes s
unfolding queued_bytes
claim_bytes now s (nothing_due h) = refl
claim_bytes now s (took row listed due oldest) =
    ground (arith, due, listed, weigh-put unacknowledged_bytes s row.chunk_id (claimed row))

release_bytes :
    (id error : String) (delay : Option ℕ) (now : ℕ) (s : Spool)
    → queued_bytes (mark_retry id error delay now s).1 ≡ queued_bytes s
unfolding mark_retry uploading_row queued_bytes
release_bytes id error delay now s = elim (Option-cases (get s id)) [
  | inl missing ↦ ground arith
  | inr (row, found) ↦
      ground (arith, weigh-put unacknowledged_bytes s id (released row error delay now))
]

-- The bytes of the chunk that an acknowledgement settled.
abbrev pub settled_bytes : Option OutboxRow → Result SpoolError (Unit {0}) → ℕ
settled_bytes none r = 0
settled_bytes (some row) r = if succeeded r then row.byte_count else 0

acknowledge_bytes :
    (id text : String) (s : Spool)
    → let (r, s') = mark_uploaded id text s in
      queued_bytes s' + settled_bytes (get s id) r ≡ queued_bytes s
unfolding mark_uploaded uploading_row queued_bytes
acknowledge_bytes id text s = elim (Option-cases (get s id)) [
  | inl missing ↦ ground arith
  | inr (row, found) ↦ ground (arith, weigh-put unacknowledged_bytes s id (acknowledged row text))
]

-- The queued bytes grow by the file of an accepted enqueue, shrink by the chunk of an accepted
-- acknowledgement, and stay the same under a claim, under a release and under every call that
-- raises.
pub bytes_accounted :
    (s : Spool)
    → IsSpool s
    → ((source id : String) (file : Option CaptureFile) (started ended now : ℕ)
        → let (r, s') = enqueue_file source file started ended id now s in
          queued_bytes s' ≡ queued_bytes s + accepted_bytes file r)
      × ((now : ℕ) → queued_bytes (claim_due now s).1 ≡ queued_bytes s)
      × ((id text : String)
          → let (r, s') = mark_uploaded id text s in
            queued_bytes s' + settled_bytes (get s id) r ≡ queued_bytes s)
      × ((id error : String) (delay : Option ℕ) (now : ℕ)
          → queued_bytes (mark_retry id error delay now s).1 ≡ queued_bytes s)
bytes_accounted s keyed = (
  (λ source id file started ended now. enqueue_bytes source id file started ended now s),
  (λ now.
      let (chunk, s', ran, claims) = claim_due-Claims now s keyed in
      rw ran (claim_bytes now s claims)),
  (λ id text. acknowledge_bytes id text s),
  (λ id error delay now. release_bytes id error delay now s),
)
