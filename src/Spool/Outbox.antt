-- ===== src/Spool/Outbox.antt =====
-- ingestion/edge.py, `EdgeSpool`: the table `capture_outbox`, keyed by its primary key, and the
-- statements on it. Instants are microseconds since the epoch and all aware: the table holds them
-- as UTC ISO texts, whose order as text is their order in time. Each `datetime.now` and `uuid4()` is
-- an argument.
use Prim.Native.Nat.{Ordering}
use Prim.Native.String.{compare}
use ugsync.Prelude.{
  ℕ, ◌+◌, ◌-◌, ◌*◌, ◌^◌, min, Bool, true, false, ◌&&◌, ◌||◌, Option, none, some, List, [], ◌∷◌,
  String, keep_if, prefix, strip, is_blank, is_some, ltb, leb, ◌==◌, if◌then◌else◌,
}
use ugsync.Dict.{Dict, get, put, values, weigh}
use ugsync.Exec.{Exec, pure, raise_if, gets, modify, or_raise, transaction, ◌>>=◌, ◌>>◌}

pub data Status : Type 0 where
  pending uploading uploaded retry : Status

pub record OutboxRow : Type 0 where
  pub chunk_id : String
  pub source_id : String
  pub local_path : String
  pub sha256_hex : String
  pub started_at : ℕ
  pub ended_at : ℕ
  pub byte_count : ℕ
  pub status : Status
  pub attempts : ℕ
  pub next_attempt_at : ℕ
  pub remote_receipt : Option String
  pub last_error : Option String
  pub created_at : ℕ

pub record QueuedChunk : Type 0 where
  pub chunk_id : String
  pub source_id : String
  pub local_path : String
  pub sha256_hex : String
  pub started_at : ℕ
  pub ended_at : ℕ
  pub byte_count : ℕ
  pub attempts : ℕ

pub data SpoolError : Type 0 where
  value_error file_not_found integrity_error key_error : SpoolError

abbrev pub Spool : Type 0
Spool = Dict OutboxRow

abbrev pub Action : Type 0 → Type 0
Action A = Exec SpoolError Spool A

-- A capture file as the file system gives it.
pub record CaptureFile : Type 0 where
  pub path : String
  pub sha256_hex : String
  pub size : ℕ

abbrev pub new_row :
    (chunk_id source_id : String) → CaptureFile → (started_at ended_at now : ℕ) → OutboxRow
new_row chunk_id source_id file started_at ended_at now = record {
  chunk_id = chunk_id;
  source_id = source_id;
  local_path = file.path;
  sha256_hex = file.sha256_hex;
  started_at = started_at;
  ended_at = ended_at;
  byte_count = file.size;
  status = pending;
  attempts = 0;
  next_attempt_at = now;
  remote_receipt = none;
  last_error = none;
  created_at = now;
}

-- `_row_to_chunk`
abbrev pub row_to_chunk : OutboxRow → ℕ → QueuedChunk
row_to_chunk row attempts = record {
  chunk_id = row.chunk_id;
  source_id = row.source_id;
  local_path = row.local_path;
  sha256_hex = row.sha256_hex;
  started_at = row.started_at;
  ended_at = row.ended_at;
  byte_count = row.byte_count;
  attempts = attempts;
}

-- `INSERT`: a key that is there already is refused.
unfoldable pub insert_row : OutboxRow → Action (Unit {0})
insert_row row = do
  raise_if (is_some (← gets (λ s. get s row.chunk_id))) integrity_error
  modify (λ s. put s row.chunk_id row)

-- `file` is `none` where the path is no file; `chunk_id` is the given identifier or a new one.
unfoldable pub enqueue_file :
    (source_id : String)
    → Option CaptureFile
    → (started_at ended_at : ℕ) → (chunk_id : String) → (now : ℕ) → Action QueuedChunk
enqueue_file source_id file started_at ended_at chunk_id now = do
  raise_if (leb ended_at started_at) value_error
  capture ← or_raise file file_not_found
  let row = new_row chunk_id source_id capture started_at ended_at now
  transaction (insert_row row)
  pure (row_to_chunk row 0)

abbrev pub is_waiting : Status → Bool
is_waiting pending = true
is_waiting retry = true
is_waiting uploading = false
is_waiting uploaded = false

-- `status IN ('pending', 'retry') AND next_attempt_at <= ?`
abbrev pub is_due : ℕ → OutboxRow → Bool
is_due now row = is_waiting row.status && leb row.next_attempt_at now

abbrev pub text_le : String → String → Bool
text_le a b = elim (compare a b) [ Ordering.gt ↦ false | _ ↦ true ]

-- `ORDER BY created_at, chunk_id`
abbrev pub sooner : OutboxRow → OutboxRow → Bool
sooner a b =
    ltb a.created_at b.created_at || (a.created_at == b.created_at && text_le a.chunk_id b.chunk_id)

abbrev pub better : OutboxRow → Option OutboxRow → OutboxRow
better row none = row
better row (some best) = if sooner row best then row else best

-- `LIMIT 1`
unfoldable pub earliest : List OutboxRow → Option OutboxRow
earliest [] = none
earliest (row ∷ rows) = some (better row (earliest rows))

abbrev pub claimed : OutboxRow → OutboxRow
claimed row = record row { status = uploading; attempts = row.attempts + 1; last_error = none }

abbrev pub claim_row : Option OutboxRow → Action (Option QueuedChunk)
claim_row none = pure none
claim_row (some row) = do
  modify (λ s. put s row.chunk_id (claimed row))
  pure (some (row_to_chunk row (row.attempts + 1)))

unfoldable pub due_row : ℕ → Spool → Option OutboxRow
due_row now s = earliest (keep_if (is_due now) (values s))

unfoldable pub claim_due : (now : ℕ) → Action (Option QueuedChunk)
claim_due now = transaction (do row ← gets (due_row now); claim_row row)

abbrev pub is_uploading : Status → Bool
is_uploading uploading = true
is_uploading _ = false

-- the row `WHERE chunk_id = ? AND status = 'uploading'`
abbrev pub if_uploading : Option OutboxRow → Option OutboxRow
if_uploading none = none
if_uploading (some row) = if is_uploading row.status then some row else none

unfoldable pub uploading_row : String → Spool → Option OutboxRow
uploading_row chunk_id s = if_uploading (get s chunk_id)

abbrev pub acknowledged : OutboxRow → String → OutboxRow
acknowledged row receipt = record row {
  status = uploaded;
  remote_receipt = some receipt;
  last_error = none;
}

unfoldable pub mark_uploaded : (chunk_id receipt : String) → Action (Unit {0})
mark_uploaded chunk_id receipt = do
  raise_if (is_blank (strip receipt)) value_error
  transaction (do
    row ← or_raise (← gets (uploading_row chunk_id)) key_error
    modify (λ s. put s chunk_id (acknowledged row receipt)))

abbrev pub micros : ℕ
micros = 1_000_000

-- `timedelta(seconds=min(6 * 60 * 60, 30 * (2 ** max(0, attempts - 1))))`
unfoldable pub backoff : (attempts : ℕ) → ℕ
backoff attempts = min (6 * 60 * 60) (30 * 2 ^ (attempts - 1)) * micros

-- `retry_after or ...`: no delay, and a delay of zero, give the backoff.
unfoldable pub retry_delay : Option ℕ → (attempts : ℕ) → ℕ
retry_delay none attempts = backoff attempts
retry_delay (some delay) attempts = if delay == 0 then backoff attempts else delay

abbrev pub released : OutboxRow → String → Option ℕ → (now : ℕ) → OutboxRow
released row error retry_after now = record row {
  status = retry;
  next_attempt_at = now + retry_delay retry_after row.attempts;
  last_error = some (prefix 1000 error);
}

unfoldable pub mark_retry : (chunk_id error : String) → Option ℕ → (now : ℕ) → Action (Unit {0})
mark_retry chunk_id error retry_after now = transaction (do
  row ← or_raise (← gets (uploading_row chunk_id)) key_error
  modify (λ s. put s chunk_id (released row error retry_after now)))

abbrev pub unacknowledged_bytes : OutboxRow → ℕ
unacknowledged_bytes row = elim row.status [ uploaded ↦ 0 | _ ↦ row.byte_count ]

-- `SUM(byte_count) ... WHERE status != 'uploaded'`
unfoldable pub queued_bytes : Spool → ℕ
queued_bytes s = weigh unacknowledged_bytes s

unfoldable pub pending_count : Spool → ℕ
pending_count s = weigh (λ row. if is_waiting row.status then 1 else 0) s
