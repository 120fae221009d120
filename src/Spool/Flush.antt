-- ===== src/Spool/Flush.antt =====
-- ingestion/edge.py, `flush_one` and `redact_capture_command`. An uploader is the network: its answer
-- to a chunk is an argument, a receipt or the text of what it raised.
use ugsync.Prelude.{
  ℕ, Bool, true, false, Option, none, some, List, [], ◌∷◌, String, str_eq, strip, is_blank,
  if◌then◌else◌,
}
use ugsync.Exec.{pure, ◌>>=◌, ◌>>◌}
use ugsync.Spool.Outbox.{QueuedChunk, Action, claim_due, mark_uploaded, mark_retry}

pub data Upload : Type 0 where
  receipt : String → Upload
  failed : (error : String) → Upload

abbrev pub Uploader : Type 0
Uploader = QueuedChunk → Upload

-- A blank receipt is an error of the attempt.
abbrev pub checked : Upload → Upload
checked (receipt text) =
    if is_blank (strip text)
    then failed "RuntimeError: uploader returned an empty receipt"
    else receipt text
checked (failed error) = failed error

abbrev pub settle : QueuedChunk → (now : ℕ) → Upload → Action Bool
settle chunk now (receipt text) = do mark_uploaded chunk.chunk_id text; pure true
settle chunk now (failed error) = do mark_retry chunk.chunk_id error none now; pure false

abbrev pub attempt : Uploader → (now : ℕ) → Option QueuedChunk → Action Bool
attempt uploader now none = pure false
attempt uploader now (some chunk) = settle chunk now (checked (uploader chunk))

-- `later` is the clock when a failed claim is released.
unfoldable pub flush_one : Uploader → (now later : ℕ) → Action Bool
flush_one uploader now later = do chunk ← claim_due now; attempt uploader later chunk

-- `safe[index + 1] = ...` for the first `"-i"` that has an item behind it
unfoldable pub redact_capture_command : List String → List String
redact_capture_command [] = []
redact_capture_command (x ∷ []) = x ∷ []
redact_capture_command (x ∷ y ∷ rest) =
    if str_eq x "-i"
    then x ∷ "<redacted-input-url>" ∷ rest
    else x ∷ redact_capture_command (y ∷ rest)
