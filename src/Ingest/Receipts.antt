-- ===== src/Ingest/Receipts.antt =====
-- A chunk is recorded once, and its receipt stands.
use ugsync.Prelude.{
  ◌≡◌, refl, true, none, some, [], ◌∷◌, ◌++◌, String, eq_refl, eq_iff, arith, Option-cases, inl,
  inr,
}
use ugsync.Dict.{get}
use ugsync.Exec.{Result, ok, err}
use ugsync.Ingest.Store.{
  ChunkRow, IngestionStore, IngestError, resolve_source, record_chunk, chunk_with_id,
  write_ingest_audit,
}
use ugsync.Ingest.Service.{IngestionResult, replay_of, receipt_of, ingested_event, ingest}
use ugsync.Ingest.Outcomes.{
  IsIngestion, Arrival, run, matched_row, Ingests, replay, unprovisioned, unmatched, recorded,
  match-ends,
}

-- Its receipt identifier is new, as a UUID is.
abbrev pub IsFresh : Arrival → IngestionStore → Type 0
IsFresh a s = chunk_with_id a.receipt_id s ≡ none

abbrev pub IngestsTo : Arrival → IngestionStore → Type 0
IngestsTo a s =
    (r : Result IngestError IngestionResult) × (s' : IngestionStore) × (run a s ≡ (r, s'))
    × Ingests a s r s'

-- In a keyed store and with a fresh receipt identifier, a call of `ingest` does one of four things:
-- for a chunk that is there it returns its receipt, and for a source that is not provisioned or an
-- index that raises it raises, all of which leave the store as it was; otherwise it records the
-- chunk with its number of candidates, one match job for each and one audit event, and no other
-- chunk changes.
pub ingest-Ingests :
    (a : Arrival) (s : IngestionStore) → IsIngestion s → IsFresh a s → IngestsTo a s
unfolding ingest resolve_source record_chunk write_ingest_audit
ingest-Ingests a s keyed fresh = elim (Option-cases (get s.chunks a.manifest.edge_chunk_id)) [
  | inr (row, found) ↦ (ok (replay_of a.index a.manifest row), s, rw found refl, replay row found)
  | inl new ↦ elim (Option-cases (get s.sources a.manifest.source_code)) [
    | inl unknown ↦ (_, s, rw (new, unknown) refl, unprovisioned new unknown)
    | inr (source_id, provisioned) ↦ elim (match-ends a source_id s keyed fresh new a.index refl) [
      | inr (e, s', ran, failed) ↦
          (err e, s, rw (new, provisioned, ran) refl, unmatched e new failed)
      | inl (candidates, s', ran, found, matched) ↦ (
        ok (receipt_of a.index a.manifest a.receipt_id source_id candidates),
        record s' {
          audit_events =
              s'.audit_events
              ++ ingested_event a.index a.manifest a.request_id a.audit_id a.receipt_id candidates
                ∷ [];
        },
        rw (new, provisioned, ran) refl,
        recorded (record {
          source_id = source_id;
          candidates = candidates;
          provisioned = provisioned;
          matched = found;
          was_new = new;
          result = refl;
          chunks = matched.chunks;
          match_jobs = matched.match_jobs;
          audit_events = rw (matched.audit_events) refl;
          sources = matched.sources;
          keyed = matched.keyed;
        }),
      )
    ]
  ]
]

-- Calls of `ingest`, each with a fresh receipt identifier.
pub data Reach : IngestionStore → IngestionStore → Type 0 where
  done : {s : IngestionStore} → Reach s s
  next : {s s' : IngestionStore} (a : Arrival) → IsFresh a s → Reach (run a s).1 s' → Reach s s'

Ingests-IsIngestion :
    (a : Arrival) (s : IngestionStore) {r : Result IngestError IngestionResult}
    {s' : IngestionStore}
    → Ingests a s r s'
    → IsIngestion s
    → IsIngestion s'
Ingests-IsIngestion a s (replay row h) keyed = keyed
Ingests-IsIngestion a s (unprovisioned h k) keyed = keyed
Ingests-IsIngestion a s (unmatched e h k) keyed = keyed
Ingests-IsIngestion a s (recorded new) keyed = new.keyed

Ingests-keeps :
    (a : Arrival) (s : IngestionStore) (k : String) (row : ChunkRow)
    {r : Result IngestError IngestionResult} {s' : IngestionStore}
    → Ingests a s r s'
    → get s.chunks k ≡ some row
    → get s'.chunks k ≡ some row
Ingests-keeps a s k row (replay other h) there = there
Ingests-keeps a s k row (unprovisioned h g) there = there
Ingests-keeps a s k row (unmatched e h g) there = there
Ingests-keeps a s k row (recorded new) there =
    ground (arith, new.chunks k, new.was_new, eq_iff a.manifest.edge_chunk_id k)

pub run-IsIngestion :
    (a : Arrival) (s : IngestionStore) → IsFresh a s → IsIngestion s → IsIngestion (run a s).1
run-IsIngestion a s fresh keyed =
    let (r, s', ran, ends) = ingest-Ingests a s keyed fresh in
    rw ran (Ingests-IsIngestion a s ends keyed)

Reach-keeps :
    (k : String) (row : ChunkRow) {s s' : IngestionStore}
    → Reach s s'
    → IsIngestion s
    → get s.chunks k ≡ some row
    → get s'.chunks k ≡ some row
Reach-keeps k row done keyed there = there
Reach-keeps k row {s} (next a fresh more) keyed there =
    let (r, t, ran, ends) = ingest-Ingests a s keyed fresh in
    Reach-keeps k row more (run-IsIngestion a s fresh keyed)
      (rw ran (Ingests-keeps a s k row ends there))

-- The row that a call which succeeded left for its chunk.
receipt_row :
    (a : Arrival) (s : IngestionStore) {r : IngestionResult}
    {o : Result IngestError IngestionResult} {s' : IngestionStore}
    → Ingests a s o s'
    → o ≡ ok r
    → (row : ChunkRow) × (get s'.chunks a.manifest.edge_chunk_id ≡ some row)
      × (row.id ≡ r.receipt_id)
      × (row.candidate_count ≡ r.candidate_count)
      × (row.source_id ≡ r.source_id)
receipt_row a s (replay row h) same = (row, h, ground arith, ground arith, ground arith)
receipt_row a s (unprovisioned h g) same = absurd (ground arith)
receipt_row a s (unmatched e h g) same = absurd (ground arith)
receipt_row a s {s'} (recorded new) same = (
  matched_row a new.source_id new.candidates,
  ground (arith, new.chunks a.manifest.edge_chunk_id, eq_refl a.manifest.edge_chunk_id),
  ground (arith, new.result),
  ground (arith, new.result),
  ground (arith, new.result),
)

-- A chunk that was ingested in a keyed store, with a fresh receipt identifier, is answered for good:
-- after any further calls with fresh identifiers, a call for the same chunk, with any manifest,
-- index and votes, returns the same receipt, source and number of candidates as a replay, and
-- changes nothing.
pub ingested_once :
    (first again : Arrival) (s : IngestionStore) {r : IngestionResult} {s' s'' : IngestionStore}
    → IsIngestion s
    → IsFresh first s
    → run first s ≡ (ok r, s')
    → Reach s' s''
    → again.manifest.edge_chunk_id ≡ first.manifest.edge_chunk_id
    → (r' : IngestionResult) × (run again s'' ≡ (ok r', s''))
      × (r'.replayed ≡ true)
      × (r'.receipt_id ≡ r.receipt_id)
      × (r'.candidate_count ≡ r.candidate_count)
      × (r'.source_id ≡ r.source_id)
unfolding ingest
ingested_once first again s {r} {s'} keyed fresh accepted more same =
    let (o, t, ran, ends) = ingest-Ingests first s keyed fresh in
    let is_ok : o ≡ ok r = ground arith in
    let here : t ≡ s' = ground arith in
    let (row, found, id_same, count_same, source_same) = receipt_row first s ends is_ok in
    let stored : get s'.chunks first.manifest.edge_chunk_id ≡ some row = rw (← here) found in
    let still =
      Reach-keeps _ row more (rw (← here) (Ingests-IsIngestion first s ends keyed)) stored in
    (
      replay_of again.index again.manifest row,
      rw (same, still) refl,
      refl,
      id_same,
      count_same,
      source_same,
    )
