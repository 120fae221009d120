-- ===== src/Ingest/Jobs.antt =====
-- The match jobs of a chunk are as many as its row counts.
use ugsync.Prelude.{
  ℕ, ◌+◌, ◌≡◌, ◌∙◌, ap, false, some, List, [], ◌∷◌, ◌++◌, map, String, str_eq, eq_refl, eq_iff, sum,
  sum-append, length, if◌then◌else◌, arith, Bool-cases, inl, inr,
}
use mathlib.Core.List.{map-append}
use ugsync.Dict.{get, find_value-none}
use ugsync.Exec.{Result}
use ugsync.Ingest.Store.{
  MatchCandidate, ChunkRow, MatchJob, IngestionStore, IngestError, chunk_with_id, match_job,
}
use ugsync.Ingest.Service.{IngestionResult}
use ugsync.Ingest.Outcomes.{
  IsIngestion, Arrival, matched_row, Recorded, Ingests, replay, unprovisioned, unmatched, recorded,
}
use ugsync.Ingest.Receipts.{IsFresh, Reach, done, next, ingest-Ingests, run-IsIngestion}

abbrev pub is_job_of : String → MatchJob → ℕ
is_job_of id j = if str_eq j.capture_chunk_id id then 1 else 0

-- How many match jobs a chunk with a given receipt identifier has.
abbrev pub jobs_of : String → List MatchJob → ℕ
jobs_of id jobs = sum (map (is_job_of id) jobs)

-- No chunk has this receipt identifier.
abbrev pub IsUnused : String → IngestionStore → Type 0
IsUnused id s = (k : String) (row : ChunkRow) → get s.chunks k ≡ some row → str_eq row.id id ≡ false

pub record IsCounted (s : IngestionStore) : Type 0 where
  pub counted :
      (k : String) (row : ChunkRow)
      → get s.chunks k ≡ some row
      → jobs_of row.id s.match_jobs ≡ row.candidate_count
  pub unused : (id : String) → IsUnused id s → jobs_of id s.match_jobs ≡ 0

jobs_of-append :
    (id : String) (xs ys : List MatchJob) → jobs_of id (xs ++ ys) ≡ jobs_of id xs + jobs_of id ys
jobs_of-append id xs ys =
    ap sum (map-append (is_job_of id) xs ys)
    ∙ sum-append (map (is_job_of id) xs) (map (is_job_of id) ys)

jobs_of-new :
    (id receipt_id : String) (candidates : List MatchCandidate)
    → jobs_of id (map (match_job receipt_id) candidates)
      ≡ (if str_eq receipt_id id then length candidates else 0)
jobs_of-new id receipt_id [] = ground arith
jobs_of-new id receipt_id (c ∷ cs) = ground (arith, jobs_of-new id receipt_id cs)

fresh-IsUnused : (a : Arrival) (s : IngestionStore) → IsFresh a s → IsUnused a.receipt_id s
unfolding chunk_with_id
fresh-IsUnused a s fresh k row found = find_value-none _ s.chunks k fresh found

module _ (a : Arrival) (s : IngestionStore) (fresh : IsFresh a s) (was : IsCounted s)
    {r : IngestionResult} {s' : IngestionStore} (new : Recorded a s r s') where
  jobs_after :
      (id : String)
      → jobs_of id s'.match_jobs
        ≡ jobs_of id s.match_jobs + (if str_eq a.receipt_id id then length new.candidates else 0)
  jobs_after id = rw new.match_jobs (
      ground (
        arith,
        jobs_of-append id s.match_jobs (map (match_job a.receipt_id) new.candidates),
        jobs_of-new id a.receipt_id new.candidates,
      ))

  IsUnused-before : (id : String) → IsUnused id s' → IsUnused id s
  IsUnused-before id unused k row found =
      unused k row (ground (arith, new.chunks k, new.was_new, eq_iff a.manifest.edge_chunk_id k))

  receipt_apart : (id : String) → IsUnused id s' → str_eq a.receipt_id id ≡ false
  receipt_apart id unused =
      unused a.manifest.edge_chunk_id (matched_row a new.source_id new.candidates)
        (ground (arith, new.chunks a.manifest.edge_chunk_id, eq_refl a.manifest.edge_chunk_id))

  Recorded-IsCounted : IsCounted s'
  Recorded-IsCounted = record {
    counted = λ k row found. elim (Bool-cases (str_eq a.manifest.edge_chunk_id k)) [
      | inl here ↦
          let same : matched_row a new.source_id new.candidates ≡ row =
            ground (arith, new.chunks k) in
          rw (← same) (
            ground (
              arith,
              jobs_after a.receipt_id,
              was.unused a.receipt_id (fresh-IsUnused a s fresh),
              eq_refl a.receipt_id,
            ))
      | inr elsewhere ↦
          let before : get s.chunks k ≡ some row = ground (arith, new.chunks k) in
          ground (
            arith,
            jobs_after row.id,
            was.counted k row before,
            fresh-IsUnused a s fresh k row before,
            eq_iff a.receipt_id row.id,
            eq_refl row.id,
          )
    ];
    unused = λ id unused.
        ground (
          arith,
          jobs_after id,
          was.unused id (IsUnused-before id unused),
          receipt_apart id unused,
        );
  }

Ingests-IsCounted :
    (a : Arrival) (s : IngestionStore) {r : Result IngestError IngestionResult}
    {s' : IngestionStore}
    → IsFresh a s
    → Ingests a s r s'
    → IsCounted s
    → IsCounted s'
Ingests-IsCounted a s fresh (replay row h) was = was
Ingests-IsCounted a s fresh (unprovisioned h g) was = was
Ingests-IsCounted a s fresh (unmatched e h g) was = was
Ingests-IsCounted a s fresh (recorded new) was = Recorded-IsCounted a s fresh was new

-- From a keyed store whose chunks count their match jobs, such as one with no chunks and no jobs,
-- calls of `ingest` with fresh receipt identifiers lead only to stores in which each chunk has as
-- many match jobs as its row says, and no job belongs to a receipt that is not there.
pub Reach-IsCounted :
    {s s' : IngestionStore} → Reach s s' → IsIngestion s → IsCounted s → IsCounted s'
Reach-IsCounted done keyed was = was
Reach-IsCounted {s} (next a fresh more) keyed was =
    let (r, t, ran, ends) = ingest-Ingests a s keyed fresh in
    Reach-IsCounted more (run-IsIngestion a s fresh keyed)
      (rw ran (Ingests-IsCounted a s fresh ends was))
