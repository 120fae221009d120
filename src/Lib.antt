-- ===== src/Lib.antt =====
-- KLA-Sync: music monitoring on edge devices, review of detections, and royalty allocation.
--
-- Edge devices capture a stream in chunks and queue them in an outbox (src/kla_sync/ingestion); the
-- server authenticates the devices, takes in their chunk manifests, and matches them against a
-- catalog index (src/kla_sync/ingestion_api, src/kla_sync/matching); the candidates that it finds are
-- reviewed and disputed in a portal (src/kla_sync/review); verified usage is turned into royalties
-- (src/kla_sync/royalties), which are paid through mobile money (src/kla_sync/integrations). Works,
-- recordings and the split sheets of their rights are onboarded into a catalog
-- (src/kla_sync/catalog). The database schema is brought up by a migration runner (src/kla_sync/db).
--
-- The files:
--   Prelude, Dict, Exec: lists, texts, sorting, Python's `dict`, and calls that change a store and may
--     raise, with the transaction of the in-memory stores (snapshot, and rollback when the body
--     raises); Exec.Triples are the rules for what holds after a call that succeeded.
--   Review: Models, Store, Writes are review/models.py and `InMemoryReviewStore` of review/store.py;
--     Guards and Service are `ReviewService` of review/service.py. Outcomes, Atomic and Requests say
--     what each request does; Run is the step relation of requests, and Consistent, Reachable,
--     Lifecycle, Audit and Disputes are about the stores that it reaches. Accounts is review/auth.py.
--   Royalties: Split, Rounding, Calculate are royalties/calculator.py, over the rounding of `Decimal`
--     to 28 digits in Decimal; Digits, Sums, Total, Exact, Quota, Fair, Settled and Coarse are about its
--     largest-remainder rounding. Quota and Fair are about `distribute`, its exact arithmetic.
--   Spool: Outbox is `EdgeSpool` of ingestion/edge.py, Flush its `flush_one` and
--     `redact_capture_command`, Command the capture command; Claim, Flushed, Steps, Ledger and Backoff
--     are about the outbox.
--   Ingest: Device is ingestion_api/device_auth.py (Once, Signed are about it); Fields and Manifest are
--     ingestion_api/manifests.py (Readers, Valid); Store is `InMemoryIngestionStore` of
--     ingestion_api/stores.py and Service is ingestion_api/service.py (Outcomes, Receipts, Jobs).
--   Migrations: Plan and Run are db/migrations.py (Applied, Drift; Todo, Complete, Settled and Finished).
--   Payouts: integrations/mobile_money.py (Idempotent).
--   Catalog: Documents, Checks, Entries, Parse and References are catalog/models.py; Store, Writes and
--     Sheets are `InMemoryCatalogStore` of catalog/store.py; Persist and Service are catalog/service.py.
--     Run is the sequence of calls, and Invariant, Whole, Kept, Stable and Onboarded are about the
--     stores that it reaches; Activation, Once and Framed about single calls; Accepted, Named,
--     Referred and Valid about what parsing promises, and Clean, Resolved, Linked and Conflicts about the errors
--     that are left after it.
--
--   Matching: Index is the reference index of audio/fingerprint.py; Hits, Vote and Service are
--     matching/service.py and the interface and the store in memory of matching/store.py. Exact and
--     Table are about lookups in the index, Same about its `match`, Bounds about the votes.
--
-- How the program is read. A method that changes an object is a function from a state to a result
-- and the next state. What a call draws from outside is an argument: the clock, `uuid4()`, the
-- answer of an uploader, SHA-256, HMAC and the ISO parser (`Host`), the case of letters and the
-- digits of `\d` (`Reader`), the rounding of floats (`Rounding`), the landmark index
-- (`LandmarkIndex`), and the database server that executes a migration. Instants are microseconds;
-- a money amount is a number of the smallest decimal units that make the amounts of a calculation
-- whole. Texts are the native ones. All loops run over lists but three, which
-- have fuel: `decimal` has the number itself and one more, which its digits do not exceed; `ulp` has
-- the number itself, n, since 10^n exceeds it; and `scale` has 28, the digits that it may
-- add.
--
-- Not modelled: the PostgreSQL and Redis stores, whose statements a server runs; the HTTP layers,
-- which turn requests into these calls and results into JSON; the numeric code of
-- src/kla_sync/audio; the shadow reports and the command line. That the SQL which is
-- made of a migration file is one transaction, with its ledger row, is assumed. Of a migration file its checksum and its requirements are given, not read off its text.
pub mod Prelude
pub mod Dict
pub mod Exec
pub mod Review
pub mod Royalties
pub mod Spool
pub mod Ingest
pub mod Migrations
pub mod Payouts
pub mod Catalog
pub mod Matching
