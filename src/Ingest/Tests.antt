-- ===== src/Ingest/Tests.antt =====
-- Runs of the ingestion server, and its theorems at concrete inputs.
use Prim.Native.String.{◌++◌}
use ugsync.Prelude.{
  is_ascii, ◌≡◌, ◌≢◌, refl, true, Option, none, some, List, [], ◌∷◌, String, arith, strip, lstrip,
  rstrip, contains, len,
}
use ugsync.Prelude.Int.{pos}
use ugsync.Dict.{Dict, get, put, get-empty, find_value}
use ugsync.Exec.{ok}
use ugsync.Ingest.Device.{
  Host, aware, DeviceIdentity, DeviceRegistry, build_signed_request, verify_request, check_replay,
  canonical_string, has_newline, sign, parse_timestamp, with_offset,
}
use ugsync.Ingest.Device.Once.{Call, cache_after, accepted_once}
use ugsync.Ingest.Device.Signed.{is_solid, IsSignable, HasHexDigests, signed_request_verifies}
use ugsync.Ingest.Store.{
  ChunkManifest, MatchCandidate, ChunkRow, IngestionStore, chunk_with_id, resolve_source,
  record_chunk, write_ingest_audit, record_match_jobs,
}
use ugsync.Ingest.Fields.{object, field, no_fields, no_items, array, text, get_field, has_field}
use ugsync.Ingest.Manifest.{parse_chunk_manifest, read_policy, type_error}
use ugsync.Ingest.Manifest.Valid.{Answers, parse_chunk_manifest-Answers}
use ugsync.Ingest.Service.{LandmarkIndex, IngestionResult, ingest, receipt_of}
use ugsync.Ingest.Outcomes.{Arrival, run}
use ugsync.Ingest.Receipts.{done, next, IngestsTo, ingest-Ingests, ingested_once}
use ugsync.Ingest.Jobs.{IsCounted, Reach-IsCounted}

abbrev digest : String
digest = "aaaaaaaaaaaaaaaaaaaaaaaaaaaaaaaaaaaaaaaaaaaaaaaaaaaaaaaaaaaaaaaa"

abbrev host : Host
host = record {
  sha256_hex = λ body. "e3b0";
  hmac_sha256 = λ key message. digest;
  from_isoformat = λ text. aware 1_000;
}

abbrev device : DeviceIdentity
device = record { device_id = "edge-1"; source_id = "radio"; secret = "s"; is_active = true }

abbrev registry : DeviceRegistry
registry = ("edge-1", device) ∷ []

abbrev iso : String
iso = "2026-01-01T00:00:00Z"

abbrev signed : Dict String
signed = ("X-Device-Id", "edge-1") ∷ ("X-Timestamp", iso) ∷ ("X-Signature", "v1:" ++ digest) ∷ []

signs : build_signed_request host device "/v1/chunks" [] iso ≡ some signed
unfolding build_signed_request canonical_string has_newline sign
signs = refl

digests-HasHexDigests : HasHexDigests host
unfolding is_solid is_ascii len
digests-HasHexDigests key message = (refl, refl, refl)

abbrev marked : Option (List String)
marked = some ("edge-1:2026-01-01T00:00:00Z:e3b0" ∷ [])

signable-IsSignable :
    IsSignable host registry device "/v1/chunks" [] iso 1_000 2_000 (some []) marked
unfolding get is_solid parse_timestamp with_offset strip lstrip rstrip check_replay contains
signable-IsSignable = record {
  known = refl;
  is_on = refl;
  named = refl;
  name_solid = refl;
  timed = refl;
  time_solid = refl;
  read_back = refl;
  recent = omega arith;
  unused = refl;
}

signed_request_verifies_example :
    verify_request host registry "/v1/chunks" signed [] 2_000 (some [])
    ≡ (ok (record { device = device; timestamp = 1_000 }), marked)
signed_request_verifies_example =
    signed_request_verifies host registry device "/v1/chunks" [] iso 1_000 2_000 (some []) marked
      digests-HasHexDigests signable-IsSignable signs

abbrev first_call : Call
first_call = record {
  registry = registry;
  path = "/v1/chunks";
  headers = signed;
  body = [];
  now = 2_000;
}

accepted_once_example :
    verify_request host registry "/v1/other" signed [] 3_000
      (cache_after host (first_call ∷ []) marked)
    ≢ (ok (record { device = device; timestamp = 1_000 }), marked)
accepted_once_example =
    accepted_once host first_call (record first_call { path = "/v1/other"; now = 3_000 })
      (first_call ∷ []) [] signed_request_verifies_example refl refl

abbrev manifest : ChunkManifest
manifest = record {
  edge_chunk_id = "chunk";
  source_code = "radio";
  device_id = "edge-1";
  started_at = 0;
  ended_at = 10;
  content_sha256 = "ab";
  byte_count = 7;
  fingerprint_schema_id = "v1";
  capture_policy = "hashes_only";
  encrypted_object_key = none;
  matcher_hint = none;
  landmarks = record { anchor_frame = 1; frequency_ratio_bin = pos 2; delta_frames = 3 } ∷ [];
}

abbrev found : MatchCandidate
found = record {
  track_id = "t";
  vote_count = 9;
  confidence_hint = 4;
  tempo_scale = 100_000;
  offset_micros = pos 0;
  matcher_version = "v1";
}

abbrev index : LandmarkIndex
index = record { schema_id = "v1"; query = λ q min_votes. ok (found ∷ []) }

abbrev start : IngestionStore
start = record { sources = ("radio", "src") ∷ []; chunks = []; match_jobs = []; audit_events = [] }

abbrev arrival : Arrival
arrival = record {
  index = some index;
  manifest = manifest;
  request_id = none;
  min_votes = 8;
  receipt_id = "r1";
  audit_id = "a1";
}

start_fresh : (id : String) → chunk_with_id id start ≡ none
unfolding chunk_with_id find_value
start_fresh id = refl

ingest-Ingests_example : IngestsTo arrival start
ingest-Ingests_example = ingest-Ingests arrival start tt (start_fresh "r1")

abbrev one_receipt : IngestionResult
one_receipt = receipt_of (some index) manifest "r1" "src" (found ∷ [])

ingests : (run arrival start).0 ≡ ok one_receipt
unfolding ingest resolve_source record_chunk write_ingest_audit record_match_jobs chunk_with_id get
    put find_value
ingests = refl

ingested_once_example :
    (r' : IngestionResult) × (run
        (record arrival { index = none; receipt_id = "r2" })
        (run arrival start).1
      ≡ (ok r', (run arrival start).1))
    × (r'.replayed ≡ true)
    × (r'.receipt_id ≡ "r1")
    × (r'.candidate_count ≡ 1)
    × (r'.source_id ≡ "src")
unfolding ingest resolve_source record_chunk write_ingest_audit record_match_jobs chunk_with_id get
    put find_value
ingested_once_example =
    ingested_once arrival (record arrival { index = none; receipt_id = "r2" }) start
      {r = one_receipt} tt (start_fresh "r1") refl done refl

start-IsCounted : IsCounted start
start-IsCounted = record {
  counted = λ k row h. absurd (ground (arith, get-empty {V = ChunkRow} k));
  unused = λ id h. refl;
}

Reach-IsCounted_example : IsCounted (run arrival start).1
Reach-IsCounted_example = Reach-IsCounted (next arrival (start_fresh "r1") done) tt start-IsCounted

-- A list as the policy raises.
unhashable_policy :
    parse_chunk_manifest host (object (field "capture_policy" (array no_items) no_fields)) "edge-1"
    ≡ type_error
unfolding parse_chunk_manifest read_policy get_field has_field
unhashable_policy = refl

parse_chunk_manifest-Answers_example :
    Answers "edge-1" (object (field "edge_chunk_id" (text "no uuid") no_fields)) (
      parse_chunk_manifest host
        (object (field "edge_chunk_id" (text "no uuid") no_fields))
        "edge-1")
parse_chunk_manifest-Answers_example =
    parse_chunk_manifest-Answers host (object (field "edge_chunk_id" (text "no uuid") no_fields))
      "edge-1"
