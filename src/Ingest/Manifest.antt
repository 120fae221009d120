-- ===== src/Ingest/Manifest.antt =====
-- ingestion_api/manifests.py, `parse_chunk_manifest`, over the JSON values of a request's body.
-- The ISO parser is the host's. The texts of its problems are constructors.
pub mod Readers
pub mod Valid
use Prim.Native.Char.{code}
use Prim.Native.String.{◌++◌ as join}
use ugsync.Prelude.{
  ℕ, zero, suc, Bool, true, false, not, ◌&&◌, ◌||◌, Option, none, some, List, [], ◌∷◌, ◌++◌, String,
  str_eq, strip, is_blank, len, contains, ltb, leb, ◌==◌, if◌then◌else◌,
}
use ugsync.Prelude.Int.{ℤ, pos, negsuc}
use ugsync.Ingest.Device.{Host, Parsed, not_iso, naive, aware, with_offset}
use ugsync.Ingest.Store.{LandmarkHash, ChunkManifest}
use ugsync.Ingest.Fields.{
  Fields, Items, Json, Problem, Read, all_hex_lower, array, bad_byte_count, bad_object_key,
  bad_policy, bool, ended_before_start, field, fraction, get_field, has_field, in_range, integer,
  invalid_timestamp, is_hex, is_hex_lower, is_sha256, is_uuid, item, key_not_permitted,
  key_required, landmark_not_integers, landmark_not_object, landmark_out_of_range,
  landmarks_not_array, naive_timestamp, no_fields, no_items, not_a_sha256, not_a_uuid,
  not_an_object, null, object, of_integers, parse_landmarks, push, read_items, read_landmark,
  read_moment, read_timestamp, require_str, required_string, required_timestamp, text, uuid_from,
}

abbrev pub problem_if : Bool → Problem → List Problem
problem_if b p = if b then p ∷ [] else []

abbrev pub fails : {A : Type 0} → (A → Bool) → Option A → Bool
fails test none = false
fails test (some a) = not (test a)

abbrev pub both_fail : (ℕ → ℕ → Bool) → Option ℕ → Option ℕ → Bool
both_fail test (some a) (some b) = not (test a b)
both_fail test _ _ = false

unfoldable pub read_byte_count : Json → Read ℕ
read_byte_count (integer (pos n)) = (some n, [])
read_byte_count _ = (none, bad_byte_count ∷ [])

-- `payload.get("capture_policy", "hashes_only")`; a policy that is not one of the two is reported
-- and reads as "hashes_only". A list and an object have no hash, so that `in` raises TypeError on
-- them: none.
unfoldable pub read_policy : Bool → Json → Option (String × List Problem)
read_policy false value = some ("hashes_only", [])
read_policy true (text s) = some (
    if contains ("hashes_only" ∷ "encrypted_audio" ∷ []) s
    then (s, [])
    else ("hashes_only", bad_policy ∷ []))
read_policy true (array xs) = none
read_policy true (object fs) = none
read_policy true _ = some ("hashes_only", bad_policy ∷ [])

-- An object key stays as it was sent, spaces and all.
unfoldable pub read_object_key : Json → Read String
read_object_key null = (none, [])
read_object_key (text s) = if is_blank (strip s) then (none, bad_object_key ∷ []) else (some s, [])
read_object_key _ = (none, bad_object_key ∷ [])

abbrev pub is_given : Option String → Bool
is_given none = false
is_given (some s) = true

abbrev pub policy_problems : String → Option String → List Problem
policy_problems policy key =
    problem_if (str_eq policy "hashes_only" && is_given key) key_not_permitted
    ++ problem_if (str_eq policy "encrypted_audio" && not (is_given key)) key_required

abbrev pub read_hint : Json → Option String
read_hint (text s) = some s
read_hint _ = none

pub data ParsedManifest : Type 0 where
  valid : ChunkManifest → ParsedManifest
  invalid : List Problem → ParsedManifest
  type_error : ParsedManifest  -- TypeError

abbrev pub with_read : {A B : Type 0} → Option A → (A → Option B) → Option B
with_read none f = none
with_read (some a) f = f a

-- The fields of an object, read one by one.
pub record Draft : Type 0 where
  pub edge_chunk_id : Read String
  pub source_code : Read String
  pub started_at : Read ℕ
  pub ended_at : Read ℕ
  pub content_sha256 : Read String
  pub byte_count : Read ℕ
  pub schema_id : Read String
  pub policy : String × List Problem
  pub object_key : Read String
  pub landmarks : List LandmarkHash × List Problem
  pub hint : Option String

unfoldable pub read_draft : Host → Fields → (policy : String × List Problem) → Draft
read_draft host fs policy = record {
  edge_chunk_id = require_str (get_field fs "edge_chunk_id") "edge_chunk_id";
  source_code = require_str (get_field fs "source_code") "source_code";
  started_at = read_timestamp host (get_field fs "started_at") "started_at";
  ended_at = read_timestamp host (get_field fs "ended_at") "ended_at";
  content_sha256 = require_str (get_field fs "content_sha256") "content_sha256";
  byte_count = read_byte_count (get_field fs "byte_count");
  schema_id = require_str (get_field fs "fingerprint_schema_id") "fingerprint_schema_id";
  policy = policy;
  object_key = read_object_key (get_field fs "encrypted_object_key");
  landmarks = parse_landmarks (get_field fs "landmarks");
  hint = read_hint (get_field fs "matcher_hint");
}

abbrev pub gather : List (List Problem) → List Problem
gather [] = []
gather (ps ∷ rest) = ps ++ gather rest

-- All problems, in the order in which the source finds them.
unfoldable pub problems_of : Draft → List Problem
problems_of d = gather (
    d.edge_chunk_id.1
    ∷ problem_if (fails is_uuid d.edge_chunk_id.0) not_a_uuid
    ∷ d.source_code.1
    ∷ d.started_at.1
    ∷ d.ended_at.1
    ∷ problem_if (both_fail ltb d.started_at.0 d.ended_at.0) ended_before_start
    ∷ d.content_sha256.1
    ∷ problem_if (fails is_sha256 d.content_sha256.0) not_a_sha256
    ∷ d.byte_count.1
    ∷ d.schema_id.1
    ∷ d.policy.1
    ∷ d.object_key.1
    ∷ policy_problems d.policy.0 d.object_key.0
    ∷ d.landmarks.1
    ∷ [])

-- The manifest, where every required field was read.
unfoldable pub manifest_of : (device_id : String) → Draft → Option ChunkManifest
manifest_of device_id d = with_read d.edge_chunk_id.0 λ id. with_read d.source_code.0 λ source.
    with_read d.started_at.0 λ started. with_read d.ended_at.0 λ ended.
      with_read d.content_sha256.0 λ sha. with_read d.byte_count.0 λ bytes.
        with_read d.schema_id.0 λ schema. some (record {
          edge_chunk_id = id;
          source_code = source;
          device_id = device_id;
          started_at = started;
          ended_at = ended;
          content_sha256 = sha;
          byte_count = bytes;
          fingerprint_schema_id = schema;
          capture_policy = d.policy.0;
          encrypted_object_key = d.object_key.0;
          matcher_hint = d.hint;
          landmarks = d.landmarks.0;
        })

abbrev pub finish : List Problem → Option ChunkManifest → ParsedManifest
finish [] (some m) = valid m
finish problems _ = invalid problems

abbrev pub parse_fields :
    Host → Fields → (device_id : String) → Option (String × List Problem) → ParsedManifest
parse_fields host fs device_id none = type_error
parse_fields host fs device_id (some policy) =
    let d = read_draft host fs policy in finish (problems_of d) (manifest_of device_id d)

unfoldable pub parse_chunk_manifest : Host → Json → (device_id : String) → ParsedManifest
parse_chunk_manifest host (object fs) device_id =
    parse_fields host fs device_id
      (read_policy (has_field fs "capture_policy") (get_field fs "capture_policy"))
parse_chunk_manifest host _ device_id = invalid (not_an_object ∷ [])
