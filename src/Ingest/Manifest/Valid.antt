-- ===== src/Ingest/Manifest/Valid.antt =====
-- Which manifests are accepted.
use ugsync.Prelude.{
  ℕ, ◌≡◌, ◌<◌, refl, Bool, true, false, not, ◌&&◌, Option, none, some, List, [], ◌∷◌, String,
  str_eq, All, arith, Bool-cases, inl, inr, ltb, contains,
}
use ugsync.Ingest.Device.{Host}
use ugsync.Ingest.Store.{ChunkManifest}
use ugsync.Ingest.Fields.{
  Json, Fields, null, bool, integer, fraction, text, array, object, Problem, is_sha256, is_uuid,
  key_not_permitted, key_required, not_a_uuid, ended_before_start, not_a_sha256, not_an_object,
  get_field, has_field,
}
use ugsync.Ingest.Manifest.{
  problem_if, fails, both_fail, read_policy, is_given, policy_problems, ParsedManifest, valid,
  invalid, Draft, read_draft, problems_of, manifest_of, type_error, finish, parse_fields,
  parse_chunk_manifest,
}
use ugsync.Ingest.Manifest.Readers.{
  append-eq_nil, problem_if-eq_nil, require_str-Reads, read_timestamp-Reads, read_byte_count-Reads,
  parse_landmarks-All, IsLandmark,
}

abbrev pub capture_policies : List String
capture_policies = "hashes_only" ∷ "encrypted_audio" ∷ []

-- A value without a hash, on which `in` raises.
abbrev pub is_unhashable : Json → Bool
is_unhashable (array xs) = true
is_unhashable (object fs) = true
is_unhashable _ = false

-- Whether a body is an object that gives a policy without a hash.
abbrev pub has_unhashable : Json → Bool
has_unhashable (object fs) =
    has_field fs "capture_policy" && is_unhashable (get_field fs "capture_policy")
has_unhashable _ = false

-- A policy that was read is one of the two, and just a given value without a hash was not.
abbrev PolicyRead : Bool → Json → Option (String × List Problem) → Type 0
PolicyRead given v none = (given && is_unhashable v) ≡ true
PolicyRead given v (some p) =
    ((given && is_unhashable v) ≡ false) × (contains capture_policies p.0 ≡ true)

read_policy-PolicyRead : (given : Bool) (v : Json) → PolicyRead given v (read_policy given v)
unfolding read_policy contains
read_policy-PolicyRead false v = (refl, refl)
read_policy-PolicyRead true (text s) = elim (Bool-cases (contains capture_policies s)) [
  | inl known ↦ (refl, rw known known)
  | inr unknown ↦ (refl, rw unknown refl)
]
read_policy-PolicyRead true null = (refl, refl)
read_policy-PolicyRead true (bool b) = (refl, refl)
read_policy-PolicyRead true (integer n) = (refl, refl)
read_policy-PolicyRead true (fraction n) = (refl, refl)
read_policy-PolicyRead true (array xs) = refl
read_policy-PolicyRead true (object fs) = refl

-- A manifest that the server may take.
pub record IsManifest (m : ChunkManifest) : Type 0 where
  pub uuid : is_uuid m.edge_chunk_id ≡ true
  pub ordered : m.started_at < m.ended_at
  pub digest : is_sha256 m.content_sha256 ≡ true
  pub known : contains capture_policies m.capture_policy ≡ true
  pub private : str_eq m.capture_policy "hashes_only" && is_given m.encrypted_object_key ≡ false
  pub stored :
      str_eq m.capture_policy "encrypted_audio" && not (is_given m.encrypted_object_key) ≡ false
  pub landmarks : All IsLandmark m.landmarks

fails-eq_false :
    {A : Type 0} (test : A → Bool) (a : A) → fails test (some a) ≡ false → test a ≡ true
fails-eq_false test a h = ground arith

-- Nothing was reported for any part of a draft.
record NoProblems (d : Draft) : Type 0 where
  edge_chunk_id : d.edge_chunk_id.1 ≡ []
  uuid : fails is_uuid d.edge_chunk_id.0 ≡ false
  source_code : d.source_code.1 ≡ []
  started_at : d.started_at.1 ≡ []
  ended_at : d.ended_at.1 ≡ []
  ordered : both_fail ltb d.started_at.0 d.ended_at.0 ≡ false
  content_sha256 : d.content_sha256.1 ≡ []
  digest : fails is_sha256 d.content_sha256.0 ≡ false
  byte_count : d.byte_count.1 ≡ []
  schema_id : d.schema_id.1 ≡ []
  private : str_eq d.policy.0 "hashes_only" && is_given d.object_key.0 ≡ false
  stored : str_eq d.policy.0 "encrypted_audio" && not (is_given d.object_key.0) ≡ false

no_problems : (d : Draft) → problems_of d ≡ [] → NoProblems d
unfolding problems_of
no_problems d h =
    let (h1, k1) = append-eq_nil d.edge_chunk_id.1 _ h in
    let (h2, k2) = append-eq_nil (problem_if (fails is_uuid d.edge_chunk_id.0) not_a_uuid) _ k1 in
    let (h3, k3) = append-eq_nil d.source_code.1 _ k2 in
    let (h4, k4) = append-eq_nil d.started_at.1 _ k3 in
    let (h5, k5) = append-eq_nil d.ended_at.1 _ k4 in
    let (h6, k6) =
      append-eq_nil (problem_if (both_fail ltb d.started_at.0 d.ended_at.0) ended_before_start) _
        k5 in
    let (h7, k7) = append-eq_nil d.content_sha256.1 _ k6 in
    let (h8, k8) =
      append-eq_nil (problem_if (fails is_sha256 d.content_sha256.0) not_a_sha256) _ k7 in
    let (h9, k9) = append-eq_nil d.byte_count.1 _ k8 in
    let (h10, k10) = append-eq_nil d.schema_id.1 _ k9 in
    let (h11, k11) = append-eq_nil d.policy.1 _ k10 in
    let (h12, k12) = append-eq_nil d.object_key.1 _ k11 in
    let (h13, k13) = append-eq_nil (policy_problems d.policy.0 d.object_key.0) _ k12 in
    let (h14, h15) =
      append-eq_nil
        (problem_if (str_eq d.policy.0 "hashes_only" && is_given d.object_key.0) key_not_permitted)
        _ h13 in
    record {
      edge_chunk_id = h1;
      uuid = problem_if-eq_nil _ not_a_uuid h2;
      source_code = h3;
      started_at = h4;
      ended_at = h5;
      ordered = problem_if-eq_nil _ ended_before_start h6;
      content_sha256 = h7;
      digest = problem_if-eq_nil _ not_a_sha256 h8;
      byte_count = h9;
      schema_id = h10;
      private = problem_if-eq_nil _ key_not_permitted h14;
      stored = problem_if-eq_nil _ key_required h15;
    }

module _ (device_id : String) (d : Draft) (c : NoProblems d)
    (known : contains capture_policies d.policy.0 ≡ true) (landmarks : All IsLandmark d.landmarks.0)
    {id source sha schema : String} {started ended bytes : ℕ}
    (id_read : d.edge_chunk_id.0 ≡ some id) (source_read : d.source_code.0 ≡ some source)
    (started_read : d.started_at.0 ≡ some started) (ended_read : d.ended_at.0 ≡ some ended)
    (sha_read : d.content_sha256.0 ≡ some sha) (bytes_read : d.byte_count.0 ≡ some bytes)
    (schema_read : d.schema_id.0 ≡ some schema) where
  built : ChunkManifest
  built = record {
    edge_chunk_id = id;
    source_code = source;
    device_id = device_id;
    started_at = started;
    ended_at = ended;
    content_sha256 = sha;
    byte_count = bytes;
    fingerprint_schema_id = schema;
    capture_policy = d.policy.0;
    encrypted_object_key = d.object_key.0;
    matcher_hint = d.hint;
    landmarks = d.landmarks.0;
  }

  manifest_of-built : manifest_of device_id d ≡ some built
  unfolding manifest_of built
  manifest_of-built =
      rw (id_read, source_read, started_read, ended_read, sha_read, bytes_read, schema_read) refl

  built-IsManifest : IsManifest built
  unfolding built
  built-IsManifest =
      let later : not (ltb started ended) ≡ false = (rw (started_read, ended_read) at c.ordered) in
      record {
        uuid = fails-eq_false is_uuid id (rw id_read at c.uuid);
        ordered = ground arith;
        digest = fails-eq_false is_sha256 sha (rw sha_read at c.digest);
        known = known;
        private = c.private;
        stored = c.stored;
        landmarks = landmarks;
      }

  device_id-built : built.device_id ≡ device_id
  unfolding built
  device_id-built = refl

-- Without problems, everything was read, and it makes a valid manifest.
complete :
    (host : Host) (fs : Fields) (policy : String × List Problem) (device_id : String)
    → contains capture_policies policy.0 ≡ true
    → problems_of (read_draft host fs policy) ≡ []
    → (m : ChunkManifest) × (manifest_of device_id (read_draft host fs policy) ≡ some m)
      × IsManifest m
      × (m.device_id ≡ device_id)
unfolding read_draft
complete host fs policy device_id known h =
    let c = no_problems (read_draft host fs policy) h in
    let all = parse_landmarks-All (get_field fs "landmarks") in
    let (_, a) = require_str-Reads _ _ c.edge_chunk_id in
    let (_, b) = require_str-Reads _ _ c.source_code in
    let (_, e) = read_timestamp-Reads host _ _ c.started_at in
    let (_, f) = read_timestamp-Reads host _ _ c.ended_at in
    let (_, g) = require_str-Reads _ _ c.content_sha256 in
    let (_, i) = read_byte_count-Reads _ c.byte_count in
    let (_, j) = require_str-Reads _ _ c.schema_id in
    let d = read_draft host fs policy in
    (
      built device_id d c known all a b e f g i j,
      manifest_of-built device_id d c known all a b e f g i j,
      built-IsManifest device_id d c known all a b e f g i j,
      device_id-built device_id d c known all a b e f g i j,
    )

-- What came of a body: a TypeError, on an object whose capture policy is a list or an object, and on
-- all others a valid manifest of the device or problems, at least one.
pub data Answers (device_id : String) (body : Json) : ParsedManifest → Type 0 where
  accepted :
      (m : ChunkManifest)
      → has_unhashable body ≡ false
      → IsManifest m
      → m.device_id ≡ device_id
      → Answers device_id body (valid m)
  refused :
      (p : Problem) (ps : List Problem)
      → has_unhashable body ≡ false
      → Answers device_id body (invalid (p ∷ ps))
  raised : has_unhashable body ≡ true → Answers device_id body type_error

finish-Answers :
    (host : Host) (fs : Fields) (policy : String × List Problem) (device_id : String)
    (problems : List Problem)
    → has_unhashable (object fs) ≡ false
    → contains capture_policies policy.0 ≡ true
    → problems_of (read_draft host fs policy) ≡ problems
    → Answers device_id
        (object fs)
        (finish problems (manifest_of device_id (read_draft host fs policy)))
finish-Answers host fs policy device_id [] hashed known h =
    let (m, built, is_valid, same) = complete host fs policy device_id known h in
    rw built (accepted m hashed is_valid same)
finish-Answers host fs policy device_id (p ∷ ps) hashed known h = refused p ps hashed

parse_fields-Answers :
    (host : Host) (fs : Fields) (device_id : String) (policy : Option (String × List Problem))
    → PolicyRead (has_field fs "capture_policy") (get_field fs "capture_policy") policy
    → Answers device_id (object fs) (parse_fields host fs device_id policy)
parse_fields-Answers host fs device_id none unhashable = raised unhashable
parse_fields-Answers host fs device_id (some policy) (hashed, known) =
    finish-Answers host fs policy device_id _ hashed known refl

-- Whatever the body of a request, the parser raises TypeError where it is an object whose capture
-- policy is a list or an object, and on every other answers with at least one problem or with a
-- manifest of the verified device whose chunk is a UUID, which ends after it starts, whose digest is 64 lower
-- hexadecimal digits, whose policy is one of the two, with an object key where it is to store audio
-- and none where it is not, and all of whose landmarks last at least one frame.
pub parse_chunk_manifest-Answers :
    (host : Host) (body : Json) (device_id : String)
    → Answers device_id body (parse_chunk_manifest host body device_id)
unfolding parse_chunk_manifest
parse_chunk_manifest-Answers host (object fs) device_id =
    parse_fields-Answers host fs device_id _
      (read_policy-PolicyRead (has_field fs "capture_policy") (get_field fs "capture_policy"))
parse_chunk_manifest-Answers host _ device_id = refused not_an_object [] refl
