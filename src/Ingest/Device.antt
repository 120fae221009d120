-- ===== src/Ingest/Device.antt =====
-- ingestion_api/device_auth.py. A body is its bytes, a moment a number of microseconds on the UTC
-- time line. SHA-256, HMAC and the ISO parser are those of the host, an argument.
pub mod Once
pub mod Signed
use Prim.Native.Char.{code}
use Prim.Native.String.{◌++◌}
use ugsync.Prelude.{
  is_ascii, ℕ, zero, suc, ◌+◌, ◌-◌, ◌*◌, Bool, true, false, not, ◌&&◌, ◌||◌, Option, none, some,
  List, [], ◌∷◌, String, str_eq, strip, is_blank, len, contains, any, ltb, ◌==◌, if◌then◌else◌,
}
use ugsync.Dict.{Dict, get, put}
use ugsync.Exec.{Exec, pure, raise, raise_if, or_raise, ◌>>=◌, ◌>>◌}

-- What `datetime.fromisoformat` makes of a text.
pub data Parsed : Type 0 where
  not_iso naive : Parsed
  aware : (moment : ℕ) → Parsed

pub record Host : Type 0 where
  pub sha256_hex : List ℕ → String
  pub hmac_sha256 : (key message : String) → String
  pub from_isoformat : String → Parsed

-- `timedelta(minutes=5)`
abbrev pub replay_window : ℕ
replay_window = 5 * 60 * 1_000_000

abbrev pub signature_version : String
signature_version = "v1"

pub data AuthError : Type 0 where
  missing_headers not_recognized malformed_signature invalid_timestamp : AuthError
  stale signature_mismatch replayed : AuthError
  value_error type_error : AuthError  -- these two are no PermissionError

unfoldable pub has_newline : String → Bool
has_newline String.[] = false
has_newline (String.◌∷◌ c s) = code c == 10 || code c == 13 || has_newline s

-- The fields joined by newlines; `none` is the ValueError.
unfoldable pub canonical_string : (device_id timestamp path body_sha256 : String) → Option String
unfolding has_newline
canonical_string device_id timestamp path body_sha256 =
    if any has_newline (device_id ∷ timestamp ∷ path ∷ body_sha256 ∷ [])
    then none
    else some (
        signature_version ++ "\n" ++ device_id ++ "\n" ++ timestamp ++ "\n" ++ path ++ "\n"
        ++ body_sha256)

unfoldable pub sign : Host → (secret canonical : String) → String
sign host secret canonical = host.hmac_sha256 secret canonical

-- `text[:-1] + "+00:00"` where the text ends in "Z"
unfoldable pub with_offset : String → String
with_offset String.[] = String.[]
with_offset (String.◌∷◌ c s) =
    if is_blank s && code c == b'Z' then "+00:00" else String.◌∷◌ c (with_offset s)

-- `_parse_timestamp`; `none` is the ValueError.
abbrev pub aware_moment : Parsed → Option ℕ
aware_moment (aware moment) = some moment
aware_moment naive = none
aware_moment not_iso = none

unfoldable pub parse_timestamp : Host → String → Option ℕ
parse_timestamp host value = aware_moment (host.from_isoformat (with_offset (strip value)))

pub record DeviceIdentity : Type 0 where
  pub device_id : String
  pub source_id : String
  pub secret : String
  pub is_active : Bool

abbrev pub DeviceRegistry : Type 0
DeviceRegistry = Dict DeviceIdentity

unfoldable pub register : DeviceRegistry → DeviceIdentity → DeviceRegistry
register devices device = put devices device.device_id device

abbrev pub switch_off : DeviceRegistry → String → Option DeviceIdentity → DeviceRegistry
switch_off devices device_id none = devices
switch_off devices device_id (some device) =
    put devices device_id (record device { is_active = false })

unfoldable pub deactivate : DeviceRegistry → String → DeviceRegistry
deactivate devices device_id = switch_off devices device_id (get devices device_id)

pub record VerifiedRequest : Type 0 where
  pub device : DeviceIdentity
  pub timestamp : ℕ

-- The keys seen, where a cache is given.
abbrev pub ReplayCache : Type 0
ReplayCache = Option (List String)

abbrev pub Verify : Type 0 → Type 0
Verify A = Exec AuthError ReplayCache A

-- `if replay_cache is not None and replay_cache.seen(key)`, and the call's effect
unfoldable pub check_replay : String → Verify (Unit {0})
check_replay key none = pure tt none
check_replay key (some keys) =
    (if contains keys key then raise replayed (some keys) else pure tt (some (key ∷ keys)))

pub record SignedHeaders : Type 0 where
  pub device_id : String
  pub timestamp : String
  pub signature : String

-- `text.partition(":")`, without its middle part
unfoldable pub partition : String → String × String
partition String.[] = (String.[], String.[])
partition (String.◌∷◌ c s) =
    let rest = partition s in
    if code c == b':' then (String.[], s) else (String.◌∷◌ c rest.0, rest.1)

abbrev pub header : Dict String → String → String
header headers name = elim (get headers name) [ none ↦ "" | some value ↦ strip value ]

abbrev pub read_headers : Dict String → SignedHeaders
read_headers headers = record {
  device_id = header headers "X-Device-Id";
  timestamp = header headers "X-Timestamp";
  signature = header headers "X-Signature";
}

abbrev pub apart : ℕ → ℕ → ℕ
apart a b = (a - b) + (b - a)

abbrev pub active : Option DeviceIdentity → Option DeviceIdentity
active none = none
active (some device) = if device.is_active then some device else none

abbrev pub replay_key : SignedHeaders → String → String
replay_key h body_hash = h.device_id ++ ":" ++ h.timestamp ++ ":" ++ body_hash

-- `verify_request` behind the reading of its headers. The method of a request plays no part.
-- `hmac.compare_digest` raises TypeError on a text that is not ASCII; a digest always is.
unfoldable pub verify :
    Host
    → DeviceRegistry
    → (path : String) → SignedHeaders
    → (body : List ℕ) → (now : ℕ) → Verify VerifiedRequest
verify host registry path h body now = do
  raise_if (is_blank h.device_id || is_blank h.timestamp || is_blank h.signature) missing_headers
  device ← or_raise (active (get registry h.device_id)) not_recognized
  let parts = partition h.signature
  raise_if (not (str_eq parts.0 signature_version) || not (len parts.1 == 64)) malformed_signature
  timestamp ← or_raise (parse_timestamp host h.timestamp) invalid_timestamp
  raise_if (ltb replay_window (apart now timestamp)) stale
  let body_hash = host.sha256_hex body
  canonical ← or_raise (canonical_string h.device_id h.timestamp path body_hash) value_error
  raise_if (not (is_ascii parts.1)) type_error
  raise_if (not (str_eq (sign host device.secret canonical) parts.1)) signature_mismatch
  check_replay (replay_key h body_hash)
  pure (record { device = device; timestamp = timestamp })

unfoldable pub verify_request :
    Host
    → DeviceRegistry
    → (path : String) → (headers : Dict String) → (body : List ℕ) → (now : ℕ)
    → Verify VerifiedRequest
verify_request host registry path headers body now =
    verify host registry path (read_headers headers) body now

-- `none` is the ValueError; `timestamp_iso` is the moment's ISO text with a final "Z".
unfoldable pub build_signed_request :
    Host
    → DeviceIdentity
    → (path : String) → (body : List ℕ) → (timestamp_iso : String) → Option (Dict String)
build_signed_request host device path body timestamp_iso =
    elim (canonical_string device.device_id timestamp_iso path (host.sha256_hex body)) [
      | none ↦ none
      | some canonical ↦ some (
          ("X-Device-Id", device.device_id)
          ∷ ("X-Timestamp", timestamp_iso)
          ∷ ("X-Signature", signature_version ++ ":" ++ sign host device.secret canonical)
          ∷ [])
    ]
