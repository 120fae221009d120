-- ===== src/Ingest/Device/Signed.antt =====
-- The requests that an active device signs are accepted.
use Prim.Native.Char.{code}
use Prim.Native.String.{◌++◌}
use text.Mathlib.TextLemmas.{cons-append, nil-append}
use ugsync.Prelude.{
  is_ascii, ℕ, ◌≤◌, ◌≡◌, refl, inl, inr, ap, ◌∙◌, Bool, true, false, not, ◌&&◌, some, List, [], ◌∷◌,
  String, eq_refl, eq_iff, arith, strip, lstrip, rstrip, is_space, is_blank, len, Option-cases,
  Bool-cases,
}
use ugsync.Dict.{Dict, get}
use ugsync.Exec.{ok}
use ugsync.Ingest.Device.{
  Host, DeviceIdentity, DeviceRegistry, ReplayCache, SignedHeaders, canonical_string, sign,
  parse_timestamp, signature_version, partition, replay_window, apart, check_replay, read_headers,
  verify, verify_request, build_signed_request,
}

-- None of its characters is a space.
unfoldable pub is_solid : String → Bool
is_solid String.[] = true
is_solid (String.◌∷◌ c s) = not (is_space (code c)) && is_solid s

rstrip-solid : (s : String) → is_solid s ≡ true → rstrip s ≡ s
unfolding rstrip is_solid
rstrip-solid String.[] h = refl
rstrip-solid (String.◌∷◌ c s) h = ground (arith, rstrip-solid s)

strip-solid : (s : String) → is_solid s ≡ true → strip s ≡ s
unfolding strip lstrip is_solid
strip-solid String.[] h = unfold rstrip in refl
strip-solid (String.◌∷◌ c s) h = ground (arith, rstrip-solid (String.◌∷◌ c s))

version_text :
    (hex : String)
    → signature_version ++ ":" ++ hex ≡ String.◌∷◌ "v" (String.◌∷◌ "1" (String.◌∷◌ ":" hex))
version_text hex =
    cons-append "v" "1" (":" ++ hex)
    ∙ ap (String.◌∷◌ "v") (
        cons-append "1" "" (":" ++ hex)
        ∙ ap (String.◌∷◌ "1") (
            nil-append (":" ++ hex)
            ∙ cons-append ":" "" hex
            ∙ ap (String.◌∷◌ ":") (nil-append hex)))

partition_version :
    (hex : String) → partition (signature_version ++ ":" ++ hex) ≡ (signature_version, hex)
unfolding partition
partition_version hex = rw (version_text hex) refl

solid_version :
    (hex : String) → is_solid hex ≡ true → is_solid (signature_version ++ ":" ++ hex) ≡ true
unfolding is_solid
solid_version hex h = rw (version_text hex) h

blank_version : (hex : String) → is_blank (signature_version ++ ":" ++ hex) ≡ false
unfolding len
blank_version hex =
    rw (version_text hex)
      (elim (Bool-cases (is_blank (String.◌∷◌ "v" (String.◌∷◌ "1" (String.◌∷◌ ":" hex))))) [
        | inl blank ↦
            let longer : len (String.◌∷◌ "v" (String.◌∷◌ "1" (String.◌∷◌ ":" hex))) ≡ 0 =
              ap len ((eq_iff _ "").0 blank) in
            absurd (omega arith)
        | inr full ↦ full
      ])

-- What the documentation of `hmac` says of a hexadecimal digest of SHA-256.
abbrev pub HasHexDigests : Host → Type 0
HasHexDigests host =
    (key message : String)
    → (is_solid (host.hmac_sha256 key message) ≡ true)
      × (is_ascii (host.hmac_sha256 key message) ≡ true)
      × (len (host.hmac_sha256 key message) ≡ 64)

module _ (host : Host) (registry : DeviceRegistry) (device : DeviceIdentity) (path : String)
    (body : List ℕ) (timestamp_iso : String) (moment now : ℕ) (cache cache' : ReplayCache) where
  pub record IsSignable : Type 0 where
    pub known : get registry device.device_id ≡ some device
    pub is_on : device.is_active ≡ true
    pub named : is_blank device.device_id ≡ false
    pub name_solid : is_solid device.device_id ≡ true
    pub timed : is_blank timestamp_iso ≡ false
    pub time_solid : is_solid timestamp_iso ≡ true
    pub read_back : parse_timestamp host timestamp_iso ≡ some moment
    pub recent : apart now moment ≤ replay_window
    pub unused :
        check_replay (device.device_id ++ ":" ++ timestamp_iso ++ ":" ++ host.sha256_hex body) cache
        ≡ (ok tt, cache')

  abbrev signed_headers : String → SignedHeaders
  signed_headers canonical = record {
    device_id = device.device_id;
    timestamp = timestamp_iso;
    signature = signature_version ++ ":" ++ sign host device.secret canonical;
  }

  read-built :
      HasHexDigests host
      → IsSignable
      → {headers : Dict String}
      → build_signed_request host device path body timestamp_iso ≡ some headers
      → (canonical : String) × (canonical_string device.device_id timestamp_iso path
            (host.sha256_hex body)
          ≡ some canonical)
        × (read_headers headers ≡ signed_headers canonical)
  unfolding build_signed_request get sign
  read-built digests signable {headers} built =
      elim (Option-cases
        (canonical_string device.device_id timestamp_iso path (host.sha256_hex body))) [
          | inl broken ↦ absurd (ground arith)
          | inr (canonical, joined) ↦
              let signature =
                signature_version ++ ":" ++ host.hmac_sha256 device.secret canonical in
              let same : ("X-Device-Id", device.device_id)
                    ∷ ("X-Timestamp", timestamp_iso)
                    ∷ ("X-Signature", signature)
                    ∷ []
                  ≡ headers =
                ground arith in
              (
                canonical,
                joined,
                rw
                    (
                      ← same,
                      strip-solid device.device_id signable.name_solid,
                      strip-solid timestamp_iso signable.time_solid,
                      strip-solid signature (solid_version _ (digests device.secret canonical).0),
                    )
                    refl,
              )
        ]

  verify-signed :
      HasHexDigests host
      → IsSignable
      → (canonical : String)
      → canonical_string device.device_id timestamp_iso path (host.sha256_hex body) ≡ some canonical
      → verify host registry path (signed_headers canonical) body now cache
        ≡ (ok (record { device = device; timestamp = moment }), cache')
  unfolding verify sign
  verify-signed digests signable canonical joined =
      rw (partition_version (host.hmac_sha256 device.secret canonical), signable.known)
        (ground (
          arith,
          joined,
          signable.is_on,
          signable.named,
          signable.timed,
          signable.read_back,
          signable.recent,
          signable.unused,
          digests device.secret canonical,
          blank_version (host.hmac_sha256 device.secret canonical),
          eq_refl (host.hmac_sha256 device.secret canonical),
        ))

  -- Where digests are hexadecimal texts: what a known, active device signs, with a name and a time
  -- of no spaces, a time that reads back as the moment and lies within the window, and a key that
  -- the cache admits, is accepted, as that device's and of that moment.
  pub signed_request_verifies :
      HasHexDigests host
      → IsSignable
      → {headers : Dict String}
      → build_signed_request host device path body timestamp_iso ≡ some headers
      → verify_request host registry path headers body now cache
        ≡ (ok (record { device = device; timestamp = moment }), cache')
  unfolding verify_request
  signed_request_verifies digests signable {headers} built =
      let (canonical, joined, read) = read-built digests signable built in
      ap (λ h. verify host registry path h body now cache) read
      ∙ verify-signed digests signable canonical joined
