-- ===== src/Ingest/Device/Once.antt =====
-- Which requests of a device are accepted, and how often.
use ugsync.Prelude.{
  ℕ, ◌≤◌, ◌≡◌, ◌≢◌, ◌⊎◌, refl, inl, inr, Bool, true, false, Option, none, some, List, [], ◌∷◌,
  String, eq_refl, eq_iff, contains, arith, Option-cases, Bool-cases,
}
use ugsync.Dict.{Dict, get}
use ugsync.Exec.{ok, err}
use ugsync.Ingest.Device.{
  Host, replayed, DeviceIdentity, DeviceRegistry, VerifiedRequest, ReplayCache, SignedHeaders,
  canonical_string, sign, parse_timestamp, signature_version, partition, replay_window, apart,
  active, replay_key, check_replay, read_headers, verify, verify_request,
}

module _ (host : Host) (registry : DeviceRegistry) (path : String) (h : SignedHeaders)
    (body : List ℕ) (now : ℕ) (cache cache' : ReplayCache) (r : VerifiedRequest) where
  pub record Accepts : Type 0 where
    pub known : get registry h.device_id ≡ some r.device
    pub is_on : r.device.is_active ≡ true
    pub read_as : parse_timestamp host h.timestamp ≡ some r.timestamp
    pub recent : apart now r.timestamp ≤ replay_window
    pub version : (partition h.signature).0 ≡ signature_version
    pub canonical : String
    pub bound :
        canonical_string h.device_id h.timestamp path (host.sha256_hex body) ≡ some canonical
    pub signed : sign host r.device.secret canonical ≡ (partition h.signature).1
    pub first_use : check_replay (replay_key h (host.sha256_hex body)) cache ≡ (ok tt, cache')

active-eq_some :
    (found : Option DeviceIdentity) (device : DeviceIdentity)
    → active found ≡ some device
    → (found ≡ some device) × (device.is_active ≡ true)
active-eq_some none device h = absurd (ground arith)
active-eq_some (some other) device h = elim (Bool-cases other.is_active) [
  | inl on ↦ let same : other ≡ device = ground arith in rw (← same) (refl, on)
  | inr off ↦ absurd (ground arith)
]

check_replay-cases :
    (key : String) (cache : ReplayCache)
    → ((cache' : ReplayCache) × (check_replay key cache ≡ (ok tt, cache')))
      ⊎ (check_replay key cache ≡ (err replayed, cache))
unfolding check_replay
check_replay-cases key none = inl (none, refl)
check_replay-cases key (some keys) = elim (Bool-cases (contains keys key)) [
  | inl seen ↦ inr (rw seen refl)
  | inr unseen ↦ inl (some (key ∷ keys), rw unseen refl)
]

module _ (host : Host) (registry : DeviceRegistry) (path : String) (h : SignedHeaders)
    (body : List ℕ) (now : ℕ) (cache cache' : ReplayCache) (r : VerifiedRequest) where
  pub verify-Accepts :
      verify host registry path h body now cache ≡ (ok r, cache')
      → Accepts host registry path h body now cache cache' r
  unfolding verify
  verify-Accepts ran = elim (Option-cases (active (get registry h.device_id))) [
    | inl unknown ↦ absurd (ground arith)
    | inr (device, found) ↦ elim (Option-cases (parse_timestamp host h.timestamp)) [
      | inl unread ↦ absurd (ground arith)
      | inr (moment, read) ↦
          elim (Option-cases
            (canonical_string h.device_id h.timestamp path (host.sha256_hex body))) [
              | inl broken ↦ absurd (ground arith)
              | inr (canonical, joined) ↦
                  elim (check_replay-cases (replay_key h (host.sha256_hex body)) cache) [
                    | inr seen ↦ absurd (ground arith)
                    | inl (after, fresh) ↦
                        let (listed, on) = active-eq_some _ device found in
                        let same : device ≡ r.device = ground arith in
                        let at : moment ≡ r.timestamp = ground arith in
                        record {
                          known = ground arith;
                          is_on = ground arith;
                          read_as = ground arith;
                          recent = ground arith;
                          version =
                              ground (arith, eq_iff (partition h.signature).0 signature_version);
                          canonical = canonical;
                          bound = joined;
                          signed = ground (
                            arith,
                            eq_iff (sign host device.secret canonical) (partition h.signature).1,
                          );
                          first_use = ground arith;
                        }
                  ]
            ]
    ]
  ]

abbrev pub has_seen : ReplayCache → String → Bool
has_seen none key = false
has_seen (some keys) key = contains keys key

check_replay-keeps :
    (key other : String) (cache : ReplayCache)
    → has_seen cache other ≡ true
    → has_seen (check_replay key cache).1 other ≡ true
unfolding check_replay contains
check_replay-keeps key other none h = absurd (ground arith)
check_replay-keeps key other (some keys) h = ground arith

check_replay_marks :
    (key : String) (keys : List String) {cache' : ReplayCache}
    → check_replay key (some keys) ≡ (ok tt, cache')
    → has_seen cache' key ≡ true
unfolding check_replay contains
check_replay_marks key keys {cache'} h = elim (Bool-cases (contains keys key)) [
  | inl seen ↦ absurd (ground arith)
  | inr unseen ↦
      let same : some (key ∷ keys) ≡ cache' = ground arith in
      rw (← same) (ground (arith, eq_refl key))
]

-- A request as it reaches the server, at some time and with the devices known by then.
pub record Call : Type 0 where
  pub registry : DeviceRegistry
  pub path : String
  pub headers : Dict String
  pub body : List ℕ
  pub now : ℕ

module _ (host : Host) where
  verify-keeps :
      (registry : DeviceRegistry) (path : String) (h : SignedHeaders) (body : List ℕ) (now : ℕ)
      (key : String) (cache : ReplayCache)
      → has_seen cache key ≡ true
      → has_seen (verify host registry path h body now cache).1 key ≡ true
  unfolding verify
  verify-keeps registry path h body now key cache seen =
      elim (Option-cases (active (get registry h.device_id))) [
        | inl unknown ↦ ground arith
        | inr (device, found) ↦ elim (Option-cases (parse_timestamp host h.timestamp)) [
          | inl unread ↦ ground arith
          | inr (moment, read) ↦
              elim (Option-cases
                (canonical_string h.device_id h.timestamp path (host.sha256_hex body))) [
                  | inl broken ↦ ground arith
                  | inr (canonical, joined) ↦
                      let kept =
                        check_replay-keeps (replay_key h (host.sha256_hex body)) key cache seen in
                      elim (check_replay-cases (replay_key h (host.sha256_hex body)) cache) [
                        | inr again ↦ ground arith
                        | inl (after, fresh) ↦ ground arith
                      ]
                ]
        ]
      ]

  abbrev pub cache_after : List Call → ReplayCache → ReplayCache
  cache_after [] cache = cache
  cache_after (c ∷ cs) cache =
      cache_after cs (verify_request host c.registry c.path c.headers c.body c.now cache).1

  calls-keep :
      (cs : List Call) (key : String) (cache : ReplayCache)
      → has_seen cache key ≡ true
      → has_seen (cache_after cs cache) key ≡ true
  unfolding verify_request
  calls-keep [] key cache h = h
  calls-keep (c ∷ cs) key cache h =
      calls-keep cs key _
        (verify-keeps c.registry c.path (read_headers c.headers) c.body c.now key cache h)

  seen_refused :
      (key : String) (cache : ReplayCache) {cache' : ReplayCache}
      → has_seen cache key ≡ true
      → check_replay key cache ≢ (ok tt, cache')
  unfolding check_replay
  seen_refused key none h = absurd (ground arith)
  seen_refused key (some keys) h = ground arith

  -- With a replay cache, a request that was accepted is never accepted again: no request with the
  -- same headers and body is, on any path, whatever other requests come in between, whatever the
  -- clock shows and whichever devices are registered then.
  pub accepted_once :
      (first again : Call) (between : List Call) (keys : List String) {cache' cache'' : ReplayCache}
      {r r' : VerifiedRequest}
      → verify_request host first.registry first.path first.headers first.body first.now (some keys)
        ≡ (ok r, cache')
      → again.headers ≡ first.headers
      → again.body ≡ first.body
      → verify_request host again.registry again.path again.headers again.body again.now
          (cache_after between cache')
        ≢ (ok r', cache'')
  unfolding verify_request
  accepted_once first again between keys accepted same_headers same_body repeated =
      let one =
        verify-Accepts host first.registry first.path _ first.body first.now (some keys) _ _
          accepted in
      let two =
        verify-Accepts host again.registry again.path _ again.body again.now _ _ _ repeated in
      let marked = check_replay_marks _ keys one.first_use in
      let use_again = (rw (same_headers, same_body) at two.first_use) in
      seen_refused _ _ (calls-keep between _ _ marked) use_again
