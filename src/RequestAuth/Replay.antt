-- ===== src/RequestAuth/Replay.antt =====
-- A signed request is accepted once.
use vps_manager.Base.{
  ◌+◌, ◌-◌, ◌*◌, ◌<◌, ◌≤◌, ◌≡◌, ◌≢◌, some, List, [], ◌∷◌, arith, ℤ, Time, Text, lookup, ltb,
  text_eq_iff, text_eq_refl, ok, Option-cases, inl, inr, lookup-insert, keep-kept, lt→ltb,
  Result-cases,
}
use native.Mathlib.Decide.{dec_lt}
use vps_manager.RequestAuth.Headers.{
  Request, single_header, header_key_id, header_nonce, header_timestamp, parse_int, unix_time,
}
use vps_manager.RequestAuth.{Verifier, authenticate, live_nonces, verify_request, cache_key}

-- What an authenticated request shows: its key and nonce, and a time within the window.
pub record IsFresh (v : Verifier) (r : Request) (now : Time) (key : Text) : Type 0 where
  pub key_id : Text
  pub nonce : Text
  pub text : Text
  pub timestamp : ℤ
  pub key_found : single_header r header_key_id ≡ some key_id
  pub nonce_found : single_header r header_nonce ≡ some nonce
  pub text_found : single_header r header_timestamp ≡ some text
  pub parsed : parse_int text ≡ some timestamp
  pub cached : key ≡ cache_key key_id nonce
  pub early : now - v.max_skew ≤ unix_time timestamp
  pub late : unix_time timestamp ≤ now + v.max_skew

module _ (sha256 : Text → Text) (mac : Text → Text → Text) where
  pub authenticate-IsFresh :
      (v : Verifier) (r : Request) (now : Time) (key : Text)
      → authenticate sha256 mac v r now ≡ ok key
      → IsFresh v r now key
  unfolding authenticate
  authenticate-IsFresh v r now key h = elim (Option-cases (single_header r header_key_id)) [
    | inl e ↦ ground arith
    | inr (k, ek) ↦ elim (Option-cases (single_header r header_nonce)) [
      | inl e ↦ ground arith
      | inr (n, en) ↦ elim (Option-cases (single_header r header_timestamp)) [
        | inl e ↦ ground arith
        | inr (t, et) ↦ elim (Option-cases (parse_int t)) [
          | inl e ↦ ground arith
          | inr (z, ez) ↦ record {
            key_id = k;
            nonce = n;
            text = t;
            timestamp = z;
            key_found = ek;
            nonce_found = en;
            text_found = et;
            parsed = ez;
            cached = ground arith;
            early = ground arith;
            late = ground arith;
          }
        ]
      ]
    ]
  ]

-- The later verifier differs in its nonces alone.
pub record SameConfig (v w : Verifier) : Type 0 where
  pub key_id : w.key_id ≡ v.key_id
  pub key : w.key ≡ v.key
  pub skew : w.max_skew ≡ v.max_skew
  pub nonces : w.max_nonces ≡ v.max_nonces

-- The same request has the same cache key, whenever it is authenticated.
same_key :
    (v w : Verifier) (r : Request) (t u : Time) (key other : Text)
    → IsFresh v r t key
    → IsFresh w r u other
    → other ≡ key
same_key v w r t u key other a b =
    ground (arith, a.cached, b.cached, a.key_found, b.key_found, a.nonce_found, b.nonce_found)

-- Nor is its timestamp another.
same_time :
    (v w : Verifier) (r : Request) (t u : Time) (key other : Text) (a : IsFresh v r t key)
    (b : IsFresh w r u other)
    → unix_time b.timestamp ≡ unix_time a.timestamp
same_time v w r t u key other a b = ground (arith, a.text_found, b.text_found, a.parsed, b.parsed)

module _ (sha256 : Text → Text) (mac : Text → Text → Text) where
  abbrev pub Call : Type 0
  Call = Request × Time

  unfoldable pub run : Verifier → List Call → Verifier
  run v [] = v
  run v ((r, now) ∷ cs) = run (verify_request sha256 mac v r now).0 cs

  abbrev pub AllUntil : Time → List Call → Type 0
  AllUntil until [] = Unit
  AllUntil until ((r, now) ∷ cs) = (now ≤ until) × AllUntil until cs

  -- The nonce is cached until `expires`.
  pub record IsCached (v : Verifier) (key : Text) (expires : Time) (w : Verifier) : Type 0 where
    pub config : SameConfig v w
    pub found : lookup key w.nonces ≡ some expires

  verify-config :
      (v : Verifier) (r : Request) (now : Time) → SameConfig v (verify_request sha256 mac v r now).0
  unfolding verify_request
  verify-config v r now = ground arith

  verify-keeps :
      (v : Verifier) (r : Request) (now : Time) (key : Text) (expires : Time)
      → now < expires
      → lookup key v.nonces ≡ some expires
      → lookup key (verify_request sha256 mac v r now).0.nonces ≡ some expires
  unfolding verify_request
  verify-keeps v r now key expires live h =
      let kept =
        keep-kept (λ (e : Time). ltb now e) key expires v.nonces h (lt→ltb now expires live) in
      elim (Result-cases (authenticate sha256 mac v r now)) [
        | inr (e, failed) ↦ rw (failed, verify_request) h
        | inl (k, passed) ↦
            rw (passed, verify_request)
              (ground (
                arith,
                kept,
                lookup-insert k key (now + 2 * v.max_skew) (live_nonces v now),
                text_eq_iff k key,
              ))
      ]

  config_trans : {u v w : Verifier} → SameConfig u v → SameConfig v w → SameConfig u w
  config_trans a b =
      ground (arith, a.key_id, b.key_id, a.key, b.key, a.skew, b.skew, a.nonces, b.nonces)

  run-config : (v : Verifier) (cs : List Call) → SameConfig v (run v cs)
  unfolding run
  run-config v [] = ground arith
  run-config v ((r, now) ∷ cs) =
      config_trans (verify-config v r now) (run-config (verify_request sha256 mac v r now).0 cs)

  run-keeps :
      (v : Verifier) (cs : List Call) (key : Text) (until expires : Time)
      → until < expires
      → AllUntil until cs
      → lookup key v.nonces ≡ some expires
      → lookup key (run v cs).nonces ≡ some expires
  unfolding run
  run-keeps v [] key until expires lt h f = f
  run-keeps v ((r, now) ∷ cs) key until expires lt h f =
      run-keeps (verify_request sha256 mac v r now).0 cs key until expires lt h.1
        (verify-keeps v r now key expires (omega (arith, h.0)) f)

  -- What was accepted was authenticated, and its key is cached for twice the window.
  accepted :
      (v : Verifier) (r : Request) (now : Time)
      → (verify_request sha256 mac v r now).1 ≡ ok tt
      → (key : Text) × (authenticate sha256 mac v r now ≡ ok key)
        × (lookup key (verify_request sha256 mac v r now).0.nonces ≡ some (now + 2 * v.max_skew))
  unfolding verify_request
  accepted v r now h = elim (Result-cases (authenticate sha256 mac v r now)) [
    | inr (e, failed) ↦ ground (arith, failed)
    | inl (k, passed) ↦ (
      k,
      passed,
      rw (passed, verify_request)
          (ground (
            arith,
            passed,
            lookup-insert k k (now + 2 * v.max_skew) (live_nonces v now),
            text_eq_refl k,
          )),
    )
  ]

  cached-refused :
      (w : Verifier) (r : Request) (now : Time) (key : Text) (expires : Time)
      → lookup key w.nonces ≡ some expires
      → now < expires
      → ((other : Text) → authenticate sha256 mac w r now ≡ ok other → other ≡ key)
      → (verify_request sha256 mac w r now).1 ≢ ok tt
  unfolding verify_request
  cached-refused w r now key expires found live same e =
      elim (Result-cases (authenticate sha256 mac w r now)) [
        | inr (f, failed) ↦ ground (arith, failed)
        | inl (k, passed) ↦ ground (
          arith,
          passed,
          same k passed,
          keep-kept (λ (x : Time). ltb now x) key expires w.nonces found (lt→ltb now expires live),
        )
      ]

  module _ (v : Verifier) (r : Request) (start : Time)
      (first : (verify_request sha256 mac v r start).1 ≡ ok tt) where
    -- An accepted request is not accepted again, whatever requests come in between, if the clock
    -- does not run back, at any time but one: the instant that lies twice the window later.
    pub replay_rejected :
        (cs : List Call) (now : Time)
        → AllUntil now cs
        → now ≢ start + 2 * v.max_skew
        → (verify_request sha256 mac (run (verify_request sha256 mac v r start).0 cs) r now).1
          ≢ ok tt
    replay_rejected cs now until other e =
        let a = accepted v r start first in
        let v' = (verify_request sha256 mac v r start).0 in
        let w = run v' cs in
        let same = config_trans (verify-config v r start) (run-config v' cs) in
        let fresh = authenticate-IsFresh sha256 mac v r start a.0 a.1 in
        let again = accepted w r now e in
        let fresh_again = authenticate-IsFresh sha256 mac w r now again.0 again.1 in
        elim (dec_lt now (start + 2 * v.max_skew)) [
          | yes before ↦
              cached-refused w r now a.0 (start + 2 * v.max_skew)
                (run-keeps v' cs a.0 now (start + 2 * v.max_skew) before until a.2) before
                (λ k p.
                  same_key v w r start now a.0 k fresh
                    (authenticate-IsFresh sha256 mac w r now k p))
                e
          | no after ↦ absurd (
              omega (
                arith,
                other,
                after,
                same.skew,
                fresh.late,
                fresh_again.early,
                same_time v w r start now a.0 again.0 fresh fresh_again,
              ))
        ]
