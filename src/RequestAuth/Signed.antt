-- ===== src/RequestAuth/Signed.antt =====
-- What an accepted request shows, how many nonces are kept, and the instant at which a nonce is
-- forgotten while its request can still pass.
use vps_manager.Base.{
  ◌+◌, ◌-◌, ◌*◌, ◌<◌, ◌≤◌, ◌≡◌, refl, ap, false, some, List, [], ◌∷◌, arith, ℤ, Time, Text, IsMap,
  lookup, insert, delete, keep, length, ltb, text_eq_iff, ok, Option-cases, inl, inr, Result-cases,
  keep-IsMap, insert-IsMap, length-keep-le, length-insert-le,
}
use vps_manager.Encoding.Base64
use vps_manager.RequestAuth.Headers.{
  Request, single_header, header_key_id, header_nonce, header_timestamp, header_signature,
  parse_int, unix_time,
}
use vps_manager.RequestAuth.{
  Verifier, authenticate, remember, live_nonces, verify_request, canonical_request,
}
use vps_manager.RequestAuth.Replay.{run, SameConfig}

pub record IsBounded (v : Verifier) : Type 0 where
  pub within_cache : length v.nonces ≤ v.max_nonces
  pub keys : IsMap v.nonces

module _ (sha256 : Text → Text) (mac : Text → Text → Text) where
  -- An accepted request names the verifier's key, and its signature header is the base64 of the MAC,
  -- under that key, of the canonical request with the timestamp and nonce that its headers show.
  pub accepted_is_signed :
      (v : Verifier) (r : Request) (now : Time)
      → (verify_request sha256 mac v r now).1 ≡ ok tt
      → (text : Text) × (nonce : Text) × (signature : Text) × (single_header r header_key_id
          ≡ some v.key_id)
        × (single_header r header_timestamp ≡ some text)
        × (single_header r header_nonce ≡ some nonce)
        × (single_header r header_signature ≡ some signature)
        × (Base64.decode false signature
            ≡ some (mac v.key (canonical_request sha256 mac r v.key_id text nonce)))
  unfolding verify_request authenticate
  accepted_is_signed v r now h = elim (Option-cases (single_header r header_key_id)) [
    | inl e ↦ ground arith
    | inr (k, ek) ↦ elim (Option-cases (single_header r header_timestamp)) [
      | inl e ↦ ground arith
      | inr (t, et) ↦ elim (Option-cases (single_header r header_nonce)) [
        | inl e ↦ ground arith
        | inr (n, en) ↦ elim (Option-cases (single_header r header_signature)) [
          | inl e ↦ ground arith
          | inr (s, es) ↦ elim (Option-cases (Base64.decode false s)) [
            | inl e ↦ ground arith
            | inr (d, ed) ↦ (
              t,
              n,
              s,
              ground (arith, text_eq_iff k v.key_id),
              et,
              en,
              es,
              ground (
                arith,
                text_eq_iff k v.key_id,
                text_eq_iff (mac v.key (canonical_request sha256 mac r k t n)) d,
              ),
            )
          ]
        ]
      ]
    ]
  ]

  remember-IsBounded :
      (v : Verifier) (key : Text) (now : Time) → IsBounded v → IsBounded (remember v key now).0
  unfolding remember
  remember-IsBounded v key now b =
      let live = λ (e : Time). ltb now e in
      let kept = keep-IsMap live v.nonces b.keys in
      ground (
        arith,
        length-keep-le live v.nonces,
        kept,
        insert-IsMap key (now + 2 * v.max_skew) (live_nonces v now) kept,
        length-insert-le key (now + 2 * v.max_skew) (live_nonces v now),
      )

  -- Whatever requests come, the cache holds at most `max_nonces` nonces, each once.
  pub nonces-IsBounded :
      (v : Verifier) (cs : List (Request × Time)) → IsBounded v → IsBounded (run sha256 mac v cs)
  unfolding run verify_request
  nonces-IsBounded v [] b = b
  nonces-IsBounded v ((r, now) ∷ cs) b = elim (Result-cases (authenticate sha256 mac v r now)) [
    | inr (e, failed) ↦
        nonces-IsBounded (verify_request sha256 mac v r now).0 cs (rw (failed, verify_request) b)
    | inl (k, passed) ↦
        nonces-IsBounded (verify_request sha256 mac v r now).0 cs
          (rw (passed, verify_request) (remember-IsBounded v k now b))
  ]

  authenticate_later :
      (v w : Verifier) (r : Request) (t u : Time) (key text : Text) (timestamp : ℤ)
      → SameConfig v w
      → authenticate sha256 mac v r t ≡ ok key
      → single_header r header_timestamp ≡ some text
      → parse_int text ≡ some timestamp
      → u - v.max_skew ≤ unix_time timestamp
      → unix_time timestamp ≤ u + v.max_skew
      → authenticate sha256 mac w r u ≡ ok key
  unfolding authenticate
  authenticate_later v w r t u key text timestamp same h et ez early late =
      ground (arith, same.key_id, same.key, same.skew)

  -- The bound on replays is not strict enough by one instant: a request that is accepted with a
  -- timestamp at the far end of the window is accepted once more exactly two windows later, when its
  -- nonce has just been dropped and its timestamp is still within the window.
  pub replay_at_boundary :
      (v : Verifier) (r : Request) (start : Time) (key text : Text) (timestamp : ℤ)
      → v.nonces ≡ []
      → 0 < v.max_nonces
      → authenticate sha256 mac v r start ≡ ok key
      → single_header r header_timestamp ≡ some text
      → parse_int text ≡ some timestamp
      → unix_time timestamp ≡ start + v.max_skew
      → ((verify_request sha256 mac v r start).1 ≡ ok tt)
        × ((verify_request sha256 mac
              (verify_request sha256 mac v r start).0
              r
              (start + 2 * v.max_skew)).1
            ≡ ok tt)
  unfolding verify_request remember lookup insert delete keep
  replay_at_boundary v r start key text timestamp empty room passed et ez edge =
      let now = start + 2 * v.max_skew in
      let w : Verifier = record v { nonces = (key, now) ∷ [] } in
      let again =
        authenticate_later v w r start now key text timestamp
          (record { key_id = refl; key = refl; skew = refl; nonces = refl }) passed et ez
          (omega (arith, edge)) (omega (arith, edge)) in
      let first : verify_request sha256 mac v r start ≡ (w, ok tt) =
        rw (passed, verify_request) (rw (empty, remember) (ground (arith, room, empty))) in
      (ap (λ p. p.1) first, rw first (rw (again, verify_request) (ground (arith, room))))
