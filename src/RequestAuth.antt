-- ===== src/RequestAuth.antt =====
-- services/connector-protocol/auth.go: signed requests to the connector. HMAC and SHA-256 are
-- arguments, and the lock makes the end of Verify, which reads and writes the nonces, one step.
pub mod Headers
pub mod Replay
pub mod Signed
pub mod Signing
mod Tests
use vps_manager.Base.{
  ℕ, ◌+◌, ◌-◌, ◌*◌, ◌/◌, ◌%◌, ◌^◌, Bool, true, false, not, ◌&&◌, ◌||◌, Option, none, some, List, [],
  ◌∷◌, ◌++◌, ℤ, pos, negsuc, ltb_ℤ, leb_ℤ, pos_part, neg_part, Time, Duration, second, minute, Text,
  Table, codes, lookup, insert, delete, keep, length, ltb, leb, ◌==◌, text_eq, if◌then◌else◌,
  all_of, Result, Check, ok, err, ◌>>=◌, ◌>>◌, guard, reject_if, or_fail,
}
use vps_manager.Encoding.Hex.{hex}
use vps_manager.Encoding.Base64
use vps_manager.Encoding.Join
use Headers.{
  Request, single_header, header_protocol, header_key_id, header_timestamp, header_nonce,
  header_signature, parse_int, unix_time, to_upper,
}

-- The codes of VerifyError, and the errors of NewVerifier and NewSigner.
pub data Error : Type 0 where
  invalid_request invalid_protocol invalid_key_id invalid_timestamp stale_request : Error
  invalid_nonce invalid_signature replayed_request replay_cache_full : Error
  key_id_invalid key_too_short window_too_large cache_too_large random_failed : Error

pub record Verifier : Type 0 where
  pub key_id : Text
  pub key : Text
  pub max_skew : ℕ
  pub max_nonces : ℕ
  pub nonces : Table Time

abbrev is_key_character : ℕ → Bool
is_key_character c =
    leb b'a' c && leb c b'z'
    || leb b'A' c && leb c b'Z'
    || leb b'0' c && leb c b'9'
    || c == b'.'
    || c == b'_'
    || c == b'-'

pub valid_key : Text → Text → Check Error
valid_key key_id key = do
  reject_if (ltb (length key_id) 1 || ltb 64 (length key_id)) Error.key_id_invalid
  guard (all_of is_key_character key_id) Error.key_id_invalid
  reject_if (ltb (length key) 32) Error.key_too_short

-- NewVerifier
unfoldable pub new_verifier : Text → Text → Duration → ℤ → Result Error Verifier
unfolding valid_key
new_verifier key_id key skew nonces = do
  valid_key key_id key
  let max_skew : Duration = if leb_ℤ skew (pos 0) then pos (30 * second) else skew
  reject_if (ltb_ℤ (pos (5 * minute)) max_skew) Error.window_too_large
  let max_nonces : ℤ = if leb_ℤ nonces (pos 0) then pos 10000 else nonces
  reject_if (ltb_ℤ (pos 1000000) max_nonces) Error.cache_too_large
  ok (record {
    key_id = key_id;
    key = key;
    max_skew = pos_part max_skew;
    max_nonces = pos_part max_nonces;
    nonces = [];
  })

abbrev pub protocol_version : Text
protocol_version = codes "v1"

abbrev pub within : ℕ → Text → ℕ → Bool
within least s most = leb least (length s) && leb (length s) most

-- The nonce's place in the cache.
abbrev pub cache_key : Text → Text → Text
cache_key key_id nonce = key_id ++ 0 ∷ nonce

-- The nonces that have not run out.
abbrev pub live_nonces : Verifier → Time → Table Time
live_nonces v now = keep (λ expires. ltb now expires) v.nonces

abbrev pub is_known : Option Time → Bool
is_known none = false
is_known (some t) = true

pub remember : Verifier → Text → Time → Verifier × Check Error
remember v key now =
    if is_known (lookup key (live_nonces v now))
    then (record v { nonces = live_nonces v now }, err Error.replayed_request)
    else if leb v.max_nonces (length (live_nonces v now))
    then (record v { nonces = live_nonces v now }, err Error.replay_cache_full)
    else (record v { nonces = insert key (now + 2 * v.max_skew) (live_nonces v now) }, ok tt)

module _ (sha256 : Text → Text) (mac : Text → Text → Text) where
  pub canonical_request : Request → Text → Text → Text → Text
  unfolding hex to_upper
  canonical_request r key_id timestamp nonce = Join.join (10 ∷ []) (
      codes "VPSMGR-HMAC-SHA256"
      ∷ protocol_version
      ∷ key_id
      ∷ timestamp
      ∷ nonce
      ∷ to_upper r.method
      ∷ r.uri
      ∷ hex (sha256 r.body)
      ∷ [])

  -- Verify up to the lock: the nonce's cache key, or the first check that failed.
  pub authenticate : Verifier → Request → Time → Result Error Text
  authenticate v r now = do
    protocol ← or_fail (single_header r header_protocol) Error.invalid_protocol
    guard (text_eq protocol protocol_version) Error.invalid_protocol
    key_id ← or_fail (single_header r header_key_id) Error.invalid_key_id
    guard (text_eq key_id v.key_id) Error.invalid_key_id
    text ← or_fail (single_header r header_timestamp) Error.invalid_timestamp
    timestamp ← or_fail (parse_int text) Error.invalid_timestamp
    reject_if
        (ltb (unix_time timestamp) (now - v.max_skew)
          || ltb (now + v.max_skew) (unix_time timestamp))
        Error.stale_request
    nonce ← or_fail (single_header r header_nonce) Error.invalid_nonce
    nonce_bytes ← or_fail (Base64.decode false nonce) Error.invalid_nonce
    guard (within 16 nonce_bytes 64) Error.invalid_nonce
    signature_text ← or_fail (single_header r header_signature) Error.invalid_signature
    signature ← or_fail (Base64.decode false signature_text) Error.invalid_signature
    guard (length signature == 32) Error.invalid_signature
    guard (text_eq (mac v.key (canonical_request r key_id text nonce)) signature)
        Error.invalid_signature
    ok (cache_key key_id nonce)

  unfoldable pub verify_request : Verifier → Request → Time → Verifier × Check Error
  unfolding remember
  verify_request v r now = elim (authenticate v r now) [
    | err e ↦ (v, err e)
    | ok key ↦ remember v key now
  ]

  -- A request of `none` is one without a URL.
  pub verify : Verifier → Option Request → Time → Verifier × Check Error
  verify v none now = (v, err Error.invalid_request)
  verify v (some r) now = verify_request v r now
