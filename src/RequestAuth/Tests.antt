-- ===== src/RequestAuth/Tests.antt =====
-- A signed request, and the theorems at it.
use vps_manager.Base.{
  IsBytes, ◌+◌, ◌*◌, ◌≡◌, ◌≢◌, refl, false, some, [], ◌∷◌, arith, pos, Time, second, Text, codes,
  lookup, ok, trim_space, text_eq,
}
use vps_manager.Encoding.Base64
use vps_manager.RequestAuth.Signing
use vps_manager.RequestAuth.Headers.{
  Request, single_header, header_protocol, header_key_id, header_timestamp, header_nonce,
  header_signature, parse_int, unix_time,
}
use vps_manager.RequestAuth.{Verifier, verify_request, authenticate, canonical_request, cache_key}
use vps_manager.RequestAuth.Replay.{replay_rejected, run}
use vps_manager.RequestAuth.Signed.{accepted_is_signed, replay_at_boundary}

abbrev plain : Text → Text
plain t = t

-- A constant in place of the MAC.
abbrev tag : Text
tag = codes "abcdefghijklmnopqrstuvwxyz012345"

abbrev sign : Text → Text → Text
sign key t = tag

abbrev tag64 : Text
tag64 = codes "YWJjZGVmZ2hpamtsbW5vcHFyc3R1dnd4eXowMTIzNDU"

abbrev nonce64 : Text
nonce64 = codes "YWJjZGVmZ2hpamtsbW5vcA"

abbrev request : Request
request = record {
  method = codes "POST";
  uri = codes "/v1/probe";
  headers =
      (header_protocol, codes "v1" ∷ [])
      ∷ (header_key_id, codes "k1" ∷ [])
      ∷ (header_timestamp, codes "130" ∷ [])
      ∷ (header_nonce, nonce64 ∷ [])
      ∷ (header_signature, tag64 ∷ [])
      ∷ [];
  body = codes "{}";
}

abbrev verifier : Verifier
verifier = record {
  key_id = codes "k1";
  key = tag;
  max_skew = 30 * second;
  max_nonces = 4;
  nonces = [];
}

abbrev start : Time
start = (62135596800 + 100) * second

timestamp_text : single_header request header_timestamp ≡ some (codes "130")
unfolding single_header lookup trim_space text_eq
timestamp_text = refl

timestamp_number : parse_int (codes "130") ≡ some (pos 130)
unfolding parse_int
timestamp_number = refl

timestamp_edge : unix_time (pos 130) ≡ start + verifier.max_skew
unfolding unix_time
timestamp_edge = refl

passed : authenticate plain sign verifier request start ≡ ok (cache_key (codes "k1") nonce64)
unfolding authenticate single_header lookup trim_space text_eq parse_int unix_time Base64.decode
    canonical_request
passed = refl

accepted_first : (verify_request plain sign verifier request start).1 ≡ ok tt
accepted_first =
    (replay_at_boundary plain sign verifier request start (cache_key (codes "k1") nonce64)
      (codes "130") (pos 130) refl (omega arith) passed timestamp_text timestamp_number
      timestamp_edge).0

replay_at_boundary_example :
    ((verify_request plain sign verifier request start).1 ≡ ok tt)
    × ((verify_request plain sign
          (verify_request plain sign verifier request start).0
          request
          (start + 2 * verifier.max_skew)).1
        ≡ ok tt)
replay_at_boundary_example =
    replay_at_boundary plain sign verifier request start (cache_key (codes "k1") nonce64)
      (codes "130") (pos 130) refl (omega arith) passed timestamp_text timestamp_number
      timestamp_edge

replay_rejected_example :
    (verify_request plain sign
      (run plain sign (verify_request plain sign verifier request start).0 ((request, start) ∷ []))
      request
      (start + 1)).1
    ≢ ok tt
replay_rejected_example =
    replay_rejected plain sign verifier request start accepted_first ((request, start) ∷ [])
      (start + 1) (omega arith) (omega arith)

accepted_is_signed_example :
    (text : Text) × (nonce : Text) × (signature : Text) × (single_header request header_key_id
      ≡ some verifier.key_id)
    × (single_header request header_timestamp ≡ some text)
    × (single_header request header_nonce ≡ some nonce)
    × (single_header request header_signature ≡ some signature)
    × (Base64.decode false signature
        ≡ some
            (sign verifier.key (canonical_request plain sign request verifier.key_id text nonce)))
accepted_is_signed_example = accepted_is_signed plain sign verifier request start accepted_first

abbrev drawn_nonce : Text
drawn_nonce = codes "abcdefghijklmnopqrstuvwx"

abbrev probe : Request
probe = Signing.stamped plain sign (codes "k1") tag request start drawn_nonce

made : Signing.sign plain sign (codes "k1") tag request start (some drawn_nonce) ≡ ok probe
unfolding Signing.sign
made = refl

tag-IsBytes : IsBytes tag
tag-IsBytes = omega arith

nonce-IsBytes : IsBytes drawn_nonce
nonce-IsBytes = omega arith

verify-sign_example : (verify_request plain sign verifier probe (start + second)).1 ≡ ok tt
unfolding lookup
verify-sign_example =
    Signing.verify-sign plain sign verifier request start (start + second) drawn_nonce (omega arith)
      (omega arith) nonce-IsBytes refl (ground arith) (omega arith) (λ key text. tag-IsBytes)
      (λ key text. refl) probe made (omega arith) (omega arith) refl (omega arith)
