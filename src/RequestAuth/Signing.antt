-- ===== src/RequestAuth/Signing.antt =====
-- services/connector-protocol/auth.go: `Sign`, and that what it signs is accepted.
use vps_manager.Base.{
  ℕ, suc, ◌+◌, ◌-◌, ◌*◌, ◌/◌, ◌^◌, ◌≤◌, ◌<◌, ◌≡◌, ◌≢◌, refl, false, Option, none, some, List, [],
  ◌∷◌, arith, pos, Time, second, Text, Table, lookup, keep-none, length-keep-le, insert, delete,
  length, ltb, leb, text_eq, text_eq_refl, if◌then◌else◌, Result, ok, err, IsBytes, IsPlain,
  trim_space-plain,
}
use mathlib.Core.Path.{subst}
use vps_manager.Encoding.Base64
use vps_manager.Encoding.Decimal.{itoa, itoa-ne-nil, itoa-IsDigits, IsDigits}
use vps_manager.RequestAuth.Headers.{
  Request, single_header, header_protocol, header_key_id, header_timestamp, header_nonce,
  header_signature, parse_int, parse_int-itoa, unix_time,
}
use vps_manager.RequestAuth.{
  Verifier, Error, protocol_version, cache_key, canonical_request, authenticate, verify_request,
  remember, live_nonces,
}

-- strconv.FormatInt(t.Unix(), 10)
unfoldable pub unix_text : Time → Text
unix_text t =
    if ltb (t / second) 62135596800
    then b'-' ∷ itoa (62135596800 - t / second)
    else itoa (t / second - 62135596800)

-- request.Header.Set(name, value)
abbrev pub set : Text → Text → Table (List Text) → Table (List Text)
set name value headers = insert name (value ∷ []) headers

abbrev pub signed_headers : Text → Text → Text → Text → Table (List Text) → Table (List Text)
signed_headers key_id timestamp nonce signature headers = set header_signature signature (
    set header_nonce nonce (
      set header_timestamp timestamp
        (set header_key_id key_id (set header_protocol protocol_version headers))))

single_header-set :
    (r : Request) (name value : Text)
    → lookup name r.headers ≡ some (value ∷ [])
    → IsPlain value
    → length value ≢ 0
    → single_header r name ≡ some value
unfolding single_header
single_header-set r name value h p n =
    rw (h, trim_space-plain value p) (ground (arith, text_eq_refl value, n))

unix_text-read :
    (t : Time)
    → 62135596800 ≤ t / second
    → t / second < 2 ^ 63
    → parse_int (unix_text t) ≡ some (pos (t / second - 62135596800))
unfolding unix_text
unix_text-read t old new =
    let after : ltb (t / second) 62135596800 ≡ false = ground arith in
    rw after (parse_int-itoa _ _ refl (omega arith))

digits-IsPlain : (s : Text) → IsDigits s → IsPlain s
digits-IsPlain [] h = tt
digits-IsPlain (c ∷ s) h = ((omega (arith, h.0.0), omega (arith, h.0.1)), digits-IsPlain s h.1)

length-ne-zero : (s : Text) → s ≢ [] → length s ≢ 0
length-ne-zero [] h = absurd (h refl)
length-ne-zero (c ∷ s) h = omega arith

module _ (sha256 : Text → Text) (mac : Text → Text → Text) where
  abbrev pub signature_of : Text → Text → Request → Time → Text → Text
  signature_of key_id key r now nonce =
      mac key (canonical_request sha256 mac r key_id (unix_text now) (Base64.encode nonce))

  abbrev pub stamped : Text → Text → Request → Time → Text → Request
  stamped key_id key r now nonce = record r {
    headers =
        signed_headers key_id (unix_text now) (Base64.encode nonce)
          (Base64.encode (signature_of key_id key r now nonce)) r.headers;
  }

  -- `Signer.Sign` with the key id and key of the signer; `random` are the 24 random bytes.
  unfoldable pub sign : Text → Text → Request → Time → Option Text → Result Error Request
  sign key_id key r now none = err Error.random_failed
  sign key_id key r now (some nonce_bytes) = ok (stamped key_id key r now nonce_bytes)

  same_canonical :
      (key_id key timestamp nonce64 : Text) (r : Request) (now : Time) (nonce : Text)
      → canonical_request sha256 mac (stamped key_id key r now nonce) key_id timestamp nonce64
        ≡ canonical_request sha256 mac r key_id timestamp nonce64
  unfolding canonical_request
  same_canonical key_id key timestamp nonce64 r now nonce = refl

  accepts :
      (v : Verifier) (r : Request) (now : Time) (key : Text)
      → authenticate sha256 mac v r now ≡ ok key
      → lookup key (live_nonces v now) ≡ none
      → leb v.max_nonces (length (live_nonces v now)) ≡ false
      → (verify_request sha256 mac v r now).1 ≡ ok tt
  unfolding verify_request remember
  accepts v r now key known unknown fits = ground (arith, known, unknown, fits)

  ok_injective : (s t : Request) → ◌≡◌ {A = Result Error Request} (ok s) (ok t) → s ≡ t
  ok_injective s t e = ground (arith, e)

  module _ (v : Verifier) (r : Request) (sent now : Time) (nonce : Text)
      (old : 62135596800 ≤ sent / second) (recent : sent / second < 2 ^ 63) (bytes : IsBytes nonce)
      (drawn : length nonce ≡ 24) (plain_id : IsPlain v.key_id) (some_id : length v.key_id ≢ 0)
      (tag_bytes : (key text : Text) → IsBytes (mac key text))
      (tag_length : (key text : Text) → length (mac key text) ≡ 32) where
    abbrev s : Request
    s = stamped v.key_id v.key r sent nonce

    long : (t : Text) (n : ℕ) → length t ≡ suc n → length (Base64.encode t) ≢ 0
    long [] n e = absurd (omega arith)
    long (c ∷ t) n e = Base64.encode-ne-nil (c ∷ t) (cc)

    has_protocol : single_header s header_protocol ≡ some protocol_version
    unfolding lookup insert delete text_eq
    has_protocol =
        single_header-set s header_protocol protocol_version refl (ground arith) (ground arith)

    has_key_id : single_header s header_key_id ≡ some v.key_id
    unfolding lookup insert delete text_eq
    has_key_id = single_header-set s header_key_id v.key_id refl plain_id some_id

    has_timestamp : single_header s header_timestamp ≡ some (unix_text sent)
    unfolding lookup insert delete text_eq unix_text
    has_timestamp =
        let after : ltb (sent / second) 62135596800 ≡ false = ground arith in
        single_header-set s header_timestamp (unix_text sent) refl
          (rw after (digits-IsPlain _ (itoa-IsDigits (sent / second - 62135596800))))
          (rw after (length-ne-zero _ (itoa-ne-nil (sent / second - 62135596800))))

    has_nonce : single_header s header_nonce ≡ some (Base64.encode nonce)
    unfolding lookup insert delete text_eq
    has_nonce =
        single_header-set s header_nonce (Base64.encode nonce) refl (Base64.encode-IsPlain nonce)
          (long nonce 23 drawn)

    has_signature :
        single_header s header_signature
        ≡ some (Base64.encode (signature_of v.key_id v.key r sent nonce))
    unfolding lookup insert delete text_eq
    has_signature =
        single_header-set s header_signature
          (Base64.encode (signature_of v.key_id v.key r sent nonce)) refl (Base64.encode-IsPlain _)
          (long _ 31 (tag_length _ _))

    authentic :
        sent ≤ now + v.max_skew
        → now + second ≤ sent + v.max_skew
        → authenticate sha256 mac v s now ≡ ok (cache_key v.key_id (Base64.encode nonce))
    unfolding authenticate unix_time text_eq
    authentic ahead behind =
        let early : ltb ((62135596800 + (sent / second - 62135596800)) * second) (now - v.max_skew)
            ≡ false =
          ground arith in
        let late : ltb (now + v.max_skew) ((62135596800 + (sent / second - 62135596800)) * second)
            ≡ false =
          ground arith in
        rw
          (
            has_protocol,
            has_key_id,
            text_eq_refl v.key_id,
            has_timestamp,
            unix_text-read sent old recent,
            early,
            late,
            has_nonce,
            Base64.decode-encode false nonce bytes,
            drawn,
            has_signature,
            Base64.decode-encode false (signature_of v.key_id v.key r sent nonce) (tag_bytes _ _),
            tag_length,
            same_canonical v.key_id v.key (unix_text sent) (Base64.encode nonce) r sent nonce,
            text_eq_refl (signature_of v.key_id v.key r sent nonce),
          )
          refl

    -- What `Sign` made, the verifier with the same key accepts: if the MACs are 32 bytes, the signing
    -- time is from 1970 on, the verifier's clock is within the window of it, less the second that the
    -- timestamp drops, the nonce is not in the cache, and the cache is not full.
    pub verify-sign :
        (signed : Request)
        → sign v.key_id v.key r sent (some nonce) ≡ ok signed
        → sent ≤ now + v.max_skew
        → now + second ≤ sent + v.max_skew
        → lookup (cache_key v.key_id (Base64.encode nonce)) v.nonces ≡ none
        → length v.nonces < v.max_nonces
        → (verify_request sha256 mac v signed now).1 ≡ ok tt
    unfolding sign
    verify-sign signed made ahead behind new room =
        subst (λ x. (verify_request sha256 mac v x now).1 ≡ ok tt) (ok_injective s signed made)
          (accepts v s now (cache_key v.key_id (Base64.encode nonce)) (authentic ahead behind)
            (keep-none (λ expires. ltb now expires) _ v.nonces new)
            (ground (arith, length-keep-le (λ expires. ltb now expires) v.nonces)))
