-- ===== src/Identity.antt =====
-- services/control-plane/internal/identity/assertion.go: signed assertions of an identity, each of which
-- is accepted once. SHA-256, Ed25519 and the decoding of JSON are arguments; the lock makes the end of
-- Verify, which reads and writes the consumed ids, one step.
pub mod Validity
pub mod Once
mod Tests
use vps_manager.Base.{
  ℕ, ◌+◌, ◌-◌, ◌*◌, ℤ, Bool, true, false, not, ◌&&◌, ◌||◌, Option, none, some, List, [], ◌∷◌, ◌++◌,
  pos, pos_part, ltb_ℤ, leb_ℤ, eq_ℤ, Time, Duration, second, Text, Table, codes, lookup, insert,
  keep, length, ltb, leb, ◌==◌, text_eq, trim_space, has_prefix, any_of, contains, if◌then◌else◌,
  Result, Check, ok, err, ◌>>=◌, ◌>>◌, guard, reject_if, or_fail,
}
use vps_manager.Encoding.Base64
use vps_manager.Encoding.Join.{split}
use vps_manager.Access.{Principal}
use vps_manager.Access.Grants.{Role, valid_role}
use vps_manager.RequestAuth.Headers.{unix_time}

pub data Error : Type 0 where
  issuer_or_audience_required key_id_invalid public_key_invalid skew_invalid : Error
  assertion_invalid assertion_malformed header_invalid header_not_accepted : Error
  signature_invalid signature_failed payload_invalid claims_invalid : Error
  not_for_us principal_invalid id_invalid scope_invalid scope_duplicates : Error
  lifetime_invalid outside_window already_consumed : Error

pub record Config : Type 0 where
  pub issuer : Text
  pub audience : Text
  pub key_id : Text
  pub public_key : Text
  pub clock_skew : Duration

pub record Claims : Type 0 where
  pub issuer : Text
  pub audience : Text
  pub subject : Text
  pub role : Role
  pub all_hosts : Bool
  pub host_ids : List Text
  pub issued_at : ℤ
  pub expires : ℤ
  pub jwt_id : Text

pub record Header : Type 0 where
  pub algorithm : Text
  pub key_id : Text
  pub type_name : Text

pub record Verifier : Type 0 where
  pub issuer : Text
  pub audience : Text
  pub key_id : Text
  pub key : Text
  pub skew : ℕ
  pub consumed : Table Time

abbrev pub max_assertion_bytes : ℕ
max_assertion_bytes = 12 * 1024

abbrev pub max_assertion_ttl : ℕ
max_assertion_ttl = 60 * second

abbrev default_clock_skew : ℕ
default_clock_skew = 5 * second

abbrev is_bad_name : Text → ℕ → Bool
is_bad_name s most = length s == 0 || ltb most (length s)

unfoldable pub new_verifier : Config → Result Error Verifier
unfolding trim_space
new_verifier config = do
  let issuer = trim_space config.issuer
  let audience = trim_space config.audience
  let key_id = trim_space config.key_id
  reject_if (is_bad_name issuer 256 || is_bad_name audience 256) issuer_or_audience_required
  reject_if (is_bad_name key_id 128 || any_of (λ c. c == 13 || c == 10) key_id) key_id_invalid
  guard (length config.public_key == 32) public_key_invalid
  let skew : Duration =
      if eq_ℤ config.clock_skew (pos 0) then pos default_clock_skew else config.clock_skew
  reject_if (ltb_ℤ skew (pos 0) || ltb_ℤ (pos (15 * second)) skew) skew_invalid
  ok (record {
    issuer = issuer;
    audience = audience;
    key_id = key_id;
    key = config.public_key;
    skew = pos_part skew;
    consumed = [];
  })

unfoldable pub decode_segment : Text → ℕ → Option Text
decode_segment value limit =
    if any_of (λ c. c == b'=') value then none else elim (Base64.decode true value) [
      | none ↦ none
      | some decoded ↦ if ltb limit (length decoded) then none else some decoded
    ]

abbrev is_host_id : Text → Bool
is_host_id host_id = not (
    not (has_prefix host_id (codes "host_"))
    || ltb 128 (length host_id)
    || not (text_eq (trim_space host_id) host_id))

-- The loop over the host ids; `seen` are those before.
unfoldable pub check_host_ids : List Text → List Text → Check Error
check_host_ids seen [] = ok tt
check_host_ids seen (host_id ∷ rest) =
    let later = check_host_ids (host_id ∷ seen) rest in
    if not (is_host_id host_id)
    then err scope_invalid
    else if contains seen host_id
    then err scope_duplicates
    else later

abbrev is_trimmed : Text → ℕ → ℕ → Bool
is_trimmed s least most =
    text_eq (trim_space s) s && not (ltb (length s) least) && not (ltb most (length s))

-- The clock is past the skew, so `now - skew` is a time.
unfoldable pub validate_claims : Verifier → Claims → Time → Check Error
unfolding check_host_ids
validate_claims v c now = do
  guard (text_eq c.issuer v.issuer && text_eq c.audience v.audience) not_for_us
  guard (is_trimmed c.subject 1 128 && valid_role c.role) principal_invalid
  guard (is_trimmed c.jwt_id 16 128) id_invalid
  reject_if (c.all_hosts && not (length c.host_ids == 0) || ltb 256 (length c.host_ids))
      scope_invalid
  check_host_ids [] c.host_ids
  reject_if
      (leb_ℤ c.issued_at (pos 0)
        || leb_ℤ c.expires (pos 0)
        || not (ltb (unix_time c.issued_at) (unix_time c.expires))
        || ltb (unix_time c.issued_at + max_assertion_ttl) (unix_time c.expires))
      lifetime_invalid
  reject_if
      (ltb (now + v.skew) (unix_time c.issued_at) || not (ltb (now - v.skew) (unix_time c.expires)))
      outside_window

-- The ids whose assertions have not run out.
abbrev pub live : Verifier → Time → Table Time
live v now = keep (λ deadline. ltb (now - v.skew) deadline) v.consumed

abbrev pub is_known : Option Time → Bool
is_known none = false
is_known (some deadline) = true

module _ (sha256 : Text → Text) where
  unfoldable pub consume : Verifier → Text → Time → Time → Verifier × Bool
  consume v id expires now =
      if is_known (lookup (sha256 id) (live v now))
      then (record v { consumed = live v now }, false)
      else (record v { consumed = insert (sha256 id) (expires + v.skew) (live v now) }, true)

  module _ (verifies : Text → Text → Text → Bool) (decode_header : Text → Option Header)
      (decode_claims : Text → Option Claims) where
    -- header, payload and signature of an assertion
    unfoldable pub parts_of : List Text → Result Error (Text × Text × Text)
    parts_of (a ∷ b ∷ c ∷ []) =
        if length a == 0 || length b == 0 || length c == 0
        then err assertion_malformed
        else ok (a, b, c)
    parts_of _ = err assertion_malformed

    -- Verify up to the decoding of the claims: what the verifier's state has no part in.
    unfoldable pub read_assertion : Verifier → Text → Result Error Claims
    unfolding split parts_of decode_segment
    read_assertion v assertion = do
      reject_if
          (length assertion == 0
            || ltb max_assertion_bytes (length assertion)
            || not (text_eq (trim_space assertion) assertion))
          assertion_invalid
      parts ← parts_of (split b'.' assertion)
      header_bytes ← or_fail (decode_segment parts.0 1024) header_invalid
      header ← or_fail (decode_header header_bytes) header_not_accepted
      guard
          (text_eq header.algorithm (codes "EdDSA")
            && text_eq header.type_name (codes "VPSMGR+JWT")
            && text_eq header.key_id v.key_id)
          header_not_accepted
      signature ← or_fail (decode_segment parts.2 64) signature_invalid
      guard (length signature == 64) signature_invalid
      guard (verifies v.key (parts.0 ++ b'.' ∷ parts.1) signature) signature_failed
      payload ← or_fail (decode_segment parts.1 8192) payload_invalid
      or_fail (decode_claims payload) claims_invalid

    abbrev principal_of : Claims → Principal
    principal_of c = record {
      subject = c.subject;
      role = c.role;
      all_hosts = c.all_hosts;
      host_ids = c.host_ids;
      session_id = [];
    }

    -- The claims that are validated at the time, or the first error.
    unfoldable pub accept_claims : Verifier → Text → Time → Result Error Claims
    unfolding read_assertion validate_claims
    accept_claims v assertion now = do
      claims ← read_assertion v assertion
      validate_claims v claims now
      ok claims

    -- The clock is read for the claims, and again before the id is consumed.
    unfoldable pub verify : Verifier → Text → Time → Time → Verifier × Result Error Principal
    unfolding accept_claims consume
    verify v assertion now consumed_at = elim (accept_claims v assertion now) [
      | err e ↦ (v, err e)
      | ok claims ↦
          let done = consume v claims.jwt_id (unix_time claims.expires) consumed_at in
          (done.0, if done.1 then ok (principal_of claims) else err already_consumed)
    ]
