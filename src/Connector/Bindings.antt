-- ===== src/Connector/Bindings.antt =====
-- services/connector-protocol/runbook.go: the binding of a runbook; services/connector/service/
-- runbook_handler.go: the checks of it, and `buildBoundPlan`, which gives its plan and its digest.
use vps_manager.Base.{
  ℕ, ℤ, Bool, true, not, ◌&&◌, ◌||◌, Option, none, some, List, [], ◌∷◌, ◌++◌, pos, ltb_ℤ, Duration,
  Text, codes, length, drop, ltb, leb, ◌==◌, text_eq, trim_space, has_prefix, has_control, all_of,
  Result, Check, ok, err, ◌>>=◌, ◌>>◌, reject_if, or_fail,
}
use vps_manager.Encoding.Decimal.{itoa_ℤ}
use vps_manager.Encoding.Join.{join}
use vps_manager.Encoding.Hex.{hex}
use vps_manager.Runbook.{Parameters, Plan}
use vps_manager.Runbook.Catalog.{build}
use vps_manager.Runbook.Scope.{scope_digest}
use vps_manager.RequestAuth.{protocol_version}

pub record Target : Type 0 where
  pub address : Text
  pub port : ℤ
  pub user : Text

pub record RunbookActionRef : Type 0 where
  pub id : Text
  pub version : ℤ

pub record RunbookBinding : Type 0 where
  pub action : RunbookActionRef
  pub host_id : Text
  pub job_id : Text
  pub target : Target
  pub pinned_host_key_sha256 : Text
  pub credential_public_key_sha256 : Text
  pub parameters : Parameters

pub data BindingError : Type 0 where
  protocol_or_identifiers_invalid target_invalid target_has_controls plan_invalid : BindingError

abbrev pub is_alnum : ℕ → Bool
is_alnum c = leb b'a' c && leb c b'z' || leb b'A' c && leb c b'Z' || leb b'0' c && leb c b'9'

abbrev pub is_identifier_mark : ℕ → Bool
is_identifier_mark c = c == b'.' || c == b'_' || c == b':' || c == b'-'

-- The loop of validIdentifier: the marks may not stand first.
unfoldable pub identifier_characters : Text → Bool
identifier_characters [] = true
identifier_characters (c ∷ s) = is_alnum c && all_of (λ d. is_alnum d || is_identifier_mark d) s

unfoldable pub valid_identifier : Text → ℕ → Bool
unfolding identifier_characters
valid_identifier value max =
    not (ltb (length value) 1 || ltb max (length value) || not (text_eq value (trim_space value)))
    && identifier_characters value

abbrev pub fingerprint_prefix : Text
fingerprint_prefix = codes "SHA256:"

abbrev pub is_fingerprint_character : ℕ → Bool
is_fingerprint_character c = is_alnum c || c == b'+' || c == b'/' || c == b'-' || c == b'_'

unfoldable pub valid_ssh_fingerprint : Text → Bool
valid_ssh_fingerprint value =
    not
      (not (has_prefix value fingerprint_prefix) || ltb (length value) 20 || ltb 96 (length value))
    && all_of is_fingerprint_character (drop 7 value)

abbrev is_padded : Text → Bool
is_padded s = length (trim_space s) == 0 || not (text_eq s (trim_space s))

unfoldable pub validate_bound_target : RunbookBinding → Check BindingError
unfolding valid_ssh_fingerprint
validate_bound_target b = do
  reject_if
      (is_padded b.target.address
        || ltb 253 (length b.target.address)
        || ltb_ℤ b.target.port (pos 1)
        || ltb_ℤ (pos 65535) b.target.port
        || is_padded b.target.user
        || ltb 64 (length b.target.user)
        || not (valid_ssh_fingerprint b.pinned_host_key_sha256)
        || not (valid_ssh_fingerprint b.credential_public_key_sha256))
      target_invalid
  reject_if (has_control (b.target.address ++ b.target.user)) target_has_controls

abbrev pub bound_parts : Text → RunbookBinding → List Text
bound_parts base_digest b =
    base_digest
    ∷ b.target.address
    ∷ itoa_ℤ b.target.port
    ∷ b.target.user
    ∷ b.pinned_host_key_sha256
    ∷ b.credential_public_key_sha256
    ∷ []

abbrev pub as_option {ℓ κ} : {E : Type ℓ} {A : Type κ} → Result E A → Option A
as_option (ok a) = some a
as_option (err e) = none

module _ (sha256 : Text → Text) (duration_text : Duration → Text) where
  unfoldable pub bound_digest : Text → RunbookBinding → Text
  unfolding join hex
  bound_digest base_digest b = hex (sha256 (join (10 ∷ []) (bound_parts base_digest b)))

  unfoldable pub build_bound_plan : Text → RunbookBinding → Result BindingError (Plan × Text)
  unfolding valid_identifier validate_bound_target
  build_bound_plan protocol b = do
    reject_if
        (not (text_eq protocol protocol_version)
          || not (valid_identifier b.host_id 128)
          || not (valid_identifier b.job_id 128))
        protocol_or_identifiers_invalid
    validate_bound_target b
    plan ←
        or_fail (as_option (build sha256 duration_text b.action.id b.action.version b.parameters))
          plan_invalid
    base_digest ← or_fail (scope_digest sha256 b.host_id b.job_id plan) plan_invalid
    ok (plan, bound_digest base_digest b)
