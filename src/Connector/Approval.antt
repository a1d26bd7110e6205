-- ===== src/Connector/Approval.antt =====
-- services/connector-protocol/runbook.go: a request to execute a runbook; services/connector/service/
-- runbook_handler.go: the checks of its approval, and of its SSH keys.
use vps_manager.Base.{
  ℕ, ◌+◌, ◌-◌, ◌*◌, Bool, not, ◌&&◌, ◌||◌, Option, none, some, [], ◌∷◌, ◌++◌, Text, Time, second,
  minute, hour, codes, length, ltb, ◌==◌, eq_ℤ, text_eq, trim_space, has_control, if◌then◌else◌,
  Result, Check, ok, ◌>>=◌, ◌>>◌, guard, reject_if, or_fail,
}
use vps_manager.Runbook.{Definition}
use vps_manager.Connector.Bindings.{RunbookActionRef, RunbookBinding, valid_identifier}

pub record RunbookApprovalSummary : Type 0 where
  pub decision : Text
  pub action : RunbookActionRef
  pub host_id : Text
  pub job_id : Text
  pub scope_digest : Text
  pub approved_at : Time
  pub expires_at : Time

pub record RunbookEmergencyGrant : Type 0 where
  pub incident_id : Text
  pub expires_at : Time

pub record Credential : Type 0 where
  pub private_key_pem : Text
  pub passphrase : Text

pub record RunbookExecuteRequest : Type 0 where
  pub protocol_version : Text
  pub binding : RunbookBinding
  pub approval : RunbookApprovalSummary
  pub emergency : RunbookEmergencyGrant
  pub reason : Text
  pub pinned_host_key : Text
  pub credential : Credential

abbrev pub max_approval_lifetime : ℕ
max_approval_lifetime = 15 * minute

abbrev pub max_emergency_lifetime : ℕ
max_emergency_lifetime = 4 * hour

pub data ApprovalError : Type 0 where
  approval_mismatch approval_expired reason_invalid : ApprovalError
  emergency_invalid emergency_unexpected : ApprovalError

unfoldable pub valid_reason : Text → Bool
unfolding has_control
valid_reason value =
    not (ltb (length value) 8 || ltb 500 (length value) || not (text_eq value (trim_space value)))
    && not (has_control value)

abbrev same_action : RunbookActionRef → RunbookActionRef → Bool
same_action a b = text_eq a.id b.id && eq_ℤ a.version b.version

abbrev is_for_binding : RunbookApprovalSummary → RunbookBinding → Text → Bool
is_for_binding approval b digest = not (
    not (text_eq approval.decision (codes "approved"))
    || not (same_action approval.action b.action)
    || not (text_eq approval.host_id b.host_id)
    || not (text_eq approval.job_id b.job_id)
    || not (text_eq approval.scope_digest digest))

-- `now` is at least `maxApprovalLifetime`, as every clock of today is; times before it are not
-- represented.
abbrev is_outside_lifetime : RunbookApprovalSummary → Time → Bool
is_outside_lifetime approval now =
    approval.approved_at == 0
    || approval.expires_at == 0
    || ltb (now + 30 * second) approval.approved_at
    || ltb approval.approved_at (now - max_approval_lifetime)
    || not (ltb now approval.expires_at)
    || ltb (approval.approved_at + max_approval_lifetime) approval.expires_at

abbrev grant_is_invalid : RunbookEmergencyGrant → Time → Bool
grant_is_invalid grant now =
    not (valid_identifier grant.incident_id 128)
    || grant.expires_at == 0
    || not (ltb now grant.expires_at)
    || ltb (now + max_emergency_lifetime) grant.expires_at

abbrev emergency_check : RunbookEmergencyGrant → Bool → Time → Check ApprovalError
emergency_check grant emergency now =
    if emergency
    then reject_if (grant_is_invalid grant now) emergency_invalid
    else reject_if (not (length grant.incident_id == 0) || not (grant.expires_at == 0))
        emergency_unexpected

unfoldable pub validate_approval :
    RunbookExecuteRequest → Definition → Text → Time → Check ApprovalError
unfolding valid_reason
validate_approval payload definition digest now = do
  guard (is_for_binding payload.approval payload.binding digest) approval_mismatch
  reject_if (is_outside_lifetime payload.approval now) approval_expired
  guard (valid_reason payload.reason) reason_invalid
  emergency_check payload.emergency definition.emergency now

-- What golang.org/x/crypto/ssh gives: the first key of an authorized keys file, with the rest of the
-- file; private keys, without and with a passphrase; their public keys; and fingerprints.
pub record Ssh (Key Signer : Type 0) : Type 0 where
  pub parse_authorized_key : Text → Option (Key × Text)
  pub parse_private_key : Text → Option Signer
  pub parse_private_key_with_passphrase : Text → Text → Option Signer
  pub public_key : Signer → Key
  pub fingerprint_sha256 : Key → Text

pub data MaterialError : Type 0 where
  material_size_invalid host_key_mismatch credential_mismatch : MaterialError

module _ {Key Signer : Type 0} (ssh : Ssh Key Signer) where
  -- sshconnector.ParsePinnedHostKey
  unfoldable pub parse_pinned_host_key : Text → Option Key
  parse_pinned_host_key encoded = elim (ssh.parse_authorized_key (trim_space encoded ++ 10 ∷ [])) [
    | none ↦ none
    | some (key, rest) ↦ if length (trim_space rest) == 0 then some key else none
  ]

  abbrev pub parse_credential : Credential → Option Signer
  parse_credential c =
      if length c.passphrase == 0
      then ssh.parse_private_key c.private_key_pem
      else ssh.parse_private_key_with_passphrase c.private_key_pem c.passphrase

  unfoldable pub validate_runbook_ssh_material :
      RunbookExecuteRequest → Result MaterialError (Key × Signer)
  unfolding parse_pinned_host_key
  validate_runbook_ssh_material payload = do
    reject_if
        (length payload.pinned_host_key == 0
          || ltb 16384 (length payload.pinned_host_key)
          || length payload.credential.private_key_pem == 0
          || ltb 49152 (length payload.credential.private_key_pem)
          || ltb 4096 (length payload.credential.passphrase))
        material_size_invalid
    pinned ← or_fail (parse_pinned_host_key payload.pinned_host_key) host_key_mismatch
    guard (text_eq (ssh.fingerprint_sha256 pinned) payload.binding.pinned_host_key_sha256)
        host_key_mismatch
    signer ← or_fail (parse_credential payload.credential) credential_mismatch
    guard
        (text_eq (ssh.fingerprint_sha256 (ssh.public_key signer))
          payload.binding.credential_public_key_sha256)
        credential_mismatch
    ok (pinned, signer)
