-- ===== src/Gateway/Validation.antt =====
-- services/websshgateway/validation.go and types.go: bindings, and the checks of requests for a ticket.
use vps_manager.Base.{
  ℕ, Bool, true, false, not, ◌&&◌, ◌||◌, List, [], ◌∷◌, pos, ltb_ℤ, Text, codes, length, ltb, leb,
  ◌==◌, text_eq, text_lt, trim_space, leading_space, has_control, sort_by, all_of, Result, Check,
  ok, ◌>>=◌, ◌>>◌, guard, reject_if,
}
use vps_manager.Connector.Bindings.{Target}
use vps_manager.Connector.Approval.{Credential}

pub record Binding : Type 0 where
  pub principal_id : Text
  pub session_id : Text
  pub roles : List Text
  pub host_id : Text
  pub credential_id : Text
  pub action : Text

pub record TerminalSize : Type 0 where
  pub columns : ℕ
  pub rows : ℕ
  pub width_pixels : ℕ
  pub height_pixels : ℕ

pub record IssueRequest : Type 0 where
  pub binding : Binding
  pub target : Target
  pub pinned_host_key : Text
  pub credential : Credential
  pub initial_size : TerminalSize
  pub reason : Text

pub record HelloMessage : Type 0 where
  pub message_type : Text
  pub ticket : Text
  pub connection_id : Text
  pub binding : Binding

pub data RequestError : Type 0 where
  binding_invalid role_count_invalid role_invalid role_duplicate : RequestError
  reason_invalid reason_has_controls material_invalid : RequestError

abbrev pub action_webssh : Text
action_webssh = codes "web_ssh_v1"

-- `unicode.IsSpace` of some character.
unfoldable pub has_space : Text → Bool
unfolding leading_space
has_space [] = false
has_space (c ∷ s) = not (leading_space (c ∷ s) == 0) || has_space s

unfoldable pub valid_id : Text → Bool
unfolding has_control has_space
valid_id value =
    not (ltb (length value) 1 || ltb 128 (length value) || not (text_eq value (trim_space value)))
    && not (has_control value || has_space value)

-- Whether two neighbours are the same.
unfoldable pub has_duplicate : List Text → Bool
has_duplicate [] = false
has_duplicate (a ∷ []) = false
has_duplicate (a ∷ b ∷ rest) = text_eq b a || has_duplicate (b ∷ rest)

unfoldable pub normalize_binding : Binding → Result RequestError Binding
unfolding valid_id has_duplicate
normalize_binding b = do
  guard
      (valid_id b.principal_id
        && valid_id b.session_id
        && valid_id b.host_id
        && valid_id b.credential_id
        && text_eq b.action action_webssh)
      binding_invalid
  reject_if (length b.roles == 0 || ltb 32 (length b.roles)) role_count_invalid
  guard (all_of valid_id b.roles) role_invalid
  reject_if (has_duplicate (sort_by text_lt b.roles)) role_duplicate
  ok (record b { roles = sort_by text_lt b.roles })

-- As `has_control`, but tabs are let pass.
unfoldable pub has_control_but_tab : Text → Bool
has_control_but_tab [] = false
has_control_but_tab (c ∷ []) = not (c == 9) && (ltb c 32 || c == 127)
has_control_but_tab (c ∷ d ∷ s) =
    not (c == 9) && (ltb c 32 || c == 127)
    || c == 0xc2 && leb 0x80 d && leb d 0x9f
    || has_control_but_tab (d ∷ s)

unfoldable pub validate_reason : Text → Check RequestError
unfolding has_control_but_tab
validate_reason value = do
  reject_if (length value == 0 || ltb 500 (length value) || not (text_eq value (trim_space value)))
      reason_invalid
  reject_if (has_control_but_tab value) reason_has_controls

unfoldable pub valid_terminal_size : TerminalSize → Bool
valid_terminal_size size =
    leb 20 size.columns
    && leb size.columns 500
    && leb 5 size.rows
    && leb size.rows 300
    && leb size.width_pixels 10000
    && leb size.height_pixels 10000

unfoldable pub validate_issue_request : IssueRequest → Check RequestError
unfolding normalize_binding validate_reason valid_terminal_size
validate_issue_request r = do
  binding ← normalize_binding r.binding
  validate_reason r.reason
  reject_if
      (length (trim_space r.target.address) == 0
        || not (text_eq r.target.address (trim_space r.target.address))
        || ltb 253 (length r.target.address)
        || ltb_ℤ r.target.port (pos 1)
        || ltb_ℤ (pos 65535) r.target.port
        || not (valid_id r.target.user)
        || length r.pinned_host_key == 0
        || ltb 16384 (length r.pinned_host_key)
        || length r.credential.private_key_pem == 0
        || ltb 49152 (length r.credential.private_key_pem)
        || ltb 4096 (length r.credential.passphrase)
        || not (valid_terminal_size r.initial_size))
      material_invalid

unfoldable pub same_roles : List Text → List Text → Bool
same_roles [] [] = true
same_roles (a ∷ s) (b ∷ t) = text_eq a b && same_roles s t
same_roles _ _ = false

unfoldable pub same_binding : Binding → Binding → Bool
unfolding same_roles
same_binding left right =
    text_eq left.principal_id right.principal_id
    && text_eq left.session_id right.session_id
    && text_eq left.host_id right.host_id
    && text_eq left.credential_id right.credential_id
    && text_eq left.action right.action
    && same_roles left.roles right.roles
