-- ===== src/StepUp/Validation.antt =====
-- The errors of the step-up manager, and `validateBinding`.
use vps_manager.Base.{
  has_control, ℕ, Bool, not, ◌&&◌, ◌||◌, List, [], ◌∷◌, Text, codes, text_eq, length, ltb, leb,
  ◌==◌, contains, to_lower, all_of, trim_space, Check, ◌>>◌, reject_if, ◌%◌,
}

pub data Error : Type 0 where
  principal_invalid action_invalid digest_invalid reason_invalid reason_control : Error
  capacity_invalid assertion_invalid lifetime_invalid verification_failed not_fresh : Error
  generate_failed capacity_reached collision : Error

pub record Binding : Type 0 where
  pub subject : Text
  pub session_id : Text
  pub action : Text
  pub target_id : Text
  pub parameters_sha256 : Text
  pub reason : Text

abbrev pub allowed_actions : List Text
allowed_actions =
    codes "web_ssh_start"
    ∷ codes "credential_rotate"
    ∷ codes "credential_delete"
    ∷ codes "worker_deploy"
    ∷ codes "worker_rollback"
    ∷ codes "service_restart"
    ∷ codes "process_terminate"
    ∷ codes "host_reboot"
    ∷ codes "breakglass_activate"
    ∷ []

-- No white space at the ends, and a length in bytes within the bounds.
is_trimmed : ℕ → ℕ → Text → Bool
is_trimmed least most s =
    text_eq (trim_space s) s && not (ltb (length s) least) && not (ltb most (length s))

abbrev is_hex : ℕ → Bool
is_hex c = leb b'0' c && leb c b'9' || leb b'a' c && leb c b'f' || leb b'A' c && leb c b'F'

unfoldable pub valid_binding : Binding → Check Error
unfolding is_trimmed has_control
valid_binding b = do
  reject_if
      (not (
        is_trimmed 1 128 b.subject
        && is_trimmed 8 128 b.session_id
        && is_trimmed 1 128 b.target_id))
      principal_invalid
  reject_if (not (contains allowed_actions b.action)) action_invalid
  reject_if
      (not (length b.parameters_sha256 == 64)
        || not (text_eq (to_lower b.parameters_sha256) b.parameters_sha256))
      digest_invalid
  reject_if (not (length b.parameters_sha256 % 2 == 0 && all_of is_hex b.parameters_sha256))
      digest_invalid
  reject_if (not (is_trimmed 8 500 b.reason)) reason_invalid
  reject_if (has_control b.reason) reason_control
