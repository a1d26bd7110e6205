-- ===== src/Connector/Options.antt =====
-- services/connector/service/runbook_handler.go: the options of the runbook handler, and its state.
use vps_manager.Base.{
  ℕ, ◌*◌, ◌^◌, ℤ, Bool, pos, pos_part, ltb_ℤ, leb_ℤ, Text, Duration, second, if◌then◌else◌, Result,
  ok, ◌>>=◌, ◌>>◌, reject_if, or_fail,
}
use vps_manager.Ledger.{Ledger, new_ledger}
use vps_manager.RequestAuth.{Verifier, new_verifier}
use vps_manager.Connector.Bindings.{as_option}
use vps_manager.Connector.Responses.{RunbookExecuteResponse}

pub record RunbookOptions : Type 0 where
  pub key_id : Text
  pub hmac_key : Text
  pub mutations_enabled : Bool
  pub allow_private_targets : Bool
  pub max_concurrent : ℤ
  pub max_request_body_bytes : ℤ
  pub max_output_bytes : ℤ
  pub connect_timeout : Duration
  pub max_tracked_nonces : ℤ
  pub max_idempotency_jobs : ℤ
  pub authentication_skew : Duration

-- `running` counts the requests that hold a place in the channel `concurrency`.
pub record RunbookHandler : Type 0 where
  pub verifier : Verifier
  pub mutations_enabled : Bool
  pub allow_private_targets : Bool
  pub body_limit : ℕ
  pub output_limit : ℕ
  pub connect_timeout : ℕ
  pub max_concurrent : ℕ
  pub running : ℕ
  pub ledger : Ledger RunbookExecuteResponse

pub data OptionsError : Type 0 where
  verifier_invalid concurrency_too_large body_limit_too_large : OptionsError
  output_limit_too_large connect_timeout_too_large : OptionsError

-- A value that is not positive stands for its default.
abbrev pub or_default : ℤ → ℕ → ℤ
or_default n default = if leb_ℤ n (pos 0) then pos default else n

unfoldable pub new_runbook_handler : RunbookOptions → Result OptionsError RunbookHandler
unfolding new_ledger
new_runbook_handler o = do
  verifier ←
      or_fail
        (as_option (new_verifier o.key_id o.hmac_key o.authentication_skew o.max_tracked_nonces))
        verifier_invalid
  reject_if (ltb_ℤ (pos 32) (or_default o.max_concurrent 4)) concurrency_too_large
  reject_if (ltb_ℤ (pos (2 ^ 20)) (or_default o.max_request_body_bytes (128 * 1024)))
      body_limit_too_large
  reject_if (ltb_ℤ (pos (2 ^ 22)) (or_default o.max_output_bytes (2 ^ 20))) output_limit_too_large
  reject_if (ltb_ℤ (pos (30 * second)) (or_default o.connect_timeout (10 * second)))
      connect_timeout_too_large
  ok (record {
    verifier = verifier;
    mutations_enabled = o.mutations_enabled;
    allow_private_targets = o.allow_private_targets;
    body_limit = pos_part (or_default o.max_request_body_bytes (128 * 1024));
    output_limit = pos_part (or_default o.max_output_bytes (2 ^ 20));
    connect_timeout = pos_part (or_default o.connect_timeout (10 * second));
    max_concurrent = pos_part (or_default o.max_concurrent 4);
    running = 0;
    ledger = new_ledger o.max_idempotency_jobs;
  })
