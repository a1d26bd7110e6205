-- ===== src/Runbook.antt =====
-- services/runbook/types.go: the types of the operation catalog, its plans, and what their execution
-- gives. Actions, services, time zones and states are strings, as in Go; `[]` is the zero value.
pub mod Commands
pub mod Catalog
pub mod Plans
pub mod Executor
pub mod Runs
pub mod Scope
mod Tests
use vps_manager.Base.{
  ℕ, Bool, false, ◌&&◌, Option, List, [], ◌∷◌, ℤ, pos, Duration, Text, codes, text_eq,
}
use vps_manager.Encoding.Join.{join}

abbrev pub catalog_version : Text
catalog_version = codes "2026-08-29.1"

abbrev pub action_capabilities : Text
action_capabilities = codes "system_capabilities_v1"

abbrev pub action_update_check : Text
action_update_check = codes "package_update_check_v1"

abbrev pub action_service_status : Text
action_service_status = codes "service_status_v1"

abbrev pub action_service_restart : Text
action_service_restart = codes "service_restart_v1"

abbrev pub action_timezone_set : Text
action_timezone_set = codes "timezone_set_v1"

abbrev pub action_process_sigterm : Text
action_process_sigterm = codes "process_sigterm_v1"

abbrev pub action_host_reboot_plan : Text
action_host_reboot_plan = codes "host_reboot_plan_v1"

pub record Parameters : Type 0 where
  pub service : Text
  pub timezone : Text
  pub pid : ℤ
  pub process_start_ticks : ℕ

pub data Phase : Type 0 where
  preflight evidence apply verify : Phase

abbrev pub phase_text : Phase → Text
phase_text preflight = codes "preflight"
phase_text evidence = codes "evidence"
phase_text apply = codes "apply"
phase_text verify = codes "verify"

pub record Definition : Type 0 where
  pub id : Text
  pub version : ℤ
  pub title : Text
  pub mutating : Bool
  pub emergency : Bool
  pub retry_policy : Text

-- `seal` is empty until the catalog seals the step.
pub record Step : Type 0 where
  pub id : Text
  pub phase : Phase
  pub description : Text
  pub command : Text
  pub timeout : Duration
  pub seal : Text

pub record Plan : Type 0 where
  pub definition : Definition
  pub parameters : Parameters
  pub steps : List Step

pub record CommandResult : Type 0 where
  pub stdout : Text
  pub stderr : Text
  pub exit_code : ℤ
  pub duration : Duration

pub data StepState : Type 0 where
  succeeded failed canceled : StepState

pub record StepResult : Type 0 where
  pub id : Text
  pub phase : Phase
  pub state : StepState
  pub stdout : Text
  pub stderr : Text
  pub exit_code : ℤ
  pub duration : Duration
  pub error_code : Text

pub record Execution : Type 0 where
  pub status : Text
  pub steps : List StepResult
  pub stopped : Bool

pub data PlanError : Type 0 where
  not_in_catalog parameters_invalid invalid_plan : PlanError

-- The hash, and `time.Duration.String`.
module _ (sha256 : Text → Text) (duration_text : Duration → Text) where
  unfoldable pub seal_step : Step → Text
  unfolding join
  seal_step step = sha256 (
      join (0 ∷ []) (
        step.id
        ∷ phase_text step.phase
        ∷ step.description
        ∷ step.command
        ∷ duration_text step.timeout
        ∷ []))

  unfoldable pub is_reviewed_catalog_step : Step → Bool
  unfolding seal_step
  is_reviewed_catalog_step step = text_eq step.seal (seal_step step)
