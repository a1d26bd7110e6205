-- ===== src/Runbook/Catalog.antt =====
-- services/runbook/catalog.go: the definitions, `buildSteps` and `Build`.
use vps_manager.Base.{
  ℤ, Bool, true, false, not, ◌&&◌, ◌||◌, List, [], ◌∷◌, map, pos, ltb_ℤ, eq_ℤ, Duration, Text,
  Table, lookup, length, codes, ◌==◌, text_eq, if◌then◌else◌, Result, ok, err, ◌>>=◌, ◌>>◌,
  reject_if, or_fail,
}
use vps_manager.Encoding.Decimal.{itoa, itoa_ℤ}
use vps_manager.Runbook.{
  Parameters, Definition, Step, Plan, PlanError, not_in_catalog, parameters_invalid, seal_step,
  action_capabilities, action_update_check, action_service_status, action_service_restart,
  action_timezone_set, action_process_sigterm, action_host_reboot_plan,
}
use vps_manager.Runbook.Commands.{
  capabilities_command, update_check_command, service_status_commands, service_restart_commands,
  timezone_commands, read_only_steps, mutating_steps, timezone_steps, process_steps, reboot_steps,
}

-- Both flags of an action are set, or neither.
abbrev pub entry : Text → Text → Bool → Text × Definition
entry id title mutating = (
  id,
  record {
    id = id;
    version = pos 1;
    title = title;
    mutating = mutating;
    emergency = mutating;
    retry_policy = codes "never";
  },
)

unfoldable pub definitions : Table Definition
definitions =
    entry action_capabilities (codes "Inspect host capabilities") false
    ∷ entry action_update_check (codes "Inspect cached package updates") false
    ∷ entry action_service_status (codes "Inspect service status") false
    ∷ entry action_service_restart (codes "Restart an approved service") true
    ∷ entry action_timezone_set (codes "Set an approved timezone") true
    ∷ entry action_process_sigterm (codes "Send SIGTERM to a bound process") true
    ∷ entry action_host_reboot_plan (codes "Schedule a host reboot in one minute") true
    ∷ []

-- p == (Parameters{})
abbrev pub no_parameters : Parameters → Bool
no_parameters p =
    length p.service == 0
    && length p.timezone == 0
    && eq_ℤ p.pid (pos 0)
    && p.process_start_ticks == 0

abbrev pub only_service : Parameters → Bool
only_service p = length p.timezone == 0 && eq_ℤ p.pid (pos 0) && p.process_start_ticks == 0

abbrev pub only_timezone : Parameters → Bool
only_timezone p = length p.service == 0 && eq_ℤ p.pid (pos 0) && p.process_start_ticks == 0

abbrev pub not_a_process : Parameters → Bool
not_a_process p =
    not (length p.service == 0)
    || not (length p.timezone == 0)
    || ltb_ℤ p.pid (pos 100)
    || p.process_start_ticks == 0

-- The parameters that Go returns beside the steps are those that it was given.
abbrev pub when_none : Parameters → List Step → Result PlanError (List Step)
when_none p steps = if no_parameters p then ok steps else err parameters_invalid

unfoldable pub service_status_plan : Parameters → Result PlanError (List Step)
service_status_plan p = do
  command ← or_fail (lookup p.service service_status_commands) parameters_invalid
  reject_if (not (only_service p)) parameters_invalid
  ok (read_only_steps (codes "service-status") (codes "inspect approved service state") command)

unfoldable pub service_restart_plan : Parameters → Result PlanError (List Step)
service_restart_plan p = do
  commands ← or_fail (lookup p.service service_restart_commands) parameters_invalid
  reject_if (not (only_service p)) parameters_invalid
  ok (mutating_steps (codes "service-restart") commands)

unfoldable pub timezone_plan : Parameters → Result PlanError (List Step)
timezone_plan p = do
  commands ← or_fail (lookup p.timezone timezone_commands) parameters_invalid
  reject_if (not (only_timezone p)) parameters_invalid
  ok (timezone_steps commands)

unfoldable pub sigterm_plan : Parameters → Result PlanError (List Step)
sigterm_plan p = do
  reject_if (not_a_process p) parameters_invalid
  ok (process_steps (itoa_ℤ p.pid) (itoa p.process_start_ticks))

unfoldable pub build_steps : Text → Parameters → Result PlanError (List Step)
build_steps action p =
    if text_eq action action_capabilities
    then when_none p (
        read_only_steps (codes "capabilities") (codes "collect supported host tools")
          capabilities_command)
    else if text_eq action action_update_check
    then when_none p (
        read_only_steps (codes "updates") (codes "inspect cached package update metadata")
          update_check_command)
    else if text_eq action action_service_status
    then service_status_plan p
    else if text_eq action action_service_restart
    then service_restart_plan p
    else if text_eq action action_timezone_set
    then timezone_plan p
    else if text_eq action action_process_sigterm
    then sigterm_plan p
    else if text_eq action action_host_reboot_plan
    then when_none p reboot_steps
    else err not_in_catalog

module _ (sha256 : Text → Text) (duration_text : Duration → Text) where
  abbrev pub seal_one : Step → Step
  seal_one step = record step { seal = seal_step sha256 duration_text step }

  abbrev pub sealed_plan : Definition → Parameters → List Step → Plan
  sealed_plan definition p steps = record {
    definition = definition;
    parameters = p;
    steps = map seal_one steps;
  }

  unfoldable pub build : Text → ℤ → Parameters → Result PlanError Plan
  build action version p = do
    definition ← or_fail (lookup action definitions) not_in_catalog
    reject_if (not (eq_ℤ version definition.version)) not_in_catalog
    steps ← build_steps action p
    ok (sealed_plan definition p steps)
