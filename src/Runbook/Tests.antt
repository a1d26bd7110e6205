-- ===== src/Runbook/Tests.antt =====
-- Plans and executions at concrete inputs.
use vps_manager.Base.{
  ℤ, ◌≡◌, refl, true, false, some, none, List, [], ◌∷◌, pos, Duration, Text, codes, lookup, text_eq,
  Result, ok, err,
}
use vps_manager.Runbook.{
  Parameters, Definition, Step, Plan, Execution, PlanError, action_service_restart,
  is_reviewed_catalog_step,
}
use vps_manager.Runbook.Catalog.{build, build_steps, definitions, service_restart_plan}
use vps_manager.Runbook.Commands.{
  service_restart_commands, mutating_steps, restart_commands, privilege_preflight, status_command,
}
use vps_manager.Runbook.Executor.{Outcome, execute, run_steps, new_execution}
use vps_manager.Runbook.Plans.{phases_of}
use vps_manager.Runbook.Runs.{Tried, execute-Tried}

abbrev hash : Text → Text
hash s = s

abbrev duration : Duration → Text
duration d = codes "10s"

abbrev restart : Parameters
restart = record { service = codes "nginx"; timezone = []; pid = pos 0; process_start_ticks = 0 }

abbrev definition : Definition
definition = record {
  id = action_service_restart;
  version = pos 1;
  title = codes "Restart an approved service";
  mutating = true;
  emergency = true;
  retry_policy = codes "never";
}

abbrev plan_or : Result PlanError Plan → Plan
plan_or (ok plan) = plan
plan_or (err e) = record { definition = definition; parameters = restart; steps = [] }

restart_plan : Plan
unfolding build
restart_plan = plan_or (build hash duration action_service_restart (pos 1) restart)

restart_builds : build hash duration action_service_restart (pos 1) restart ≡ ok restart_plan
unfolding restart_plan build build_steps definitions lookup text_eq service_restart_plan
    service_restart_commands
restart_builds = refl

-- The runner counts the steps, and the third fails.
abbrev outcome : ℤ → Outcome
outcome code = record {
  result = record { stdout = []; stderr = []; exit_code = code; duration = pos 5 };
  run_err = none;
  context_canceled = false;
  elapsed = pos 6;
}

abbrev exit_code_after : List Text → ℤ
exit_code_after (a ∷ b ∷ s) = pos 1
exit_code_after s = pos 0

abbrev runner : List Text → Step → List Text × Outcome
runner s step = (step.id ∷ s, outcome (exit_code_after s))

abbrev execution_or : Result PlanError Execution → Execution
execution_or (ok e) = e
execution_or (err e) = new_execution

stopped_run : Execution
unfolding execute
stopped_run = execution_or (execute hash duration (some runner) [] restart_plan).1

abbrev tried : List Text
tried =
    codes "service-restart-apply"
    ∷ codes "service-restart-evidence"
    ∷ codes "service-restart-preflight"
    ∷ []

stops : execute hash duration (some runner) [] restart_plan ≡ (tried, ok stopped_run)
unfolding stopped_run restart_plan build build_steps definitions lookup text_eq service_restart_plan
    service_restart_commands mutating_steps execute run_steps is_reviewed_catalog_step
    privilege_preflight restart_commands status_command
stops = refl

execute-Tried_example : Tried (phases_of restart_plan.definition.mutating) stopped_run.steps
execute-Tried_example =
    execute-Tried runner hash duration [] action_service_restart (pos 1) restart restart_plan
      restart_builds stops
