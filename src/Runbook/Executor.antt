-- ===== src/Runbook/Executor.antt =====
-- services/runbook/executor.go: `Execute` and `classifyError`. The runner is a parameter: from its own
-- state and a step it gives a new state and what came of the step.
use vps_manager.Base.{
  ℤ, Bool, true, false, not, ◌||◌, Option, none, some, List, [], ◌∷◌, ◌++◌, pos, leb_ℤ, eq_ℤ,
  Duration, Text, codes, length, ◌==◌, all_of, if◌then◌else◌, Result, ok, err,
}
use vps_manager.Encoding.Decimal.{itoa_ℤ}
use vps_manager.Runbook.{
  Step, Plan, CommandResult, StepState, succeeded, failed, canceled, StepResult, Execution,
  PlanError, invalid_plan, is_reviewed_catalog_step,
}

-- What `errors.Is` says of an error.
pub record RunError : Type 0 where
  pub is_deadline : Bool
  pub is_canceled : Bool
  pub is_output_limit : Bool

-- What a step came to: the runner's result and error, whether the caller's context is canceled by
-- then, and the time that passed.
pub record Outcome : Type 0 where
  pub result : CommandResult
  pub run_err : Option RunError
  pub context_canceled : Bool
  pub elapsed : Duration

unfoldable pub classify_error : Option RunError → ℤ → Text
classify_error (some e) exit_code =
    if e.is_deadline
    then codes "step_timeout"
    else if e.is_canceled
    then codes "step_canceled"
    else if e.is_output_limit
    then codes "output_limit"
    else if not (eq_ℤ exit_code (pos 0))
    then codes "nonzero_exit"
    else codes "execution_error"
classify_error none exit_code =
    if not (eq_ℤ exit_code (pos 0)) then codes "nonzero_exit" else codes "exit_" ++ itoa_ℤ exit_code

abbrev pub is_some_error : Option RunError → Bool
is_some_error none = false
is_some_error (some e) = true

abbrev pub ended_early : Option RunError → Bool
ended_early none = false
ended_early (some e) = e.is_canceled || e.is_deadline

-- runErr != nil || result.ExitCode != 0
abbrev pub has_failed : Outcome → Bool
has_failed o = is_some_error o.run_err || not (eq_ℤ o.result.exit_code (pos 0))

abbrev pub state_of : Outcome → StepState
state_of o =
    if not (has_failed o)
    then succeeded
    else if ended_early o.run_err || o.context_canceled
    then canceled
    else failed

unfoldable pub step_result : Step → Outcome → StepResult
unfolding classify_error
step_result step o = record {
  id = step.id;
  phase = step.phase;
  state = state_of o;
  stdout = o.result.stdout;
  stderr = o.result.stderr;
  exit_code = o.result.exit_code;
  duration = if leb_ℤ o.result.duration (pos 0) then o.elapsed else o.result.duration;
  error_code = if has_failed o then classify_error o.run_err o.result.exit_code else [];
}

-- The execution with one more step in it.
abbrev pub append_step : Execution → Step → Outcome → Execution
append_step e step o = record {
  status = if has_failed o then codes "failed" else e.status;
  steps = e.steps ++ step_result step o ∷ [];
  stopped = has_failed o || e.stopped;
}

abbrev pub new_execution : Execution
new_execution = record { status = codes "succeeded"; steps = []; stopped = false }

module _ {S : Type 0} where
  -- The loop over the steps.
  unfoldable pub run_steps : (S → Step → S × Outcome) → S → Execution → List Step → S × Execution
  run_steps runner s e [] = (s, e)
  run_steps runner s e (step ∷ rest) =
      let o = runner s step in
      let e' = append_step e step o.1 in
      let later = run_steps runner o.0 e' rest in if e'.stopped then (o.0, e') else later

  module _ (sha256 : Text → Text) (duration_text : Duration → Text) where
    unfoldable pub execute :
        Option (S → Step → S × Outcome) → S → Plan → S × Result PlanError Execution
    execute none s plan = (s, err invalid_plan)
    execute (some runner) s plan =
        let done = run_steps runner s new_execution plan.steps in
        if length plan.steps == 0
        then (s, err invalid_plan)
        else if not (all_of (is_reviewed_catalog_step sha256 duration_text) plan.steps)
        then (s, err invalid_plan)
        else (done.0, ok done.1)
