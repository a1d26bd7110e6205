-- ===== src/Connector/Responses.antt =====
-- services/connector-protocol/runbook.go: the responses to runbook requests; services/connector/
-- service/runbook_handler.go: how they are made from plans and executions.
use vps_manager.Base.{
  ℕ, ◌+◌, ◌-◌, ◌/◌, ℤ, Bool, true, false, not, ◌||◌, List, [], map, pos, negsuc, pos_part, Text,
  Duration, second, codes, ltb, if◌then◌else◌, Result, ok, err,
}
use vps_manager.Runbook.{
  Step, Plan, StepState, succeeded, failed, canceled, StepResult, Execution, PlanError, phase_text,
  catalog_version,
}
use vps_manager.RequestAuth.{protocol_version}
use vps_manager.Connector.Bindings.{RunbookBinding}

pub record RunbookStepPreview : Type 0 where
  pub id : Text
  pub phase : Text
  pub description : Text
  pub timeout_seconds : ℕ

pub record RunbookPreviewResponse : Type 0 where
  pub protocol_version : Text
  pub request_id : Text
  pub action : Text
  pub catalog_version : Text
  pub binding : RunbookBinding
  pub scope_digest : Text
  pub title : Text
  pub mutating : Bool
  pub emergency : Bool
  pub execution_enabled : Bool
  pub retry_policy : Text
  pub steps : List RunbookStepPreview

pub record RunbookStepResult : Type 0 where
  pub id : Text
  pub phase : Text
  pub state : Text
  pub stdout : Text
  pub stderr : Text
  pub exit_code : ℤ
  pub duration_millis : ℤ
  pub error_code : Text

pub record RunbookExecuteResponse : Type 0 where
  pub protocol_version : Text
  pub request_id : Text
  pub action : Text
  pub catalog_version : Text
  pub binding : RunbookBinding
  pub scope_digest : Text
  pub status : Text
  pub stopped : Bool
  pub retryable : Bool
  pub idempotent_replay : Bool
  pub steps : List RunbookStepResult

-- The response that `claim` gives beside every claim but a replay.
abbrev pub no_response : RunbookExecuteResponse
no_response = record {
  protocol_version = [];
  request_id = [];
  action = [];
  catalog_version = [];
  binding = record {
    action = record { id = []; version = pos 0 };
    host_id = [];
    job_id = [];
    target = record { address = []; port = pos 0; user = [] };
    pinned_host_key_sha256 = [];
    credential_public_key_sha256 = [];
    parameters = record { service = []; timezone = []; pid = pos 0; process_start_ticks = 0 };
  };
  scope_digest = [];
  status = [];
  stopped = false;
  retryable = false;
  idempotent_replay = false;
  steps = [];
}

-- What the handler writes: an error with its status, code and whether to try again, or a response.
pub data Answer : Type 0 where
  failure : ℕ → Text → Bool → Answer
  previewed : RunbookPreviewResponse → Answer
  executed : RunbookExecuteResponse → Answer

abbrev pub preview_of : Step → RunbookStepPreview
preview_of step = record {
  id = step.id;
  phase = phase_text step.phase;
  description = step.description;
  timeout_seconds = pos_part step.timeout / second;
}

unfoldable pub preview_response :
    Bool → Text → RunbookBinding → Plan → Text → RunbookPreviewResponse
preview_response mutations_enabled request_id binding plan digest = record {
  protocol_version = protocol_version;
  request_id = request_id;
  action = codes "runbook_preview_v1";
  catalog_version = catalog_version;
  binding = binding;
  scope_digest = digest;
  title = plan.definition.title;
  mutating = plan.definition.mutating;
  emergency = plan.definition.emergency;
  execution_enabled = not plan.definition.mutating || mutations_enabled;
  retry_policy = plan.definition.retry_policy;
  steps = map preview_of plan.steps;
}

abbrev pub state_text : StepState → Text
state_text succeeded = codes "succeeded"
state_text failed = codes "failed"
state_text canceled = codes "canceled"

-- d.Milliseconds()
abbrev pub milliseconds : Duration → ℤ
milliseconds (pos n) = pos (n / 1_000_000)
milliseconds (negsuc n) = if ltb n 999_999 then pos 0 else negsuc ((n + 1) / 1_000_000 - 1)

abbrev pub result_of : StepResult → RunbookStepResult
result_of step = record {
  id = step.id;
  phase = phase_text step.phase;
  state = state_text step.state;
  stdout = step.stdout;
  stderr = step.stderr;
  exit_code = step.exit_code;
  duration_millis = milliseconds step.duration;
  error_code = step.error_code;
}

-- An execution that was refused is reported as failed and stopped.
abbrev pub settled : Result PlanError Execution → Execution
settled (ok execution) = execution
settled (err e) = record { status = codes "failed"; steps = []; stopped = true }

unfoldable pub execute_response :
    Text → RunbookBinding → Text → Result PlanError Execution → RunbookExecuteResponse
execute_response request_id binding digest execution = record {
  protocol_version = protocol_version;
  request_id = request_id;
  action = codes "runbook_execute_v1";
  catalog_version = catalog_version;
  binding = binding;
  scope_digest = digest;
  status = (settled execution).status;
  stopped = (settled execution).stopped;
  retryable = false;
  idempotent_replay = false;
  steps = map result_of (settled execution).steps;
}
