-- ===== src/Connector/Tests.antt =====
-- A connector at work, and its theorems at concrete inputs.
use vps_manager.Base.{
  ℕ, ◌≡◌, ◌≢◌, ◌<◌, ◌≤◌, ◌+◌, ◌*◌, ◌-◌, ◌⊎◌, refl, true, false, Option, some, none, List, [], ◌∷◌,
  arith, pos, Duration, Time, Text, codes, second, minute, hour, text_eq, trim_space, has_prefix,
  has_control, lookup, insert, delete, Result, ok, err, All, IsBytes, length,
}
use vps_manager.Ledger.{claim}
use vps_manager.RequestAuth.{new_verifier}
use vps_manager.Runbook.Executor.{Outcome, execute, run_steps, new_execution}
use vps_manager.Runbook.Plans.{timeouts}
use vps_manager.Runbook.{
  is_reviewed_catalog_step, Step, Execution, preflight, evidence, Plan, PlanError,
  action_capabilities,
}
use vps_manager.Runbook.Catalog.{build, build_steps, definitions}
use vps_manager.Runbook.Commands.{read_only_steps}
use vps_manager.Runbook.Scope.{scope_digest, scope_text}
use vps_manager.Connector.Bindings.{RunbookBinding, build_bound_plan, bound_digest}
use vps_manager.Connector.Approval.{
  RunbookExecuteRequest, Ssh, validate_approval, validate_runbook_ssh_material,
}
use vps_manager.Connector.Options.{RunbookOptions, RunbookHandler, new_runbook_handler}
use vps_manager.Connector.Runbooks.{
  Admitted, Begun, answered, started, admit, begin_execute, finish_execute,
}
use vps_manager.Connector.Runbooks.{total_timeout}
use vps_manager.Connector.Responses.{RunbookExecuteResponse, no_response, executed}
use vps_manager.Connector.Admission.{IsApproved, started-IsApproved, disabled_is_read_only}
use vps_manager.Connector.Executions.{
  Event, begins, run_events, never_started_twice, finished_is_replayed,
}
use vps_manager.Connector.Bounds.{IsLimited, total_timeout_suffices}
use vps_manager.Connector.Places.{Serving, Reach, here, next, starts, executing_bounded}
use vps_manager.Connector.Digests.{Collision, IsBound, digest_binds}

-- A hash of one byte.
abbrev hash : Text → Text
hash s = 1 ∷ []

hash-IsBytes : (s : Text) → IsBytes (hash s)
hash-IsBytes s = (omega arith, tt)

abbrev duration : Duration → Text
duration d = codes "10s"

abbrev fingerprint : Text
fingerprint = codes "SHA256:abcdefghijklmnop"

abbrev binding : RunbookBinding
binding = record {
  action = record { id = action_capabilities; version = pos 1 };
  host_id = codes "host_1";
  job_id = codes "job_1";
  target = record { address = codes "10.0.0.5"; port = pos 22; user = codes "root" };
  pinned_host_key_sha256 = fingerprint;
  credential_public_key_sha256 = fingerprint;
  parameters = record { service = []; timezone = []; pid = pos 0; process_start_ticks = 0 };
}

abbrev plan_or : Result PlanError Plan → Plan
plan_or (ok plan) = plan
plan_or (err e) = record {
  definition = record {
    id = [];
    version = pos 0;
    title = [];
    mutating = false;
    emergency = false;
    retry_policy = [];
  };
  parameters = binding.parameters;
  steps = [];
}

plan : Plan
unfolding build
plan = plan_or (build hash duration action_capabilities (pos 1) binding.parameters)

plan_builds : build hash duration action_capabilities (pos 1) binding.parameters ≡ ok plan
unfolding plan build build_steps definitions lookup text_eq read_only_steps
plan_builds = refl

bound : build_bound_plan hash duration (codes "v1") binding ≡ ok (plan, codes "01")
unfolding build_bound_plan plan build build_steps definitions lookup text_eq scope_digest scope_text
    trim_space has_prefix has_control read_only_steps bound_digest
bound = refl

digest_binds_example : (binding ≡ binding) ⊎ Collision hash
digest_binds_example =
    digest_binds hash duration hash-IsBytes (codes "v1") (codes "v1") binding binding plan plan
      (codes "01") bound bound

-- Keys are texts, and every key has the fingerprint of the binding.
abbrev ssh : Ssh Text Text
ssh = record {
  parse_authorized_key = λ s. some (s, []);
  parse_private_key = λ s. some s;
  parse_private_key_with_passphrase = λ s p. some s;
  public_key = λ s. s;
  fingerprint_sha256 = λ k. fingerprint;
}

abbrev noon : Time
noon = 1000 * hour

abbrev payload : RunbookExecuteRequest
payload = record {
  protocol_version = codes "v1";
  binding = binding;
  approval = record {
    decision = codes "approved";
    action = binding.action;
    host_id = codes "host_1";
    job_id = codes "job_1";
    scope_digest = codes "01";
    approved_at = noon;
    expires_at = noon + 10 * minute;
  };
  emergency = record { incident_id = []; expires_at = 0 };
  reason = codes "routine inspection";
  pinned_host_key = codes "key";
  credential = record { private_key_pem = codes "pem"; passphrase = [] };
}

-- The same for another job.
abbrev other_payload : RunbookExecuteRequest
other_payload = record payload {
  binding = record binding { job_id = codes "job_2" };
  approval = record payload.approval { job_id = codes "job_2" };
}

abbrev decode : Text → Option RunbookExecuteRequest
decode [] = some payload
decode (c ∷ s) = some other_payload

abbrev options : RunbookOptions
options = record {
  key_id = codes "connector";
  hmac_key = codes "0123456789abcdef0123456789abcdef";
  mutations_enabled = false;
  allow_private_targets = true;
  max_concurrent = pos 0;
  max_request_body_bytes = pos 0;
  max_output_bytes = pos 0;
  connect_timeout = pos 0;
  max_tracked_nonces = pos 0;
  max_idempotency_jobs = pos 0;
  authentication_skew = pos 0;
}

abbrev handler : RunbookHandler
handler = record {
  verifier = record {
    key_id = codes "connector";
    key = codes "0123456789abcdef0123456789abcdef";
    max_skew = 30 * second;
    max_nonces = 10000;
    nonces = [];
  };
  mutations_enabled = false;
  allow_private_targets = true;
  body_limit = 128 * 1024;
  output_limit = 1024 * 1024;
  connect_timeout = 10 * second;
  max_concurrent = 4;
  running = 0;
  ledger = record { entries = []; max = 10000 };
}

handler_made : new_runbook_handler options ≡ ok handler
unfolding new_runbook_handler new_verifier
handler_made = refl

abbrev admitted : Admitted Text Text
admitted = record {
  payload = payload;
  plan = plan;
  digest = codes "01";
  key = codes "key\n";
  signer = codes "pem";
}

abbrev other_admitted : Admitted Text Text
other_admitted = record admitted { payload = other_payload }

abbrev begun : RunbookHandler × Begun Text Text
begun = begin_execute hash duration ssh decode handler [] (noon + minute) (codes "r1")

begins_it : begun ≡ (begun.0, started admitted)
unfolding begin_execute plan build_bound_plan build build_steps definitions lookup text_eq
    scope_digest scope_text trim_space has_prefix has_control read_only_steps bound_digest
    validate_approval validate_runbook_ssh_material claim
begins_it = refl

started-IsApproved_example :
    (decode [] ≡ some payload)
    × IsBound hash duration payload.binding admitted.plan (codes "01")
    × IsApproved payload admitted.plan.definition (codes "01") (noon + minute)
    × (ssh.fingerprint_sha256 admitted.key ≡ fingerprint)
    × (ssh.fingerprint_sha256 (ssh.public_key admitted.signer) ≡ fingerprint)
started-IsApproved_example =
    started-IsApproved hash duration ssh decode handler begun.0 [] (noon + minute) (codes "r1")
      admitted begins_it

-- Every step succeeds at once.
abbrev runner : ℕ → Step → ℕ × Outcome
runner n step = (
  n + 1,
  record {
    result = record { stdout = []; stderr = []; exit_code = pos 0; duration = pos 1 };
    run_err = none;
    context_canceled = false;
    elapsed = pos 1;
  },
)

abbrev execution_or : Result PlanError Execution → Execution
execution_or (ok e) = e
execution_or (err e) = new_execution

done : Execution
unfolding execute
done = execution_or (execute hash duration (some runner) 0 admitted.plan).1

executes : execute hash duration (some runner) 0 admitted.plan ≡ (2, ok done)
unfolding done plan build build_steps definitions lookup text_eq read_only_steps execute run_steps
    is_reviewed_catalog_step
executes = refl

disabled_is_read_only_example : All (λ r. (r.phase ≡ preflight) ⊎ (r.phase ≡ evidence)) done.steps
disabled_is_read_only_example =
    disabled_is_read_only hash duration ssh decode runner 0 2 handler begun.0 [] (noon + minute)
      (codes "r1") admitted done refl begins_it executes

abbrev answered_response : RunbookExecuteResponse
answered_response = no_response

-- The same request again, while the first is being executed.
abbrev again : List (Event Text Text)
again = begins [] (noon + 2 * minute) (codes "r2") ∷ []

abbrev other_begun : RunbookHandler × Begun Text Text
other_begun =
    begin_execute hash duration ssh decode (run_events hash duration ssh decode begun.0 again)
      (1 ∷ []) (noon + 3 * minute) (codes "r3")

begins_other : other_begun ≡ (other_begun.0, started other_admitted)
unfolding begin_execute plan build_bound_plan build build_steps definitions lookup text_eq
    scope_digest scope_text trim_space has_prefix has_control read_only_steps bound_digest
    validate_approval validate_runbook_ssh_material claim run_events insert delete
begins_other = refl

never_started_twice_example :
    other_admitted.payload.binding.job_id ≢ admitted.payload.binding.job_id
never_started_twice_example =
    never_started_twice hash duration ssh decode handler begun.0 [] (noon + minute) (codes "r1")
      admitted again other_begun.0 (1 ∷ []) (noon + 3 * minute) (codes "r3") other_admitted tt
      begins_it tt begins_other

abbrev finished : RunbookHandler
finished =
    finish_execute hash duration ssh (run_events hash duration ssh decode begun.0 again) admitted
      answered_response

admits_again : admit hash duration ssh decode finished [] (noon + 4 * minute) ≡ ok admitted
unfolding admit finish_execute plan build_bound_plan build build_steps definitions lookup text_eq
    scope_digest scope_text trim_space has_prefix has_control read_only_steps bound_digest
    validate_approval validate_runbook_ssh_material run_events begin_execute claim
admits_again = refl

place_is_free :
    (run_events hash duration ssh decode begun.0 again).running - 1
    < (run_events hash duration ssh decode begun.0 again).max_concurrent
unfolding begin_execute plan build_bound_plan build build_steps definitions lookup text_eq
    scope_digest scope_text trim_space has_prefix has_control read_only_steps bound_digest
    validate_approval validate_runbook_ssh_material claim run_events insert
place_is_free = omega arith

finished_is_replayed_example :
    (begin_execute hash duration ssh decode finished [] (noon + 4 * minute) (codes "r4")).1
    ≡ answered
        (executed (record answered_response { request_id = codes "r4"; idempotent_replay = true }))
finished_is_replayed_example =
    finished_is_replayed hash duration ssh decode handler begun.0 [] (noon + minute) (codes "r1")
      admitted again answered_response [] (noon + 4 * minute) (codes "r4") admitted tt begins_it tt
      admits_again refl refl place_is_free

-- One execution that was started.
abbrev serving : Serving Text Text
serving = record { handler = begun.0; executing = admitted ∷ [] }

serves : Reach hash duration ssh decode (record { handler = handler; executing = [] }) serving
serves = next here (
    starts (record { handler = handler; executing = [] }) begun.0 [] (noon + minute) (codes "r1")
      admitted begins_it)

executing_bounded_example :
    (1 ≤ begun.0.max_concurrent)
    × (begun.0.max_concurrent ≤ 32)
    × (begun.0.running ≡ 1)
    × IsLimited begun.0
executing_bounded_example =
    executing_bounded hash duration ssh decode options handler serving handler_made serves

handler-IsLimited : IsLimited handler
handler-IsLimited = record {
  concurrency = (omega arith, omega arith);
  body = (omega arith, omega arith);
  output = (omega arith, omega arith);
  connect = (omega arith, omega arith);
  places = omega arith;
}

total_timeout_suffices_example :
    (total_timeout (10 * second) plan.steps
      ≡ 5 * second + length plan.steps * (10 * second) + timeouts plan.steps)
    × (total_timeout (10 * second) plan.steps < 5 * minute)
total_timeout_suffices_example =
    total_timeout_suffices hash duration handler action_capabilities (pos 1) binding.parameters plan
      handler-IsLimited plan_builds
