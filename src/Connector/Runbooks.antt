-- ===== src/Connector/Runbooks.antt =====
-- services/connector/service/runbook_handler.go: the handler of runbook requests. JSON, media types,
-- SSH keys and the SSH runner are parameters. The lock of the ledger and the channel of the
-- concurrency limit make the beginning and the end of an execution one step each; between them other
-- requests are served.
use vps_manager.Base.{
  ℕ, ◌+◌, ◌-◌, ◌*◌, ℤ, Bool, true, false, not, ◌&&◌, ◌||◌, Option, none, some, List, [], ◌∷◌, pos,
  pos_part, ltb_ℤ, Text, Duration, Time, second, minute, codes, lookup, length, ltb, leb, ◌==◌,
  text_eq, if◌then◌else◌, Result, ok, err, ◌>>=◌, ◌>>◌, reject_if, or_fail,
}
use vps_manager.Ledger.{
  Ledger, RunbookClaim, claim_new, claim_replay, claim_conflict, claim_in_progress, claim_full,
  claim, complete,
}
use vps_manager.RequestAuth.{verify_request}
use vps_manager.RequestAuth.Headers.{Request}
use vps_manager.Runbook.{Step, Plan}
use vps_manager.Runbook.Executor.{Outcome, execute}
use vps_manager.Connector.Options.{RunbookHandler}
use vps_manager.Connector.Bindings.{RunbookBinding, build_bound_plan}
use vps_manager.Connector.Approval.{
  RunbookExecuteRequest, Ssh, validate_approval, validate_runbook_ssh_material,
}
use vps_manager.Connector.Responses.{
  RunbookExecuteResponse, no_response, Answer, failure, previewed, executed, preview_response,
  execute_response,
}

-- An HTTP request: what is signed, and the parts that the handler reads besides.
pub record HttpRequest : Type 0 where
  pub signed : Request
  pub path : Text
  pub raw_query : Text
  pub content_length : ℤ

pub record RunbookPreviewRequest : Type 0 where
  pub protocol_version : Text
  pub binding : RunbookBinding

abbrev pub first_value : Option (List Text) → Text
first_value none = []
first_value (some []) = []
first_value (some (v ∷ vs)) = v

abbrev pub is_json : Option Text → Bool
is_json none = false
is_json (some media_type) = text_eq media_type (codes "application/json")

-- The failure that is answered in place of an error.
abbrev pub or_answer {ℓ κ} : {E : Type ℓ} {A : Type κ} → Result E A → Answer → Result Answer A
or_answer (ok a) answer = ok a
or_answer (err e) answer = err answer

-- What the session is given: where to connect and with which keys.
pub record Config (Key Signer : Type 0) : Type 0 where
  pub address : Text
  pub port : ℤ
  pub user : Text
  pub signer : Signer
  pub pinned_host_key : Key
  pub connect_timeout : ℕ
  pub max_output_bytes : ℕ
  pub allow_private_targets : Bool

-- An execution that may be started.
pub record Admitted (Key Signer : Type 0) : Type 0 where
  pub payload : RunbookExecuteRequest
  pub plan : Plan
  pub digest : Text
  pub key : Key
  pub signer : Signer

pub data Begun (Key Signer : Type 0) : Type 0 where
  answered : Answer → Begun Key Signer
  started : Admitted Key Signer → Begun Key Signer

abbrev pub total_steps : ℕ → List Step → ℕ
total_steps connect_timeout [] = 5 * second
total_steps connect_timeout (step ∷ steps) =
    connect_timeout + pos_part step.timeout + total_steps connect_timeout steps

-- The timeouts of the catalog are positive.
unfoldable pub total_timeout : ℕ → List Step → ℕ
total_timeout connect_timeout steps =
    if ltb (5 * minute) (total_steps connect_timeout steps)
    then 5 * minute
    else total_steps connect_timeout steps

module _ (sha256 : Text → Text) (mac : Text → Text → Text) (mime : Text → Option Text) where
  -- authenticateJSON: the body of a request that is let in.
  unfoldable pub authenticate_json :
      RunbookHandler → HttpRequest → Time → RunbookHandler × Result Answer Text
  authenticate_json h r now =
      if not (is_json (mime (first_value (lookup (codes "Content-Type") r.signed.headers))))
      then (h, err (failure 415 (codes "invalid_content_type") false))
      else if ltb_ℤ (pos h.body_limit) r.content_length || ltb h.body_limit (length r.signed.body)
      then (h, err (failure 413 (codes "request_too_large") false))
      else (
        record h { verifier = (verify_request sha256 mac h.verifier r.signed now).0 },
        or_answer (verify_request sha256 mac h.verifier r.signed now).1
              (failure 401 (codes "unauthorized") false)
            >> ok r.signed.body,
      )

module _ (sha256 : Text → Text) (duration_text : Duration → Text) where
  -- handlePreview after authentication; `decode` is `decodeStrictJSON`.
  unfoldable pub preview :
      (Text → Option RunbookPreviewRequest) → RunbookHandler → Text → Text → Answer
  unfolding preview_response
  preview decode h body request_id = elim (decode body) [
    | none ↦ failure 400 (codes "invalid_json") false
    | some payload ↦
        elim (build_bound_plan sha256 duration_text payload.protocol_version payload.binding) [
          | err e ↦ failure 400 (codes "invalid_runbook") false
          | ok bound ↦
              previewed
                (preview_response h.mutations_enabled request_id payload.binding bound.0 bound.1)
        ]
  ]

  module _ {Key Signer : Type 0} (ssh : Ssh Key Signer) where
    -- handleExecute from the decoding of the body to the parsing of the keys.
    unfoldable pub admit :
        (Text → Option RunbookExecuteRequest)
        → RunbookHandler
        → Text
        → Time
        → Result Answer (Admitted Key Signer)
    admit decode h body now = do
      payload ← or_fail (decode body) (failure 400 (codes "invalid_json") false)
      bound ←
          or_answer (build_bound_plan sha256 duration_text payload.protocol_version payload.binding)
            (failure 400 (codes "invalid_runbook") false)
      reject_if (bound.0.definition.mutating && not h.mutations_enabled)
          (failure 403 (codes "mutations_disabled") false)
      or_answer (validate_approval payload bound.0.definition bound.1 now)
          (failure 403 (codes "approval_invalid") false)
      material ←
          or_answer (validate_runbook_ssh_material ssh payload)
            (failure 400 (codes "ssh_material_invalid") false)
      ok (record {
        payload = payload;
        plan = bound.0;
        digest = bound.1;
        key = material.0;
        signer = material.1;
      })

    -- What the claim of the job is answered with, where it is not new.
    abbrev pub answer_claim : RunbookClaim × RunbookExecuteResponse → Text → Option Answer
    answer_claim (claim_new, response) request_id = none
    answer_claim (claim_replay, response) request_id =
        some (executed (record response { request_id = request_id; idempotent_replay = true }))
    answer_claim (claim_conflict, response) request_id =
        some (failure 409 (codes "job_scope_conflict") false)
    answer_claim (claim_in_progress, response) request_id =
        some (failure 409 (codes "job_in_progress") false)
    answer_claim (claim_full, response) request_id =
        some (failure 503 (codes "idempotency_capacity") false)

    abbrev pub claim_for :
        RunbookHandler
        → Admitted Key Signer
        → Time
        → Ledger RunbookExecuteResponse × (RunbookClaim × RunbookExecuteResponse)
    claim_for h a now = claim no_response h.ledger a.payload.binding.job_id a.digest now

    -- The claim; a place in the channel is kept only by a request that goes on.
    unfoldable pub claim_admitted :
        RunbookHandler → Admitted Key Signer → Time → Text → RunbookHandler × Begun Key Signer
    claim_admitted h a now request_id = elim (answer_claim (claim_for h a now).1 request_id) [
      | some answer ↦ (record h { ledger = (claim_for h a now).0 }, answered answer)
      | none ↦ (record h { ledger = (claim_for h a now).0; running = h.running + 1 }, started a)
    ]

    -- handleExecute after authentication up to the claim.
    unfoldable pub begin_execute :
        (Text → Option RunbookExecuteRequest)
        → RunbookHandler
        → Text
        → Time
        → Text
        → RunbookHandler × Begun Key Signer
    unfolding admit claim_admitted
    begin_execute decode h body now request_id =
        if leb h.max_concurrent h.running
        then (h, answered (failure 429 (codes "runbook_concurrency_limit") true))
        else elim (admit decode h body now) [
          | err answer ↦ (h, answered answer)
          | ok a ↦ claim_admitted h a now request_id
        ]

    abbrev pub config_of : RunbookHandler → Admitted Key Signer → Config Key Signer
    config_of h a = record {
      address = a.payload.binding.target.address;
      port = a.payload.binding.target.port;
      user = a.payload.binding.target.user;
      signer = a.signer;
      pinned_host_key = a.key;
      connect_timeout = h.connect_timeout;
      max_output_bytes = h.output_limit;
      allow_private_targets = h.allow_private_targets;
    }

    -- The response is kept, and the place in the channel given back.
    unfoldable pub finish_execute :
        RunbookHandler → Admitted Key Signer → RunbookExecuteResponse → RunbookHandler
    finish_execute h a response = record h {
      ledger = complete h.ledger a.payload.binding.job_id a.digest response;
      running = h.running - 1;
    }

    module _ {S : Type 0} (runner : ℕ → Config Key Signer → S → Step → S × Outcome) where
      -- The execution itself; the runner is given the time that it may take in all.
      unfoldable pub run_admitted :
          RunbookHandler → Admitted Key Signer → Text → S → S × RunbookExecuteResponse
      unfolding total_timeout execute_response
      run_admitted h a request_id s =
          let total = total_timeout h.connect_timeout a.plan.steps in
          let done = execute sha256 duration_text (some (runner total (config_of h a))) s a.plan in
          (done.0, execute_response request_id a.payload.binding a.digest done.1)

      abbrev pub Served : Type 0
      Served = RunbookHandler × (S × Answer)

      -- What follows the beginning, where no other request comes between.
      unfoldable pub go_on : RunbookHandler → Text → S → Begun Key Signer → Served
      unfolding run_admitted finish_execute
      go_on h request_id s (answered answer) = (h, (s, answer))
      go_on h request_id s (started a) =
          let done = run_admitted h a request_id s in
          (finish_execute h a done.1, (done.0, executed done.1))

      unfoldable pub execute_body :
          (Text → Option RunbookExecuteRequest) → RunbookHandler → Text → Time → Text → S → Served
      unfolding begin_execute go_on
      execute_body decode h body now request_id s =
          let begun = begin_execute decode h body now request_id in
          go_on begun.0 request_id s begun.1

      module _ (mac : Text → Text → Text) (mime : Text → Option Text)
          (decode : Text → Option RunbookExecuteRequest)
          (decode_preview : Text → Option RunbookPreviewRequest) where
        unfoldable pub handle_execute :
            RunbookHandler → HttpRequest → Time → Time → Text → S → Served
        unfolding authenticate_json execute_body
        handle_execute h r auth_now now request_id s =
            let let_in = authenticate_json sha256 mac mime h r auth_now in
            elim let_in.1 [
              | err answer ↦ (let_in.0, (s, answer))
              | ok body ↦ execute_body decode let_in.0 body now request_id s
            ]

        unfoldable pub handle_preview :
            RunbookHandler → HttpRequest → Time → Text → RunbookHandler × Answer
        unfolding authenticate_json preview
        handle_preview h r auth_now request_id =
            let let_in = authenticate_json sha256 mac mime h r auth_now in
            elim let_in.1 [
              | err answer ↦ (let_in.0, answer)
              | ok body ↦ (let_in.0, preview decode_preview let_in.0 body request_id)
            ]

        -- Wrap; `none` is a request for the handler that is wrapped.
        unfoldable pub wrap : RunbookHandler → HttpRequest → Time → Time → Text → S → Option Served
        unfolding handle_execute handle_preview
        wrap h r auth_now now request_id s =
            if text_eq r.path (codes "/v1/runbooks/preview")
            then some (
                if not (length r.raw_query == 0)
                then (h, (s, failure 400 (codes "query_not_allowed") false))
                else if not (text_eq r.signed.method (codes "POST"))
                then (h, (s, failure 405 (codes "method_not_allowed") false))
                else (
                  (handle_preview h r auth_now request_id).0,
                  (s, (handle_preview h r auth_now request_id).1),
                ))
            else if text_eq r.path (codes "/v1/runbooks/execute")
            then some (
                if not (length r.raw_query == 0)
                then (h, (s, failure 400 (codes "query_not_allowed") false))
                else if not (text_eq r.signed.method (codes "POST"))
                then (h, (s, failure 405 (codes "method_not_allowed") false))
                else handle_execute h r auth_now now request_id s)
            else none
