-- ===== src/Connector/Bounds.antt =====
-- services/connector/service/runbook_handler.go: the limits that the handler keeps to.
use vps_manager.Base.{
  ℕ, ℤ, ◌+◌, ◌*◌, ◌^◌, ◌≤◌, ◌<◌, ◌≡◌, refl, sym, ap, ◌∙◌, inl, inr, Bool, true, false, Option, List,
  [], ◌∷◌, arith, Duration, Time, Text, second, minute, length, leb, ltb, Bool-cases, Option-cases,
  Result-cases, ok,
}
use vps_manager.RequestAuth.{new_verifier}
use vps_manager.Runbook.{Plan, Step, Parameters}
use vps_manager.Runbook.Catalog.{build}
use vps_manager.Runbook.Plans.{build_lem, phases, phases_of, timeouts}
use vps_manager.Connector.Approval.{RunbookExecuteRequest, Ssh}
use vps_manager.Connector.Options.{RunbookOptions, RunbookHandler, new_runbook_handler}
use vps_manager.Connector.Bindings.{as_option}
use vps_manager.Connector.Runbooks.{
  Admitted, admit, begin_execute, finish_execute, claim_admitted, claim_for, answer_claim,
  total_timeout, total_steps,
}
use vps_manager.Connector.Responses.{RunbookExecuteResponse}

-- The limits of a handler, all of which are positive and none above its maximum.
pub record IsLimited (h : RunbookHandler) : Type 0 where
  pub concurrency : (1 ≤ h.max_concurrent) × (h.max_concurrent ≤ 32)
  pub body : (1 ≤ h.body_limit) × (h.body_limit ≤ 2 ^ 20)
  pub output : (1 ≤ h.output_limit) × (h.output_limit ≤ 2 ^ 22)
  pub connect : (1 ≤ h.connect_timeout) × (h.connect_timeout ≤ 30 * second)
  pub places : h.running ≤ h.max_concurrent

pub new_runbook_handler-IsLimited :
    (o : RunbookOptions) (h : RunbookHandler) → new_runbook_handler o ≡ ok h → IsLimited h
unfolding new_runbook_handler
new_runbook_handler-IsLimited o h e =
    elim (Option-cases
      (as_option (new_verifier o.key_id o.hmac_key o.authentication_skew o.max_tracked_nonces))) [
        | inl bad ↦ absurd (ground (arith, e, bad))
        | inr (v, good) ↦ record {
          concurrency = (ground (arith, e, good), ground (arith, e, good));
          body = (ground (arith, e, good), ground (arith, e, good));
          output = (ground (arith, e, good), ground (arith, e, good));
          connect = (ground (arith, e, good), ground (arith, e, good));
          places = ground (arith, e, good);
        }
      ]

module _ (sha256 : Text → Text) (duration_text : Duration → Text) {Key Signer : Type 0}
    (ssh : Ssh Key Signer) (decode : Text → Option RunbookExecuteRequest) where
  pub begin_execute-IsLimited :
      (h : RunbookHandler) (body : Text) (now : Time) (request_id : Text)
      → IsLimited h
      → IsLimited (begin_execute sha256 duration_text ssh decode h body now request_id).0
  unfolding begin_execute claim_admitted
  begin_execute-IsLimited h body now request_id v =
      elim (Bool-cases (leb h.max_concurrent h.running)) [
        | inl full ↦ rw full v
        | inr room ↦ elim (Result-cases (admit sha256 duration_text ssh decode h body now)) [
          | inr (x, bad) ↦ rw (room, bad) v
          | inl (a, good) ↦
              elim (Option-cases (
                answer_claim sha256 duration_text ssh (claim_for sha256 duration_text ssh h a now).1
                  request_id)) [
                    | inr (x, other) ↦
                        rw (room, good, other, claim_admitted)
                          (record {
                            concurrency = v.concurrency;
                            body = v.body;
                            output = v.output;
                            connect = v.connect;
                            places = v.places;
                          })
                    | inl new ↦
                        rw (room, good, new, claim_admitted)
                          (record {
                            concurrency = v.concurrency;
                            body = v.body;
                            output = v.output;
                            connect = v.connect;
                            places = ground (arith, room);
                          })
                  ]
        ]
      ]

  pub finish_execute-IsLimited :
      (h : RunbookHandler) (a : Admitted Key Signer) (response : RunbookExecuteResponse)
      → IsLimited h
      → IsLimited (finish_execute sha256 duration_text ssh h a response)
  unfolding finish_execute
  finish_execute-IsLimited h a response v = record {
    concurrency = v.concurrency;
    body = v.body;
    output = v.output;
    connect = v.connect;
    places = omega (arith, v.places);
  }

total_steps_lem :
    (c : ℕ) (steps : List Step)
    → total_steps c steps ≡ 5 * second + length steps * c + timeouts steps
total_steps_lem c [] = omega arith
total_steps_lem c (s ∷ steps) = grind (arith, total_steps_lem c steps)

length-phases : (steps : List Step) → length (phases steps) ≡ length steps
length-phases [] = refl
length-phases (s ∷ steps) = omega (arith, length-phases steps)

four_at_most : (m : Bool) → length (phases_of m) ≤ 4
four_at_most true = omega arith
four_at_most false = omega arith

product-le : (n c : ℕ) → n ≤ 4 → c ≤ 30 * second → n * c ≤ 120 * second
product-le n c hn hc = grind arith

-- The time that an execution is given in all is never cut short: for a plan that was built and a
-- handler within its limits, it is what its steps may take, with a connection for each and 5 seconds
-- besides, and less than the 5 minutes at which it would be capped.
pub total_timeout_suffices :
    (sha256 : Text → Text) (duration_text : Duration → Text) (h : RunbookHandler) (action : Text)
    (version : ℤ) (p : Parameters) (plan : Plan)
    → IsLimited h
    → build sha256 duration_text action version p ≡ ok plan
    → (total_timeout h.connect_timeout plan.steps
        ≡ 5 * second + length plan.steps * h.connect_timeout + timeouts plan.steps)
      × (total_timeout h.connect_timeout plan.steps < 5 * minute)
unfolding total_timeout
total_timeout_suffices sha256 duration_text h action version p plan v built =
    let made = build_lem sha256 duration_text action version p plan built in
    let few : length plan.steps ≤ 4 = omega (
      arith,
      sym (length-phases plan.steps) ∙ ap length made.3,
      four_at_most plan.definition.mutating,
    ) in
    let connections = product-le (length plan.steps) h.connect_timeout few v.connect.1 in
    let total = total_steps_lem h.connect_timeout plan.steps in
    let short : ltb (5 * minute) (total_steps h.connect_timeout plan.steps) ≡ false =
      ground (arith, total, connections, made.7) in
    rw short (total, omega (arith, total, connections, made.7))
