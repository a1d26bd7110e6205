-- ===== src/Connector/Places.antt =====
-- services/connector/service/runbook_handler.go: the channel that limits how many executions run at a
-- time, and the executions that do.
use vps_manager.Base.{
  ◌+◌, ◌≤◌, ◌≡◌, ap, ◌∙◌, inl, inr, Option, List, [], ◌∷◌, ◌++◌, arith, Duration, Time, Text,
  length, length-append, leb, Bool-cases, Option-cases, Result-cases, ok,
}
use vps_manager.RequestAuth.{new_verifier}
use vps_manager.Connector.Bindings.{as_option}
use vps_manager.Connector.Admission.{begin_execute-IsStarted}
use vps_manager.Connector.Approval.{RunbookExecuteRequest, Ssh}
use vps_manager.Connector.Responses.{RunbookExecuteResponse, Answer}
use vps_manager.Connector.Options.{RunbookOptions, RunbookHandler, new_runbook_handler}
use vps_manager.Connector.Runbooks.{
  Admitted, Begun, answered, started, admit, begin_execute, finish_execute, claim_admitted,
  claim_for, answer_claim,
}
use vps_manager.Connector.Bounds.{
  IsLimited, new_runbook_handler-IsLimited, begin_execute-IsLimited, finish_execute-IsLimited,
}

none_running :
    (o : RunbookOptions) (h : RunbookHandler) → new_runbook_handler o ≡ ok h → h.running ≡ 0
unfolding new_runbook_handler
none_running o h e =
    elim (Option-cases
      (as_option (new_verifier o.key_id o.hmac_key o.authentication_skew o.max_tracked_nonces))) [
        | inl bad ↦ absurd (ground (arith, e, bad))
        | inr (v, good) ↦ ground (arith, e, good)
      ]

-- A handler, and the executions that were started and have not ended.
pub record Serving (Key Signer : Type 0) : Type 0 where
  pub handler : RunbookHandler
  pub executing : List (Admitted Key Signer)

module _ (sha256 : Text → Text) (duration_text : Duration → Text) {Key Signer : Type 0}
    (ssh : Ssh Key Signer) (decode : Text → Option RunbookExecuteRequest) where
  -- A request is answered at once, or starts an execution; an execution that runs, any of them, ends.
  pub data Move : Serving Key Signer → Serving Key Signer → Type 0 where
    answers :
        (s : Serving Key Signer) (h : RunbookHandler) (body : Text) (now : Time) (request_id : Text)
        (answer : Answer)
        → begin_execute sha256 duration_text ssh decode s.handler body now request_id
          ≡ (h, answered answer)
        → Move s (record s { handler = h })
    starts :
        (s : Serving Key Signer) (h : RunbookHandler) (body : Text) (now : Time) (request_id : Text)
        (a : Admitted Key Signer)
        → begin_execute sha256 duration_text ssh decode s.handler body now request_id
          ≡ (h, started a)
        → Move s (record { handler = h; executing = a ∷ s.executing })
    ends :
        (s : Serving Key Signer) (others rest : List (Admitted Key Signer))
        (a : Admitted Key Signer) (response : RunbookExecuteResponse)
        → s.executing ≡ others ++ a ∷ rest
        → Move s (record {
          handler = finish_execute sha256 duration_text ssh s.handler a response;
          executing = others ++ rest;
        })

  pub data Reach (s : Serving Key Signer) : Serving Key Signer → Type 0 where
    here : Reach s s
    next : {t u : Serving Key Signer} → Reach s t → Move t u → Reach s u

  -- The channel has a place taken for each execution that runs.
  abbrev IsCounted : Serving Key Signer → Type 0
  IsCounted s = IsLimited s.handler × (s.handler.running ≡ length s.executing)

  answered_keeps_places :
      (g h : RunbookHandler) (body : Text) (now : Time) (request_id : Text) (answer : Answer)
      → begin_execute sha256 duration_text ssh decode g body now request_id ≡ (h, answered answer)
      → h.running ≡ g.running
  unfolding begin_execute claim_admitted
  answered_keeps_places g h body now request_id answer e =
      elim (Bool-cases (leb g.max_concurrent g.running)) [
        | inl full ↦ ground (arith, e, full)
        | inr room ↦ elim (Result-cases (admit sha256 duration_text ssh decode g body now)) [
          | inr (x, bad) ↦ ground (arith, e, room, bad)
          | inl (a, good) ↦
              elim (Option-cases (
                answer_claim sha256 duration_text ssh (claim_for sha256 duration_text ssh g a now).1
                  request_id)) [
                    | inr (x, other) ↦ ground (arith, e, room, good, other)
                    | inl new ↦ absurd (ground (arith, e, room, good, new))
                  ]
        ]
      ]

  started_takes_place :
      (g h : RunbookHandler) (body : Text) (now : Time) (request_id : Text)
      (a : Admitted Key Signer)
      → begin_execute sha256 duration_text ssh decode g body now request_id ≡ (h, started a)
      → h.running ≡ g.running + 1
  started_takes_place g h body now request_id a e =
      ap (λ x. x.running)
        (begin_execute-IsStarted sha256 duration_text ssh decode g h body now request_id a e).after

  begun-IsLimited :
      (g h : RunbookHandler) (body : Text) (now : Time) (request_id : Text) (b : Begun Key Signer)
      → IsLimited g
      → begin_execute sha256 duration_text ssh decode g body now request_id ≡ (h, b)
      → IsLimited h
  begun-IsLimited g h body now request_id b v e =
      rw (← ap (λ x. x.0) e)
        (begin_execute-IsLimited sha256 duration_text ssh decode g body now request_id v)

  Move-IsCounted : {s t : Serving Key Signer} → Move s t → IsCounted s → IsCounted t
  unfolding finish_execute
  Move-IsCounted (answers s h body now request_id answer e) v = (
    begun-IsLimited s.handler h body now request_id (answered answer) v.0 e,
    answered_keeps_places s.handler h body now request_id answer e ∙ v.1,
  )
  Move-IsCounted (starts s h body now request_id a e) v = (
    begun-IsLimited s.handler h body now request_id (started a) v.0 e,
    omega (arith, started_takes_place s.handler h body now request_id a e, v.1),
  )
  Move-IsCounted (ends s others rest a response e) v = (
    finish_execute-IsLimited sha256 duration_text ssh decode s.handler a response v.0,
    omega (arith, v.1, ap length e, length-append others (a ∷ rest), length-append others rest),
  )

  Reach-IsCounted : {s t : Serving Key Signer} → IsCounted s → Reach s t → IsCounted t
  Reach-IsCounted v here = v
  Reach-IsCounted v (next r m) = Move-IsCounted m (Reach-IsCounted v r)

  -- From the options on, whatever requests begin and executions end, no more executions run at a time
  -- than the limit, which is 32 at most; each of them holds a place of its own, and all the handler's
  -- limits are within their maxima.
  pub executing_bounded :
      (o : RunbookOptions) (h : RunbookHandler) (s : Serving Key Signer)
      → new_runbook_handler o ≡ ok h
      → Reach (record { handler = h; executing = [] }) s
      → (length s.executing ≤ s.handler.max_concurrent)
        × (s.handler.max_concurrent ≤ 32)
        × (s.handler.running ≡ length s.executing)
        × IsLimited s.handler
  executing_bounded o h s e r =
      let v = Reach-IsCounted (new_runbook_handler-IsLimited o h e, none_running o h e) r in
      (omega (arith, v.0.places, v.1), v.0.concurrency.1, v.1, v.0)
