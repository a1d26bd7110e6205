-- ===== src/Connector/Executions.antt =====
-- services/connector/service/runbook_handler.go with runbook_ledger.go: that no job is executed twice,
-- however requests and executions interleave, and that a finished job is answered from the ledger.
use vps_manager.Base.{
  ◌-◌, ◌<◌, ◌≡◌, ◌≢◌, refl, sym, ap, ◌∙◌, ◌⊎◌, inl, inr, true, false, Option, List, [], ◌∷◌, ◌++◌,
  arith, Duration, Time, Text, IsMap, leb, Bool-cases, Option-cases, Result-cases, ok,
}
use vps_manager.Ledger.{Ledger, claim, claim_new, claim_replay}
use vps_manager.Ledger.Claims.{
  Call, claims, completes, step, run, AllLeaveOpen, claim_exclusive, complete_replays,
}
use vps_manager.Connector.Approval.{RunbookExecuteRequest, Ssh}
use vps_manager.Connector.Responses.{RunbookExecuteResponse, no_response, executed}
use vps_manager.Connector.Options.{RunbookHandler}
use vps_manager.Connector.Runbooks.{
  Admitted, answered, started, admit, begin_execute, finish_execute, claim_admitted, claim_for,
  answer_claim,
}
use vps_manager.Connector.Admission.{begin_execute-IsStarted}

-- What happens at a connector: a request begins, with what time and id it is given, or an execution
-- that was started ends with a response.
pub data Event (Key Signer : Type 0) : Type 0 where
  begins : Text → Time → Text → Event Key Signer
  finishes : Admitted Key Signer → RunbookExecuteResponse → Event Key Signer

module _ (sha256 : Text → Text) (duration_text : Duration → Text) {Key Signer : Type 0}
    (ssh : Ssh Key Signer) (decode : Text → Option RunbookExecuteRequest) where
  unfoldable pub step_event : RunbookHandler → Event Key Signer → RunbookHandler
  step_event h (begins body now request_id) =
      (begin_execute sha256 duration_text ssh decode h body now request_id).0
  step_event h (finishes a response) = finish_execute sha256 duration_text ssh h a response

  unfoldable pub run_events : RunbookHandler → List (Event Key Signer) → RunbookHandler
  unfolding step_event
  run_events h [] = h
  run_events h (e ∷ es) = run_events (step_event h e) es

  -- No execution of the job in this scope ends.
  abbrev pub NoneFinish : Text → Text → List (Event Key Signer) → Type 0
  NoneFinish job digest [] = Unit
  NoneFinish job digest (begins body now request_id ∷ es) = NoneFinish job digest es
  NoneFinish job digest (finishes a response ∷ es) =
      ((a.payload.binding.job_id ≢ job) ⊎ (a.digest ≢ digest)) × NoneFinish job digest es

  -- The ledger sees a sequence of claims and completions.
  record Calls (h h' : RunbookHandler) (job digest : Text) : Type 0 where
    calls : List (Call RunbookExecuteResponse)
    same : h'.ledger ≡ run no_response h.ledger calls
    leaves_open : AllLeaveOpen job digest calls

  begins-Calls :
      (h : RunbookHandler) (body : Text) (now : Time) (request_id job digest : Text)
      → Calls h (begin_execute sha256 duration_text ssh decode h body now request_id).0 job digest
  unfolding begin_execute claim_admitted run step
  begins-Calls h body now request_id job digest =
      elim (Bool-cases (leb h.max_concurrent h.running)) [
        | inl full ↦ record { calls = []; same = rw full refl; leaves_open = tt }
        | inr room ↦ elim (Result-cases (admit sha256 duration_text ssh decode h body now)) [
          | inr (x, bad) ↦ record { calls = []; same = ground (arith, room, bad); leaves_open = tt }
          | inl (a, good) ↦ record {
            calls = claims a.payload.binding.job_id a.digest now ∷ [];
            same = ground (
              arith,
              room,
              good,
              Option-cases (
                  answer_claim sha256 duration_text ssh
                    (claim_for sha256 duration_text ssh h a now).1 request_id),
            );
            leaves_open = (tt, tt);
          }
        ]
      ]

  run-append :
      (l : Ledger RunbookExecuteResponse) (xs ys : List (Call RunbookExecuteResponse))
      → run no_response l (xs ++ ys) ≡ run no_response (run no_response l xs) ys
  unfolding run
  run-append l [] ys = refl
  run-append l (x ∷ xs) ys = run-append (step no_response l x) xs ys

  AllLeaveOpen-append :
      (job digest : Text) (xs ys : List (Call RunbookExecuteResponse))
      → AllLeaveOpen job digest xs
      → AllLeaveOpen job digest ys
      → AllLeaveOpen job digest (xs ++ ys)
  AllLeaveOpen-append job digest [] ys hx hy = hy
  AllLeaveOpen-append job digest (x ∷ xs) ys hx hy =
      (hx.0, AllLeaveOpen-append job digest xs ys hx.1 hy)

  Calls-trans :
      (h i j : RunbookHandler) (job digest : Text)
      → Calls h i job digest
      → Calls i j job digest
      → Calls h j job digest
  Calls-trans h i j job digest c d = record {
    calls = c.calls ++ d.calls;
    same =
        d.same
        ∙ ap (λ l. run no_response l d.calls) c.same
        ∙ sym (run-append h.ledger c.calls d.calls);
    leaves_open = AllLeaveOpen-append job digest c.calls d.calls c.leaves_open d.leaves_open;
  }

  run_events-Calls :
      (h : RunbookHandler) (es : List (Event Key Signer)) (job digest : Text)
      → NoneFinish job digest es
      → Calls h (run_events h es) job digest
  unfolding run_events step_event finish_execute run step
  run_events-Calls h [] job digest none_ends = record { calls = []; same = refl; leaves_open = tt }
  run_events-Calls h (begins body now request_id ∷ es) job digest none_ends =
      let h' = (begin_execute sha256 duration_text ssh decode h body now request_id).0 in
      Calls-trans h h' (run_events h' es) job digest (begins-Calls h body now request_id job digest)
        (run_events-Calls h' es job digest none_ends)
  run_events-Calls h (finishes a response ∷ es) job digest none_ends =
      let h' = finish_execute sha256 duration_text ssh h a response in
      Calls-trans h h' (run_events h' es) job digest
        (record {
          calls = completes a.payload.binding.job_id a.digest response ∷ [];
          same = refl;
          leaves_open = (none_ends.0, tt);
        })
        (run_events-Calls h' es job digest none_ends.1)

  -- A job that is being executed is never started a second time: once the connector has started an
  -- execution, then whatever requests begin and executions end, of this job or of others, as long as
  -- that one has not ended, no request that begins starts an execution of the same job, under
  -- whatever digest.
  pub never_started_twice :
      (h h' : RunbookHandler) (body : Text) (now : Time) (request_id : Text)
      (a : Admitted Key Signer) (es : List (Event Key Signer)) (later : RunbookHandler)
      (body' : Text) (now' : Time) (request_id' : Text) (b : Admitted Key Signer)
      → IsMap h.ledger.entries
      → begin_execute sha256 duration_text ssh decode h body now request_id ≡ (h', started a)
      → NoneFinish a.payload.binding.job_id a.digest es
      → begin_execute sha256 duration_text ssh decode (run_events h' es) body' now' request_id'
        ≡ (later, started b)
      → b.payload.binding.job_id ≢ a.payload.binding.job_id
  never_started_twice h h' body now request_id a es later body' now' request_id' b keys e none_ends
        e' same_job =
      let job = a.payload.binding.job_id in
      let v =
        begin_execute-IsStarted sha256 duration_text ssh decode h h' body now request_id a e in
      let w =
        begin_execute-IsStarted sha256 duration_text ssh decode (run_events h' es) later body' now'
          request_id' b e' in
      let cs = run_events-Calls h' es job a.digest none_ends in
      let ledgers : (run_events h' es).ledger
          ≡ run no_response (claim no_response h.ledger job a.digest now).0 cs.calls =
        cs.same ∙ ap (λ x. run no_response x.ledger cs.calls) v.after in
      let answer =
        claim_exclusive no_response h.ledger job a.digest now keys v.new cs.calls cs.leaves_open
          b.digest now' in
      let new : (claim no_response (run_events h' es).ledger b.payload.binding.job_id b.digest
            now').1.0
          ≡ claim_new =
        w.new in
      ground (arith, answer, (rw (ledgers, same_job) at new))

  begin_execute-replay :
      (g : RunbookHandler) (body : Text) (now : Time) (request_id : Text) (b : Admitted Key Signer)
      (response : RunbookExecuteResponse)
      → admit sha256 duration_text ssh decode g body now ≡ ok b
      → (claim_for sha256 duration_text ssh g b now).1 ≡ (claim_replay, response)
      → g.running < g.max_concurrent
      → (begin_execute sha256 duration_text ssh decode g body now request_id).1
        ≡ answered
            (executed (record response { request_id = request_id; idempotent_replay = true }))
  unfolding begin_execute claim_admitted
  begin_execute-replay g body now request_id b response good replays room =
      let free : leb g.max_concurrent g.running ≡ false = ground arith in
      let answer = ap (λ c. answer_claim sha256 duration_text ssh c request_id) replays in
      rw (free, good) (rw (answer, claim_admitted) refl)

  -- A finished job is answered from the ledger: after an execution was started, whatever happened
  -- before it ended, once it ends with a response, a request that is admitted for the same job and
  -- digest, and finds a place, gets this response, marked as a replay, and nothing is executed.
  pub finished_is_replayed :
      (h h' : RunbookHandler) (body : Text) (now : Time) (request_id : Text)
      (a : Admitted Key Signer) (es : List (Event Key Signer)) (response : RunbookExecuteResponse)
      (body' : Text) (now' : Time) (request_id' : Text) (b : Admitted Key Signer)
      → IsMap h.ledger.entries
      → begin_execute sha256 duration_text ssh decode h body now request_id ≡ (h', started a)
      → NoneFinish a.payload.binding.job_id a.digest es
      → admit sha256 duration_text ssh decode
          (finish_execute sha256 duration_text ssh (run_events h' es) a response)
          body'
          now'
        ≡ ok b
      → b.payload.binding.job_id ≡ a.payload.binding.job_id
      → b.digest ≡ a.digest
      → (run_events h' es).running - 1 < (run_events h' es).max_concurrent
      → (begin_execute sha256 duration_text ssh decode
          (finish_execute sha256 duration_text ssh (run_events h' es) a response)
          body'
          now'
          request_id').1
        ≡ answered
            (executed (record response { request_id = request_id'; idempotent_replay = true }))
  unfolding finish_execute
  finished_is_replayed h h' body now request_id a es response body' now' request_id' b keys e
        none_ends good job digest room =
      let g = run_events h' es in
      let v =
        begin_execute-IsStarted sha256 duration_text ssh decode h h' body now request_id a e in
      let cs = run_events-Calls h' es a.payload.binding.job_id a.digest none_ends in
      let ledgers : g.ledger
          ≡ run no_response (claim no_response h.ledger a.payload.binding.job_id a.digest now).0
              cs.calls =
        cs.same ∙ ap (λ x. run no_response x.ledger cs.calls) v.after in
      let replays =
        complete_replays no_response h.ledger a.payload.binding.job_id a.digest now keys v.new
          cs.calls cs.leaves_open response now' in
      begin_execute-replay (finish_execute sha256 duration_text ssh g a response) body' now'
        request_id' b response good (rw (job, digest, ledgers) replays) room
