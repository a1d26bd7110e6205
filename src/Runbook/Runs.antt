-- ===== src/Runbook/Runs.antt =====
-- services/runbook/executor.go: what `Execute` gives for a plan.
use vps_manager.Base.{
  ◌≡◌, ◌≢◌, refl, sym, ◌∙◌, ◌⊎◌, inl, inr, Bool, true, false, some, List, [], ◌∷◌, ◌++◌, arith, ℤ,
  Duration, Text, codes, length, Bool-cases, if◌then◌else◌, ok, ◌==◌,
}
use mathlib.Core.List.{append_assoc, append-nil}
use mathlib.Core.Path.{subst}
use vps_manager.Runbook.{Step, Plan, StepResult, succeeded, Execution, Parameters, Phase}
use vps_manager.Runbook.Executor.{
  Outcome, execute, run_steps, append_step, new_execution, step_result, has_failed,
}
use vps_manager.Runbook.Catalog.{build}
use vps_manager.Runbook.Plans.{build_lem, phases, phases_of, phases-ne-nil}

-- The results are those of the steps, in their order and as many as were tried: each succeeded, but
-- the last did not if the execution stopped. If it did not stop, all steps were tried.
abbrev pub Follows : List Step → List StepResult → Bool → Type 0
Follows ss [] stopped = (ss ≡ []) × (stopped ≡ false)
Follows [] (r ∷ rs) stopped = ⊥
Follows (s ∷ ss) (r ∷ rs) stopped =
    (r.id ≡ s.id)
    × (r.phase ≡ s.phase)
    × ((r.state ≡ succeeded) × Follows ss rs stopped
        ⊎ (r.state ≢ succeeded) × (rs ≡ []) × (stopped ≡ true))

-- What the loop adds to the execution that it starts from.
pub record Adds (steps : List Step) (start done : Execution) : Type 0 where
  pub added : List StepResult
  pub same : done.steps ≡ start.steps ++ added
  pub follows : Follows steps added done.stopped
  pub status : done.status ≡ (if done.stopped then codes "failed" else start.status)

failed_state :
    (step : Step) (o : Outcome) → has_failed o ≡ true → (step_result step o).state ≢ succeeded
unfolding step_result
failed_state step o h e = ground arith

succeeded_state :
    (step : Step) (o : Outcome) → has_failed o ≡ false → (step_result step o).state ≡ succeeded
unfolding step_result
succeeded_state step o h = ground arith

result_id : (step : Step) (o : Outcome) → (step_result step o).id ≡ step.id
unfolding step_result
result_id step o = refl

result_phase : (step : Step) (o : Outcome) → (step_result step o).phase ≡ step.phase
unfolding step_result
result_phase step o = refl

-- The results in their phases: each but the last tried succeeded.
abbrev pub Tried : List Phase → List StepResult → Type 0
Tried ps [] = Unit
Tried [] (r ∷ rs) = ⊥
Tried (p ∷ ps) (r ∷ []) = r.phase ≡ p
Tried (p ∷ ps) (r ∷ t ∷ rs) = (r.phase ≡ p) × (r.state ≡ succeeded) × Tried ps (t ∷ rs)

Follows-Tried :
    (ps : List Phase) (ss : List Step) (rs : List StepResult) (stopped : Bool)
    → phases ss ≡ ps
    → Follows ss rs stopped
    → Tried ps rs
Follows-Tried ps ss [] stopped h f = tt
Follows-Tried ps [] (r ∷ rs) stopped h f = absurd f
Follows-Tried [] (s ∷ ss) (r ∷ rs) stopped h f = cc
Follows-Tried (p ∷ ps) (s ∷ ss) (r ∷ []) stopped h f = ground (arith, f.1, h)
Follows-Tried (p ∷ ps) (s ∷ ss) (r ∷ t ∷ rs) stopped h f = elim f.2 [
  | inl more ↦ (
    ground (arith, f.1, h),
    more.0,
    Follows-Tried ps ss (t ∷ rs) stopped (ground (arith, h)) more.1,
  )
  | inr last ↦ cc (last.1)
]

module _ {S : Type 0} (runner : S → Step → S × Outcome) where
  run_steps_stop :
      (s : S) (e : Execution) (step : Step) (rest : List Step)
      → has_failed (runner s step).1 ≡ true
      → run_steps runner s e (step ∷ rest)
        ≡ ((runner s step).0, append_step e step (runner s step).1)
  unfolding run_steps
  run_steps_stop s e step rest bad = rw bad refl

  run_steps_go :
      (s : S) (e : Execution) (step : Step) (rest : List Step)
      → (append_step e step (runner s step).1).stopped ≡ false
      → run_steps runner s e (step ∷ rest)
        ≡ run_steps runner (runner s step).0 (append_step e step (runner s step).1) rest
  unfolding run_steps
  run_steps_go s e step rest good = rw (good, run_steps) refl

  run_steps_nil : (s : S) (e : Execution) → run_steps runner s e [] ≡ (s, e)
  unfolding run_steps
  run_steps_nil s e = refl

  run_steps-Adds :
      (s : S) (e : Execution) (steps : List Step)
      → e.stopped ≡ false
      → Adds steps e (run_steps runner s e steps).1
  run_steps-Adds s e [] h = rw (run_steps_nil s e) (record {
    added = [];
    same = sym (append-nil e.steps);
    follows = (refl, h);
    status = rw h refl;
  })
  run_steps-Adds s e (step ∷ rest) h =
      let o = (runner s step).1 in
      let e' = append_step e step o in
      elim (Bool-cases (has_failed o)) [
        | inl bad ↦ rw (run_steps_stop s e step rest bad) (record {
          added = step_result step o ∷ [];
          same = refl;
          follows = (
            result_id step o,
            result_phase step o,
            inr (failed_state step o bad, refl, ground arith),
          );
          status = ground arith;
        })
        | inr good ↦
            let ih : Adds rest e' (run_steps runner (runner s step).0 e' rest).1 =
              run_steps-Adds (runner s step).0 e' rest (ground arith) in
            rw (run_steps_go s e step rest (ground arith)) (record {
              added = step_result step o ∷ ih.added;
              same = ih.same ∙ append_assoc e.steps (step_result step o ∷ []) ih.added;
              follows = (
                result_id step o,
                result_phase step o,
                inl (succeeded_state step o good, ih.follows),
              );
              status = ground (arith, ih.status);
            })
      ]

  module _ (sha256 : Text → Text) (duration_text : Duration → Text) where
    -- An execution that is made tries the steps of the plan in their order up to the first that does
    -- not succeed, and no further. It is reported as stopped and failed exactly if there is one; and
    -- if not, every step was tried.
    pub execute-Follows :
        (s : S) (plan : Plan) {t : S} {e : Execution}
        → execute sha256 duration_text (some runner) s plan ≡ (t, ok e)
        → Follows plan.steps e.steps e.stopped
          × (e.status ≡ (if e.stopped then codes "failed" else codes "succeeded"))
    unfolding execute
    execute-Follows s plan {t} {e} h =
        let adds = run_steps-Adds s new_execution plan.steps refl in
        let same : (run_steps runner s new_execution plan.steps).1 ≡ e = ground (arith, h) in
        subst
          (λ x.
            Follows plan.steps x.steps x.stopped
            × (x.status ≡ (if x.stopped then codes "failed" else codes "succeeded")))
          same
          (
            subst
                (λ l. Follows plan.steps l (run_steps runner s new_execution plan.steps).1.stopped)
                (sym adds.same) adds.follows,
            adds.status,
          )

    -- For a plan that was built, a step is tried in a phase only after the steps of the phases before
    -- it were tried in their order and succeeded: the host is changed, if the action changes it at
    -- all, only after the preflight and the evidence, and verified only after that. No further step
    -- is tried.
    pub execute-Tried :
        (s : S) (action : Text) (version : ℤ) (p : Parameters) (plan : Plan) {t : S} {e : Execution}
        → build sha256 duration_text action version p ≡ ok plan
        → execute sha256 duration_text (some runner) s plan ≡ (t, ok e)
        → Tried (phases_of plan.definition.mutating) e.steps
    execute-Tried s action version p plan {t} {e} built done =
        Follows-Tried (phases_of plan.definition.mutating) plan.steps e.steps e.stopped
          (build_lem sha256 duration_text action version p plan built).3
          (execute-Follows s plan done).0

    -- And a plan that was built is executed: with a runner the answer is an execution.
    pub execute_built :
        (s : S) (action : Text) (version : ℤ) (p : Parameters) (plan : Plan)
        → build sha256 duration_text action version p ≡ ok plan
        → (t : S) × (e : Execution) × (execute sha256 duration_text (some runner) s plan
            ≡ (t, ok e))
    unfolding execute
    execute_built s action version p plan built =
        let have = build_lem sha256 duration_text action version p plan built in
        let done = run_steps runner s new_execution plan.steps in
        let some_steps : (length plan.steps == 0) ≡ false =
          phases-ne-nil plan.definition.mutating plan.steps have.3 in
        (done.0, done.1, rw (some_steps, have.2) refl)
