-- ===== src/Store/Deployments/Lifecycle.antt =====
-- The states of a deployment.
use vps_manager.Base.{
  ◌≤◌, ◌≡◌, ◌≢◌, ◌⊎◌, inl, inr, refl, sym, true, false, ◌&&◌, Option, none, some, [], ◌∷◌, arith,
  Time, Text, codes, lookup, lookup-insert, text_eq, text_eq_iff, text_eq_refl, ok, err, Bool-cases,
  Option-cases,
}
use vps_manager.Store.Types.{Memory, CloudflareDeployment, conflict}
use vps_manager.Store.Workers.{ready_for_provider, running, succeeded, failed, is_empty, is_none}
use vps_manager.Store.Deployments.{
  started_since, finished_since, valid_finished_deployment, starts, succeeds, fails,
  valid_worker_deployment_transition, update_worker_deployment,
}

-- What a deployment in a state is: one that waits may not be executed; one that runs was started and
-- is not finished; one that succeeded or failed was started and then finished, and the provider has
-- made it active, or its error says why not.
abbrev pub IsSound : CloudflareDeployment → Type 0
IsSound d =
    ((d.state ≡ ready_for_provider) × (d.provider_execution_allowed ≡ false))
    ⊎ ((d.state ≡ running)
        × (s : Time) × (d.started_at ≡ some s)
        × (d.created_at ≤ s)
        × (d.finished_at ≡ none))
    ⊎ ((s : Time) × (u : Time) × (d.started_at ≡ some s)
        × (d.finished_at ≡ some u)
        × (d.created_at ≤ s)
        × (s ≤ u)
        × (((d.state ≡ succeeded) × (d.provider_state ≡ codes "active") × (d.error_code ≡ []))
            ⊎ ((d.state ≡ failed) × (d.error_code ≢ []))))

started :
    (s : Option Time) (created : Time)
    → started_since s created ≡ true
    → (t : Time) × (s ≡ some t) × (created ≤ t)
unfolding started_since
started none created h = cc
started (some t) created h = (t, refl, ground arith)

finished :
    (s u : Option Time) (created : Time)
    → started_since s created ≡ true
    → finished_since s u ≡ true
    → (a : Time) × (b : Time) × (s ≡ some a) × (u ≡ some b) × (created ≤ a) × (a ≤ b)
unfolding started_since finished_since
finished none u created h f = cc
finished (some a) none created h f = cc
finished (some a) (some b) created h f = (a, b, refl, refl, ground arith, ground arith)

empty_nil : (s : Text) → is_empty s ≡ true → s ≡ []
empty_nil [] h = refl
empty_nil (c ∷ s) h = ground arith

nonempty : (s : Text) → is_empty s ≡ false → s ≢ []
nonempty [] h = ground arith
nonempty (c ∷ s) h = cc

none_is : (s : Option Time) → is_none s ≡ true → s ≡ none
none_is none h = refl
none_is (some t) h = cc

pub transition-IsSound :
    (current updated : CloudflareDeployment)
    → valid_worker_deployment_transition current updated ≡ true
    → IsSound updated
unfolding valid_worker_deployment_transition starts succeeds fails valid_finished_deployment
transition-IsSound current d h =
    elim (Bool-cases (text_eq current.state ready_for_provider && text_eq d.state running)) [
      | inl first ↦
          let s = started d.started_at d.created_at (ground arith) in
          inr (
            inl (
              ground (arith, text_eq_iff d.state running),
              s.0,
              s.1,
              s.2,
              none_is d.finished_at (ground arith),
            ))
      | inr other ↦ elim (Bool-cases (text_eq current.state running && text_eq d.state succeeded)) [
        | inl good ↦
            let f =
              finished d.started_at d.finished_at d.created_at (ground arith) (ground arith) in
            inr (
              inr (
                f.0,
                f.1,
                f.2,
                f.3,
                f.4,
                f.5,
                inl (
                  ground (arith, text_eq_iff d.state succeeded),
                  ground (arith, text_eq_iff d.provider_state (codes "active")),
                  empty_nil d.error_code (ground arith),
                ),
              ))
        | inr bad ↦
            let f =
              finished d.started_at d.finished_at d.created_at (ground arith) (ground arith) in
            inr (
              inr (
                f.0,
                f.1,
                f.2,
                f.3,
                f.4,
                f.5,
                inr (
                  ground (arith, text_eq_iff d.state failed),
                  nonempty d.error_code (ground arith),
                ),
              ))
      ]
    ]

moves :
    (current updated : CloudflareDeployment)
    → valid_worker_deployment_transition current updated ≡ true
    → ((current.state ≡ ready_for_provider) × (updated.state ≡ running))
      ⊎ ((current.state ≡ running) × ((updated.state ≡ succeeded) ⊎ (updated.state ≡ failed)))
unfolding valid_worker_deployment_transition
moves current d h = ground (
  arith,
  text_eq_iff current.state ready_for_provider,
  text_eq_iff d.state running,
  text_eq_iff current.state running,
  text_eq_iff d.state succeeded,
  text_eq_iff d.state failed,
)

left_behind :
    (current updated : CloudflareDeployment) (expected : Text)
    → current.state ≡ expected
    → ((current.state ≡ ready_for_provider) × (updated.state ≡ running))
      ⊎ ((current.state ≡ running) × ((updated.state ≡ succeeded) ⊎ (updated.state ≡ failed)))
    → text_eq updated.state expected ≡ false
unfolding text_eq
left_behind current updated expected e (inl h) = rw (sym e, h.0, h.1) refl
left_behind current updated expected e (inr (r, inl h)) = rw (sym e, r, h) refl
left_behind current updated expected e (inr (r, inr h)) = rw (sym e, r, h) refl

no_moves :
    (current updated : CloudflareDeployment)
    → (current.state ≡ succeeded) ⊎ (current.state ≡ failed)
    → valid_worker_deployment_transition current updated ≡ false
unfolding valid_worker_deployment_transition text_eq
no_moves current updated (inl h) = rw h (ground arith)
no_moves current updated (inr h) = rw h (ground arith)

module _ {ℓ} {Payload : Type ℓ} where
  -- An update that is made finds the deployment in the state that was expected, is a transition that
  -- the rules allow, is what is stored afterwards, and is sound for its new state.
  pub update_deployment-IsSound :
      (m m' : Memory Payload) (updated : CloudflareDeployment) (expected : Text)
      → update_worker_deployment m updated expected ≡ (m', ok tt)
      → (current : CloudflareDeployment) × (lookup updated.id m.worker_deployments ≡ some current)
        × (current.state ≡ expected)
        × (lookup updated.id m'.worker_deployments ≡ some updated)
        × (valid_worker_deployment_transition current updated ≡ true)
        × IsSound updated
  unfolding update_worker_deployment
  update_deployment-IsSound m m' updated expected h =
      elim (Option-cases (lookup updated.id m.worker_deployments)) [
        | inl absent ↦ ground (arith, h, absent)
        | inr (current, present) ↦
            let valid : valid_worker_deployment_transition current updated ≡ true =
              ground (arith, h, present) in
            (
              current,
              present,
              ground (arith, h, present, text_eq_iff current.state expected),
              ground (
                arith,
                h,
                present,
                lookup-insert updated.id updated.id updated m.worker_deployments,
                text_eq_refl updated.id,
              ),
              valid,
              transition-IsSound current updated valid,
            )
      ]

  -- After an update from a state, another update of the same deployment that expects that state is
  -- refused as a conflict and changes nothing: of two executors that start it, one goes on.
  pub second_executor_refused :
      (m m' : Memory Payload) (updated other : CloudflareDeployment) (expected : Text)
      → update_worker_deployment m updated expected ≡ (m', ok tt)
      → other.id ≡ updated.id
      → other.worker_id ≡ updated.worker_id
      → update_worker_deployment m' other expected ≡ (m', err conflict)
  unfolding update_worker_deployment
  second_executor_refused m m' updated other expected h i w =
      let s = update_deployment-IsSound m m' updated expected h in
      let move = moves s.0 updated s.4 in
      let left : text_eq updated.state expected ≡ false =
        left_behind s.0 updated expected s.2 move in
      rw (i, s.3, w, text_eq_refl updated.worker_id, left) refl

  -- A deployment that succeeded or failed is never updated again.
  pub finished_absorbs :
      (m : Memory Payload) (current updated : CloudflareDeployment) (expected : Text)
      → lookup updated.id m.worker_deployments ≡ some current
      → (current.state ≡ succeeded) ⊎ (current.state ≡ failed)
      → updated.worker_id ≡ current.worker_id
      → update_worker_deployment m updated expected ≡ (m, err conflict)
  unfolding update_worker_deployment
  finished_absorbs m current updated expected found done w =
      let stuck : valid_worker_deployment_transition current updated ≡ false =
        no_moves current updated done in
      let same : text_eq current.worker_id updated.worker_id ≡ true =
        (text_eq_iff current.worker_id updated.worker_id).1 (sym w) in
      ground (arith, found, same, stuck)
