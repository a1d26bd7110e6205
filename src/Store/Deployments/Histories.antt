-- ===== src/Store/Deployments/Histories.antt =====
-- Deployments through any calls of the operations on workers.
use vps_manager.Base.{
  ◌≡◌, inl, inr, true, false, not, ◌||◌, List, [], ◌∷◌, arith, ℤ, Time, Text, Table, lookup, insert,
  delete, text_eq, text_eq_iff, Check, ok, Bool-cases, Option-cases, Result-cases,
}
use vps_manager.Store.Types.{
  Memory, CloudflareWorker, StoredCloudflareToken, StoredCloudflareWorkerVersion,
  CloudflareDeployment, Error,
}
use vps_manager.Store.Workers.{
  create_worker, put_worker_token, delete_worker_token, create_worker_version, check_plan,
  plan_worker_deployment, ready_for_provider,
}
use vps_manager.Store.Deployments.{
  update_worker_version_provider, update_worker_deployment, valid_worker_deployment_transition,
}
use vps_manager.Store.Deployments.Lifecycle.{IsSound, transition-IsSound}

pub data Call : Type 0 where
  creates_worker : CloudflareWorker → Call
  puts_token : StoredCloudflareToken → Call
  deletes_token : Text → Call
  creates_version : StoredCloudflareWorkerVersion → Call
  plans : CloudflareDeployment → CloudflareWorker → Call
  uploads : Text → Text → Text → ℤ → Time → Call
  updates : CloudflareDeployment → Text → Call

-- Every deployment has the property.
abbrev pub Every : (CloudflareDeployment → Type 0) → Table CloudflareDeployment → Type 0
Every P [] = Unit
Every P ((k, d) ∷ m) = P d × Every P m

delete-Every :
    (P : CloudflareDeployment → Type 0) (id : Text) (m : Table CloudflareDeployment)
    → Every P m
    → Every P (delete id m)
unfolding delete
delete-Every P id [] h = tt
delete-Every P id ((k, d) ∷ m) h = elim (Bool-cases (text_eq k id)) [
  | inl same ↦ rw same (delete-Every P id m h.1)
  | inr other ↦ rw other (h.0, delete-Every P id m h.1)
]

module _ {ℓ} {Payload : Type ℓ} where
  unfoldable pub step : Memory Payload → Call → Memory Payload × Check Error
  step m (creates_worker worker) = create_worker m worker
  step m (puts_token token) = put_worker_token m token
  step m (deletes_token worker_id) = delete_worker_token m worker_id
  step m (creates_version version) = create_worker_version m version
  step m (plans deployment updated_at) = plan_worker_deployment m deployment updated_at
  step m (uploads worker_id version_id provider_version_id number uploaded_at) =
      update_worker_version_provider m worker_id version_id provider_version_id number uploaded_at
  step m (updates updated expected) = update_worker_deployment m updated expected

  unfoldable pub run : Memory Payload → List Call → Memory Payload
  run m [] = m
  run m (c ∷ calls) = run (step m c).0 calls

  check_plan-ready :
      (m : Memory Payload) (deployment : CloudflareDeployment)
      (updated_at worker : CloudflareWorker)
      → check_plan m deployment updated_at ≡ ok worker
      → (text_eq deployment.state ready_for_provider ≡ true)
        × (deployment.provider_execution_allowed ≡ false)
  unfolding check_plan
  check_plan-ready m deployment updated_at worker h =
      elim (Bool-cases (text_eq deployment.state ready_for_provider)) [
        | inr other ↦ ground (arith, h, other)
        | inl waits ↦ elim (Bool-cases deployment.provider_execution_allowed) [
          | inl allowed ↦ ground (arith, h, allowed)
          | inr not_allowed ↦ (waits, not_allowed)
        ]
      ]

  plan-IsSound :
      (m : Memory Payload) (deployment : CloudflareDeployment) (updated_at : CloudflareWorker)
      → Every IsSound m.worker_deployments
      → Every IsSound (plan_worker_deployment m deployment updated_at).0.worker_deployments
  unfolding plan_worker_deployment insert
  plan-IsSound m deployment updated_at h =
      elim (Result-cases (check_plan m deployment updated_at)) [
        | inr (e, no_) ↦ rw no_ h
        | inl (worker, yes_) ↦
            let ready = check_plan-ready m deployment updated_at worker yes_ in
            rw yes_ (
              inl ((text_eq_iff deployment.state ready_for_provider).0 ready.0, ready.1),
              delete-Every IsSound deployment.id m.worker_deployments h,
            )
      ]

  update-IsSound :
      (m : Memory Payload) (updated : CloudflareDeployment) (expected : Text)
      → Every IsSound m.worker_deployments
      → Every IsSound (update_worker_deployment m updated expected).0.worker_deployments
  unfolding update_worker_deployment insert
  update-IsSound m updated expected h =
      elim (Option-cases (lookup updated.id m.worker_deployments)) [
        | inl absent ↦ rw absent h
        | inr (current, present) ↦ elim (Bool-cases (text_eq current.worker_id updated.worker_id)) [
          | inr other ↦ ground (arith, present, other, h)
          | inl same ↦
              elim (Bool-cases (
                not (text_eq current.state expected)
                || not (valid_worker_deployment_transition current updated))) [
                  | inl refused ↦ rw (present, same, refused) h
                  | inr valid ↦
                      rw (present, same, valid)
                        (
                          transition-IsSound current updated (ground arith),
                          delete-Every IsSound updated.id m.worker_deployments h,
                        )
                ]
        ]
      ]

  step-IsSound :
      (m : Memory Payload) (c : Call)
      → Every IsSound m.worker_deployments
      → Every IsSound (step m c).0.worker_deployments
  unfolding step create_worker put_worker_token delete_worker_token create_worker_version
      update_worker_version_provider
  step-IsSound m (creates_worker worker) h = elim (Option-cases (lookup worker.id m.workers)) [
    | inl absent ↦ rw absent h
    | inr (w, present) ↦ rw present h
  ]
  step-IsSound m (puts_token token) h =
      elim (Option-cases (lookup token.metadata.worker_id m.workers)) [
        | inl absent ↦ rw absent h
        | inr (w, present) ↦ rw present h
      ]
  step-IsSound m (deletes_token worker_id) h =
      elim (Option-cases (lookup worker_id m.worker_tokens)) [
        | inl absent ↦ rw absent h
        | inr (w, present) ↦ rw present h
      ]
  step-IsSound m (creates_version version) h =
      elim (Option-cases (lookup version.metadata.worker_id m.workers)) [
        | inl absent ↦ rw absent h
        | inr (w, present) ↦ elim (Option-cases (lookup version.metadata.id m.worker_versions)) [
          | inl new ↦ rw (present, new) h
          | inr (v, old) ↦ rw (present, old) h
        ]
      ]
  step-IsSound m (plans deployment updated_at) h = plan-IsSound m deployment updated_at h
  step-IsSound m (uploads worker_id version_id provider_version_id number uploaded_at) h =
      ground arith
  step-IsSound m (updates updated expected) h = update-IsSound m updated expected h

  -- Whatever calls are made, every deployment that the store holds is sound for its state.
  pub deployments-IsSound :
      (m : Memory Payload) (calls : List Call)
      → Every IsSound m.worker_deployments
      → Every IsSound (run m calls).worker_deployments
  unfolding run
  deployments-IsSound m [] h = h
  deployments-IsSound m (c ∷ calls) h = deployments-IsSound (step m c).0 calls (step-IsSound m c h)
