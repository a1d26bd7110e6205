-- ===== src/Store/Workers.antt =====
-- services/control-plane/internal/store/cloudflare.go: workers, their tokens and
-- versions, and plans of deployments.
use vps_manager.Base.{
  ◌+◌, ◌%◌, ◌^◌, Bool, true, false, not, ◌&&◌, ◌||◌, ◌==◌, Option, none, some, List, map, Text,
  codes, keep_if, lookup, insert, delete, ltb, length, sort_by, text_eq, if◌then◌else◌, Result,
  Check, ok, err, or_fail, ◌>>=◌, ◌>>◌, guard, reject_if,
}
use vps_manager.Store.Types.{
  Memory, CloudflareWorker, CloudflareWorkerVersion, StoredCloudflareToken,
  StoredCloudflareWorkerVersion, CloudflareDeployment, Error, not_found, conflict,
}
use vps_manager.Store.{values}

abbrev pub ready_for_provider : Text
ready_for_provider = codes "ready_for_provider"

abbrev pub running : Text
running = codes "running"

abbrev pub succeeded : Text
succeeded = codes "succeeded"

abbrev pub failed : Text
failed = codes "failed"

abbrev pub is_empty : Text → Bool
is_empty s = length s == 0

abbrev pub is_none {ℓ} : {A : Type ℓ} → Option A → Bool
is_none none = true
is_none (some a) = false

-- The version is there, and is the worker's.
abbrev pub version_of :
    Text → Option StoredCloudflareWorkerVersion → Result Error StoredCloudflareWorkerVersion
version_of worker_id none = err not_found
version_of worker_id (some version) =
    if text_eq version.metadata.worker_id worker_id then ok version else err not_found

abbrev is_there {κ} : {A : Type κ} → Option A → Check Error
is_there none = err not_found
is_there (some a) = ok tt

module _ {ℓ} {Payload : Type ℓ} where
  abbrev create_worker_at :
      Memory Payload → CloudflareWorker → Option CloudflareWorker → Memory Payload × Check Error
  create_worker_at m worker (some current) = (m, err conflict)
  create_worker_at m worker none = (record m { workers = insert worker.id worker m.workers }, ok tt)

  unfoldable pub create_worker : Memory Payload → CloudflareWorker → Memory Payload × Check Error
  create_worker m worker = create_worker_at m worker (lookup worker.id m.workers)

  pub get_worker : Memory Payload → Text → Result Error CloudflareWorker
  get_worker m id = or_fail (lookup id m.workers) not_found

  pub list_workers : Memory Payload → List CloudflareWorker
  list_workers m = sort_by (λ x y. ltb x.created_at y.created_at) (values m.workers)

  abbrev put_worker_token_at :
      Memory Payload
      → StoredCloudflareToken
      → Option CloudflareWorker
      → Memory Payload × Check Error
  put_worker_token_at m token none = (m, err not_found)
  put_worker_token_at m token (some worker) =
      (record m { worker_tokens = insert token.metadata.worker_id token m.worker_tokens }, ok tt)

  unfoldable pub put_worker_token :
      Memory Payload → StoredCloudflareToken → Memory Payload × Check Error
  put_worker_token m token = put_worker_token_at m token (lookup token.metadata.worker_id m.workers)

  pub get_worker_token : Memory Payload → Text → Result Error StoredCloudflareToken
  get_worker_token m worker_id = or_fail (lookup worker_id m.worker_tokens) not_found

  abbrev delete_worker_token_at :
      Memory Payload → Text → Option StoredCloudflareToken → Memory Payload × Check Error
  delete_worker_token_at m worker_id none = (m, err not_found)
  delete_worker_token_at m worker_id (some token) =
      (record m { worker_tokens = delete worker_id m.worker_tokens }, ok tt)

  unfoldable pub delete_worker_token : Memory Payload → Text → Memory Payload × Check Error
  delete_worker_token m worker_id =
      delete_worker_token_at m worker_id (lookup worker_id m.worker_tokens)

  abbrev create_worker_version_at :
      Memory Payload
      → StoredCloudflareWorkerVersion
      → Option CloudflareWorker
      → Option StoredCloudflareWorkerVersion
      → Memory Payload × Check Error
  create_worker_version_at m version none existing = (m, err not_found)
  create_worker_version_at m version (some worker) (some existing) = (m, err conflict)
  create_worker_version_at m version (some worker) none =
      (record m { worker_versions = insert version.metadata.id version m.worker_versions }, ok tt)

  unfoldable pub create_worker_version :
      Memory Payload → StoredCloudflareWorkerVersion → Memory Payload × Check Error
  create_worker_version m version =
      create_worker_version_at m version (lookup version.metadata.worker_id m.workers)
        (lookup version.metadata.id m.worker_versions)

  pub get_worker_version : Memory Payload → Text → Text → Result Error StoredCloudflareWorkerVersion
  get_worker_version m worker_id version_id =
      version_of worker_id (lookup version_id m.worker_versions)

  pub list_worker_versions : Memory Payload → Text → List CloudflareWorkerVersion
  list_worker_versions m worker_id =
      sort_by (λ x y. ltb y.created_at x.created_at)
        (map (λ v. v.metadata)
          (keep_if (λ v. text_eq v.metadata.worker_id worker_id) (values m.worker_versions)))

  -- Everything that a plan is refused for, in the source's order; else the worker.
  unfoldable pub check_plan :
      Memory Payload → CloudflareDeployment → CloudflareWorker → Result Error CloudflareWorker
  check_plan m deployment updated_at = do
    reject_if
        (not (text_eq deployment.kind (codes "deploy"))
            && not (text_eq deployment.kind (codes "rollback"))
          || not (text_eq deployment.state ready_for_provider)
          || deployment.provider_execution_allowed)
        conflict
    worker ← or_fail (lookup deployment.worker_id m.workers) not_found
    version ← version_of worker.id (lookup deployment.version_id m.worker_versions)
    is_there (lookup worker.id m.worker_tokens)
    guard (is_none (lookup deployment.id m.worker_deployments)) conflict
    guard (text_eq deployment.previous_desired_version_id worker.desired_version_id) conflict
    reject_if
        (text_eq deployment.kind (codes "rollback")
          && (is_empty worker.desired_version_id
              || text_eq worker.desired_version_id deployment.version_id))
        conflict
    guard
        (text_eq updated_at.id worker.id
          && updated_at.version == (worker.version + 1) % 2 ^ 64
          && text_eq updated_at.desired_version_id deployment.version_id)
        conflict
    ok worker

  abbrev plan_checked :
      Memory Payload
      → CloudflareDeployment
      → CloudflareWorker
      → Result Error CloudflareWorker
      → Memory Payload × Check Error
  plan_checked m deployment updated_at (err e) = (m, err e)
  plan_checked m deployment updated_at (ok worker) = (
    record m {
      worker_deployments = insert deployment.id deployment m.worker_deployments;
      workers = insert worker.id updated_at m.workers;
    },
    ok tt,
  )

  unfoldable pub plan_worker_deployment :
      Memory Payload → CloudflareDeployment → CloudflareWorker → Memory Payload × Check Error
  unfolding check_plan
  plan_worker_deployment m deployment updated_at =
      plan_checked m deployment updated_at (check_plan m deployment updated_at)

  pub list_worker_deployments : Memory Payload → Text → List CloudflareDeployment
  list_worker_deployments m worker_id =
      sort_by (λ x y. ltb y.created_at x.created_at)
        (keep_if (λ d. text_eq d.worker_id worker_id) (values m.worker_deployments))
