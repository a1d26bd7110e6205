-- ===== src/Store/Deployments.antt =====
-- services/control-plane/internal/store/cloudflare_execution.go: what the provider's execution does to
-- versions and deployments.
pub mod Histories
pub mod Lifecycle
use vps_manager.Base.{
  Bool, true, false, not, ◌&&◌, ◌||◌, ◌==◌, Option, none, some, List, [], ◌∷◌, ℤ, pos, ltb_ℤ, Time,
  Text, codes, lookup, insert, leb, length, text_eq, if◌then◌else◌, Result, Check, ok, err,
}
use vps_manager.Store.Types.{
  Memory, StoredCloudflareWorkerVersion, CloudflareDeployment, Error, not_found, conflict,
}
use vps_manager.Store.Workers.{
  ready_for_provider, running, succeeded, failed, is_empty, is_none, version_of,
}

-- *d.StartedAt is set and not before `created`; *d.FinishedAt is set and not before the start.
unfoldable pub started_since : Option Time → Time → Bool
started_since none created = false
started_since (some started) created = leb created started

unfoldable pub finished_since : Option Time → Option Time → Bool
finished_since (some started) (some finished) = leb started finished
finished_since _ _ = false

unfoldable pub valid_finished_deployment : CloudflareDeployment → Bool
valid_finished_deployment d =
    started_since d.started_at d.created_at && finished_since d.started_at d.finished_at

-- What no update may change, and that the provider may execute.
unfoldable pub same_deployment : CloudflareDeployment → CloudflareDeployment → Bool
same_deployment current updated =
    text_eq updated.id current.id
    && text_eq updated.worker_id current.worker_id
    && text_eq updated.version_id current.version_id
    && text_eq updated.previous_desired_version_id current.previous_desired_version_id
    && text_eq updated.kind current.kind
    && updated.created_at == current.created_at
    && text_eq updated.created_by current.created_by
    && updated.provider_execution_allowed

unfoldable pub starts : CloudflareDeployment → Bool
starts d =
    started_since d.started_at d.created_at
    && is_none d.finished_at
    && is_empty d.error_code
    && is_empty d.provider_deployment_id
    && is_empty d.provider_state

unfoldable pub succeeds : CloudflareDeployment → Bool
unfolding valid_finished_deployment
succeeds d =
    valid_finished_deployment d
    && is_empty d.error_code
    && not (is_empty d.provider_version_id)
    && not (is_empty d.provider_deployment_id)
    && text_eq d.provider_state (codes "active")

unfoldable pub fails : CloudflareDeployment → Bool
unfolding valid_finished_deployment
fails d =
    valid_finished_deployment d && not (is_empty d.error_code) && leb (length d.error_code) 128

unfoldable pub valid_worker_deployment_transition :
    CloudflareDeployment → CloudflareDeployment → Bool
unfolding same_deployment starts succeeds fails
valid_worker_deployment_transition current updated =
    if not (same_deployment current updated)
    then false
    else if text_eq current.state ready_for_provider && text_eq updated.state running
    then starts updated
    else if text_eq current.state running && text_eq updated.state succeeded
    then succeeds updated
    else if text_eq current.state running && text_eq updated.state failed
    then fails updated
    else false

-- The deployment is there, and is the worker's.
abbrev deployment_of : Text → Option CloudflareDeployment → Result Error CloudflareDeployment
deployment_of worker_id none = err not_found
deployment_of worker_id (some d) = if text_eq d.worker_id worker_id then ok d else err not_found

module _ {ℓ} {Payload : Type ℓ} where
  abbrev update_version_at :
      Memory Payload
      → Text
      → Text
      → ℤ
      → Time
      → Result Error StoredCloudflareWorkerVersion
      → Memory Payload × Check Error
  update_version_at m version_id provider_version_id number uploaded_at (err e) = (m, err e)
  update_version_at m version_id provider_version_id number uploaded_at (ok version) = (
    record m {
      worker_versions =
          insert version_id
            (record version {
              metadata = record version.metadata {
                provider_version_id = provider_version_id;
                provider_version_number = number;
                provider_uploaded_at = some uploaded_at;
              };
            })
            m.worker_versions;
    },
    ok tt,
  )

  -- An upload time of 0 is the zero time.
  pub update_worker_version_provider :
      Memory Payload → Text → Text → Text → ℤ → Time → Memory Payload × Check Error
  update_worker_version_provider m worker_id version_id provider_version_id number uploaded_at =
      if is_empty worker_id
        || is_empty version_id
        || is_empty provider_version_id
        || ltb_ℤ number (pos 0)
        || uploaded_at == 0
      then (m, err conflict)
      else update_version_at m version_id provider_version_id number uploaded_at
          (version_of worker_id (lookup version_id m.worker_versions))

  pub get_worker_deployment : Memory Payload → Text → Text → Result Error CloudflareDeployment
  get_worker_deployment m worker_id deployment_id =
      deployment_of worker_id (lookup deployment_id m.worker_deployments)

  abbrev update_deployment_at :
      Memory Payload
      → CloudflareDeployment
      → Text
      → Result Error CloudflareDeployment
      → Memory Payload × Check Error
  update_deployment_at m updated expected (err e) = (m, err e)
  update_deployment_at m updated expected (ok current) =
      if not (text_eq current.state expected)
        || not (valid_worker_deployment_transition current updated)
      then (m, err conflict)
      else (record m { worker_deployments = insert updated.id updated m.worker_deployments }, ok tt)

  unfoldable pub update_worker_deployment :
      Memory Payload → CloudflareDeployment → Text → Memory Payload × Check Error
  unfolding valid_worker_deployment_transition
  update_worker_deployment m updated expected =
      update_deployment_at m updated expected
        (deployment_of updated.worker_id (lookup updated.id m.worker_deployments))
