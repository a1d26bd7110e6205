-- ===== src/Store.antt =====
-- services/control-plane/internal/store/memory.go: hosts, their credentials, jobs and the audit log.
-- The lock makes each method one step from the state to the state and its result. The maps hold deep
-- copies of what they are given, as values are here; only the copy of an audit event changes it.
pub mod Types
pub mod Hosts
pub mod Log
pub mod Workers
pub mod Deployments
mod Tests
use vps_manager.Base.{
  ℕ, zero, suc, ◌-◌, Bool, true, false, not, ◌||◌, ◌==◌, Option, none, some, List, [], ◌∷◌, ◌++◌,
  map, ℤ, pos, negsuc, leb_ℤ, ltb_ℤ, Text, Table, lookup, insert, delete, ltb, leb, length, sort_by,
  if◌then◌else◌, Result, Check, ok, err, or_fail,
}
use vps_manager.Audit.{sanitize_details}
use vps_manager.Jobs.{Job}
use Types.{Memory, Host, StoredCredential, AuditEvent, Error, not_found, conflict}

-- for _, v := range m
abbrev pub values {ℓ} : {V : Type ℓ} → Table V → List V
values [] = []
values ((k, v) ∷ m) = v ∷ values m

-- cloneAudit
pub clone_audit : AuditEvent → AuditEvent
clone_audit event = record event { details = sanitize_details event.details }

-- m.audits[i]
unfoldable pub event_at : List AuditEvent → ℕ → List AuditEvent
event_at [] i = []
event_at (event ∷ events) zero = event ∷ []
event_at (event ∷ events) (suc i) = event_at events i

-- for i := n - 1; i >= start; i-- { result = append(result, clone(audits[i])) }
unfoldable pub back_to : List AuditEvent → ℕ → ℕ → List AuditEvent
back_to audits start zero = []
back_to audits start (suc i) =
    let rest = back_to audits start i in
    if leb start i then map clone_audit (event_at audits i) ++ rest else []

-- if limit <= 0 || limit > 500 { limit = 100 }
pub audit_limit : ℤ → ℕ
audit_limit (negsuc n) = 100
audit_limit (pos n) = if n == 0 || ltb 500 n then 100 else n

module _ {ℓ} {Payload : Type ℓ} where
  abbrev create_host_at : Memory Payload → Host → Option Host → Memory Payload × Check Error
  create_host_at m host (some current) = (m, err conflict)
  create_host_at m host none = (record m { hosts = insert host.id host m.hosts }, ok tt)

  pub create_host : Memory Payload → Host → Memory Payload × Check Error
  create_host m host = create_host_at m host (lookup host.id m.hosts)

  pub get_host : Memory Payload → Text → Result Error Host
  get_host m id = or_fail (lookup id m.hosts) not_found

  pub list_hosts : Memory Payload → List Host
  list_hosts m = sort_by (λ x y. ltb x.created_at y.created_at) (values m.hosts)

  abbrev update_host_at : Memory Payload → Host → ℕ → Option Host → Memory Payload × Check Error
  update_host_at m host expected none = (m, err not_found)
  update_host_at m host expected (some current) =
      if not (current.version == expected)
      then (m, err conflict)
      else (record m { hosts = insert host.id host m.hosts }, ok tt)

  pub update_host : Memory Payload → Host → ℕ → Memory Payload × Check Error
  update_host m host expected = update_host_at m host expected (lookup host.id m.hosts)

  abbrev delete_host_at : Memory Payload → Text → Option Host → Memory Payload × Check Error
  delete_host_at m id none = (m, err not_found)
  delete_host_at m id (some current) =
      (record m { hosts = delete id m.hosts; credentials = delete id m.credentials }, ok tt)

  pub delete_host : Memory Payload → Text → Memory Payload × Check Error
  delete_host m id = delete_host_at m id (lookup id m.hosts)

  abbrev put_credential_at :
      Memory Payload → StoredCredential → Option Host → Memory Payload × Check Error
  put_credential_at m credential none = (m, err not_found)
  put_credential_at m credential (some host) = (
    record m { credentials = insert credential.metadata.host_id credential m.credentials },
    ok tt,
  )

  pub put_credential : Memory Payload → StoredCredential → Memory Payload × Check Error
  put_credential m credential =
      put_credential_at m credential (lookup credential.metadata.host_id m.hosts)

  pub get_credential : Memory Payload → Text → Result Error StoredCredential
  get_credential m host_id = or_fail (lookup host_id m.credentials) not_found

  abbrev delete_credential_at :
      Memory Payload → Text → Option StoredCredential → Memory Payload × Check Error
  delete_credential_at m host_id none = (m, err not_found)
  delete_credential_at m host_id (some current) =
      (record m { credentials = delete host_id m.credentials }, ok tt)

  pub delete_credential : Memory Payload → Text → Memory Payload × Check Error
  delete_credential m host_id = delete_credential_at m host_id (lookup host_id m.credentials)

  abbrev create_job_at :
      Memory Payload → Job Payload → Option (Job Payload) → Memory Payload × Check Error
  create_job_at m job (some current) = (m, err conflict)
  create_job_at m job none = (record m { jobs = insert job.id job m.jobs }, ok tt)

  pub create_job : Memory Payload → Job Payload → Memory Payload × Check Error
  create_job m job = create_job_at m job (lookup job.id m.jobs)

  pub get_job : Memory Payload → Text → Result Error (Job Payload)
  get_job m id = or_fail (lookup id m.jobs) not_found

  pub list_jobs : Memory Payload → List (Job Payload)
  list_jobs m = sort_by (λ x y. ltb y.created_at x.created_at) (values m.jobs)

  -- The error of a mutation is the store's own or the caller's.
  module _ {κ} {E : Type κ} (of_store : Error → E)
      (mutate : Job Payload → Result E (Job Payload)) where
    abbrev store_job :
        Memory Payload → Text → Result E (Job Payload) → Memory Payload × Result E (Job Payload)
    store_job m id (err e) = (m, err e)
    store_job m id (ok updated) = (record m { jobs = insert id updated m.jobs }, ok updated)

    abbrev mutate_job_at :
        Memory Payload → Text → Option (Job Payload) → Memory Payload × Result E (Job Payload)
    mutate_job_at m id none = (m, err (of_store not_found))
    mutate_job_at m id (some job) = store_job m id (mutate job)

    unfoldable pub mutate_job : Memory Payload → Text → Memory Payload × Result E (Job Payload)
    mutate_job m id = mutate_job_at m id (lookup id m.jobs)

  pub append_audit : Memory Payload → AuditEvent → Memory Payload
  append_audit m event = record m { audits = m.audits ++ clone_audit event ∷ [] }

  -- `start` is len(audits) - limit, and 0 where that is negative.
  pub list_audits : Memory Payload → ℤ → List AuditEvent
  list_audits m limit = back_to m.audits (length m.audits - audit_limit limit) (length m.audits)
