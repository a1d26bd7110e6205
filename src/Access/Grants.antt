-- ===== src/Access/Grants.antt =====
-- The roles, the permissions, and which role is granted which. A role is a text in the source: the
-- four constants, or any other, which has no grants.
use vps_manager.Base.{Bool, true, false, not, ◌||◌, ◌≡◌, refl, arith, Text}

pub data Role : Type 0 where
  viewer operator admin auditor : Role
  unlisted : Text → Role

pub data Permission : Type 0 where
  hosts_read hosts_write hosts_delete host_key_pin host_key_replace credentials_manage : Permission
  jobs_read snapshots_run commands_run anomaly_scans_run terminal_sessions_open : Permission
  runbooks_preview runbooks_execute jobs_cancel workers_read workers_write : Permission
  worker_tokens_manage worker_deployments_plan worker_deployments_run audit_read : Permission
  session_revoke_self : Permission

viewer_grants : Permission → Bool
viewer_grants hosts_read = true
viewer_grants jobs_read = true
viewer_grants workers_read = true
viewer_grants session_revoke_self = true
viewer_grants _ = false

operator_grants : Permission → Bool
operator_grants hosts_read = true
operator_grants hosts_write = true
operator_grants host_key_pin = true
operator_grants jobs_read = true
operator_grants snapshots_run = true
operator_grants commands_run = true
operator_grants anomaly_scans_run = true
operator_grants terminal_sessions_open = true
operator_grants runbooks_preview = true
operator_grants runbooks_execute = true
operator_grants jobs_cancel = true
operator_grants workers_read = true
operator_grants workers_write = true
operator_grants worker_deployments_plan = true
operator_grants session_revoke_self = true
operator_grants _ = false

admin_grants : Permission → Bool
admin_grants hosts_read = true
admin_grants hosts_write = true
admin_grants hosts_delete = true
admin_grants host_key_pin = true
admin_grants host_key_replace = true
admin_grants credentials_manage = true
admin_grants jobs_read = true
admin_grants snapshots_run = true
admin_grants commands_run = true
admin_grants anomaly_scans_run = true
admin_grants terminal_sessions_open = true
admin_grants runbooks_preview = true
admin_grants runbooks_execute = true
admin_grants jobs_cancel = true
admin_grants workers_read = true
admin_grants workers_write = true
admin_grants worker_tokens_manage = true
admin_grants worker_deployments_plan = true
admin_grants worker_deployments_run = true
admin_grants audit_read = true
admin_grants session_revoke_self = true

auditor_grants : Permission → Bool
auditor_grants hosts_read = true
auditor_grants jobs_read = true
auditor_grants workers_read = true
auditor_grants audit_read = true
auditor_grants session_revoke_self = true
auditor_grants _ = false

-- Allowed
unfoldable pub allowed : Role → Permission → Bool
unfolding viewer_grants operator_grants admin_grants auditor_grants
allowed viewer p = viewer_grants p
allowed operator p = operator_grants p
allowed admin p = admin_grants p
allowed auditor p = auditor_grants p
allowed (unlisted name) p = false

-- ValidRole
unfoldable pub valid_role : Role → Bool
valid_role (unlisted name) = false
valid_role viewer = true
valid_role operator = true
valid_role admin = true
valid_role auditor = true

-- The permissions that change hosts, jobs, credentials or workers.
pub data Changes : Permission → Type 0 where
  writes_hosts : Changes hosts_write
  deletes_hosts : Changes hosts_delete
  pins : Changes host_key_pin
  replaces : Changes host_key_replace
  manages_credentials : Changes credentials_manage
  runs_snapshots : Changes snapshots_run
  runs_commands : Changes commands_run
  runs_scans : Changes anomaly_scans_run
  opens_terminals : Changes terminal_sessions_open
  previews : Changes runbooks_preview
  executes : Changes runbooks_execute
  cancels : Changes jobs_cancel
  writes_workers : Changes workers_write
  manages_tokens : Changes worker_tokens_manage
  plans : Changes worker_deployments_plan
  deploys : Changes worker_deployments_run

-- Every permission of a viewer is an operator's and an auditor's, and every permission of any role is
-- an administrator's.
pub roles_ordered :
    (r : Role) (p : Permission)
    → ((not (allowed viewer p) || allowed operator p) ≡ true)
      × ((not (allowed viewer p) || allowed auditor p) ≡ true)
      × ((not (allowed r p) || allowed admin p) ≡ true)
unfolding allowed
roles_ordered r hosts_read = (refl, refl, ground arith)
roles_ordered r _ = (ground arith, ground arith, ground arith)

-- Viewers and auditors can change nothing.
pub readers_change_nothing :
    {p : Permission} → Changes p → (allowed viewer p ≡ false) × (allowed auditor p ≡ false)
unfolding allowed
readers_change_nothing writes_hosts = (refl, refl)
readers_change_nothing _ = (refl, refl)
