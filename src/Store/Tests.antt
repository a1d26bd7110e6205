-- ===== src/Store/Tests.antt =====
-- A store with a host, a log and a deployment, and the theorems at it.
use vps_manager.Base.{
  ℕ, ◌≡◌, refl, true, false, none, some, List, [], ◌∷◌, map, pos, Text, codes, ok, err, lookup,
  insert, delete, text_eq, take,
}
use mathlib.Core.List.{reverse}
use vps_manager.Access.Grants.{admin}
use vps_manager.Audit.{end}
use vps_manager.Store.Types.{
  Host, StoredCredential, AuditEvent, CloudflareWorker, StoredCloudflareToken,
  StoredCloudflareWorkerVersion, CloudflareDeployment, Envelope, Memory, new_memory, conflict,
}
use vps_manager.Store.{clone_audit, append_audit, list_audits, update_host}
use vps_manager.Store.Hosts
use vps_manager.Store.Hosts.{IsBacked, credentials-IsBacked, stale_update_conflicts}
use vps_manager.Store.Log.{Shows, list_audits_newest}
use vps_manager.Store.Workers.{ready_for_provider, running, failed}
use vps_manager.Store.Deployments.{
  update_worker_deployment, valid_worker_deployment_transition, same_deployment, starts,
  started_since,
}
use vps_manager.Store.Deployments.Lifecycle.{IsSound, second_executor_refused}
use vps_manager.Store.Deployments.Histories.{
  creates_worker, puts_token, creates_version, plans, updates, Every, run, deployments-IsSound,
  Call,
}

abbrev empty : Memory ℕ
empty = new_memory

abbrev web : Host
web = record {
  id = codes "h1";
  name = codes "web";
  address = codes "10.0.0.1";
  port = pos 22;
  username = codes "root";
  labels = [];
  host_key = none;
  version = 1;
  created_at = 5;
  updated_at = 5;
}

abbrev sealed : Envelope
sealed = record {
  ciphertext = codes "c";
  nonce = codes "n";
  wrapped_key = codes "w";
  key_nonce = codes "k";
  key_id = codes "key";
}

abbrev key_of_web : StoredCredential
key_of_web = record {
  metadata = record {
    id = codes "c1";
    host_id = codes "h1";
    kind = codes "private_key";
    public_key_fingerprint = [];
    key_id = codes "key";
    created_at = 6;
    created_by = codes "alice";
  };
  envelope = sealed;
}

abbrev host_calls : List Hosts.Call
host_calls = Hosts.creates web ∷ Hosts.puts key_of_web ∷ Hosts.deletes (codes "h1") ∷ []

credentials-IsBacked_example :
    IsBacked (Hosts.run empty host_calls).hosts (Hosts.run empty host_calls).credentials
credentials-IsBacked_example = credentials-IsBacked empty host_calls tt

abbrev one_host : Memory ℕ
one_host = record empty { hosts = (codes "h1", web) ∷ [] }

abbrev renamed : Host
renamed = record web { name = codes "www"; version = 2 }

renames : update_host one_host renamed 1 ≡ ((update_host one_host renamed 1).0, ok tt)
unfolding update_host lookup insert delete text_eq
renames = refl

abbrev event_of : Text → AuditEvent
event_of id = record {
  id = id;
  timestamp = 3;
  actor = codes "alice";
  role = admin;
  action = codes "host.create";
  target_type = codes "host";
  target_id = codes "h1";
  outcome = codes "ok";
  request_id = [];
  details = end;
}

abbrev logged : Memory ℕ
logged = append_audit (append_audit empty (event_of (codes "e1"))) (event_of (codes "e2"))

list_audits_newest_example :
    (n : ℕ) × Shows (pos 1) n
    × (list_audits logged (pos 1) ≡ map clone_audit (take n (reverse logged.audits)))
list_audits_newest_example = list_audits_newest logged (pos 1)

abbrev site : CloudflareWorker
site = record {
  id = codes "w1";
  name = codes "site";
  account_id = codes "a";
  script_name = codes "site";
  desired_version_id = [];
  version = 1;
  created_at = 2;
  updated_at = 2;
}

abbrev token : StoredCloudflareToken
token = record {
  metadata = record {
    id = codes "t1";
    worker_id = codes "w1";
    kind = codes "api_token";
    key_id = codes "key";
    created_at = 2;
    created_by = codes "alice";
  };
  envelope = sealed;
}

abbrev first_version : StoredCloudflareWorkerVersion
first_version = record {
  metadata = record {
    id = codes "v1";
    worker_id = codes "w1";
    sha256 = codes "00";
    size_bytes = pos 3;
    content_type = codes "application/javascript+module";
    entrypoint = codes "index.js";
    state = codes "stored";
    provider_version_id = [];
    provider_version_number = pos 0;
    provider_uploaded_at = none;
    created_at = 3;
    created_by = codes "alice";
  };
  code = codes "x";
}

abbrev planned : CloudflareDeployment
planned = record {
  id = codes "d1";
  worker_id = codes "w1";
  version_id = codes "v1";
  previous_desired_version_id = [];
  kind = codes "deploy";
  state = ready_for_provider;
  provider_execution_allowed = false;
  provider_version_id = [];
  provider_deployment_id = [];
  provider_state = [];
  error_code = [];
  started_at = none;
  finished_at = none;
  created_at = 4;
  created_by = codes "alice";
}

abbrev begun : CloudflareDeployment
begun = record planned { state = running; provider_execution_allowed = true; started_at = some 5 }

abbrev failed_at_9 : CloudflareDeployment
failed_at_9 = record begun { state = failed; error_code = codes "timeout"; finished_at = some 9 }

abbrev worker_calls : List Call
worker_calls =
    creates_worker site
    ∷ puts_token token
    ∷ creates_version first_version
    ∷ plans planned (record site { desired_version_id = codes "v1"; version = 2 })
    ∷ updates begun ready_for_provider
    ∷ updates failed_at_9 running
    ∷ []

deployments-IsSound_example : Every IsSound (run empty worker_calls).worker_deployments
deployments-IsSound_example = deployments-IsSound empty worker_calls tt

abbrev waiting : Memory ℕ
waiting = record empty { worker_deployments = (codes "d1", planned) ∷ [] }

begins :
    update_worker_deployment waiting begun ready_for_provider
    ≡ ((update_worker_deployment waiting begun ready_for_provider).0, ok tt)
unfolding update_worker_deployment valid_worker_deployment_transition same_deployment starts
    started_since lookup insert delete text_eq
begins = refl

second_executor_refused_example :
    update_worker_deployment
      (update_worker_deployment waiting begun ready_for_provider).0
      (record begun { started_at = some 6 })
      ready_for_provider
    ≡ ((update_worker_deployment waiting begun ready_for_provider).0, err conflict)
second_executor_refused_example =
    second_executor_refused waiting (update_worker_deployment waiting begun ready_for_provider).0
      begun (record begun { started_at = some 6 }) ready_for_provider begins refl refl

abbrev ended : Memory ℕ
ended = record empty { worker_deployments = (codes "d1", failed_at_9) ∷ [] }

there : lookup (codes "d1") ended.worker_deployments ≡ some failed_at_9
unfolding lookup text_eq
there = refl
