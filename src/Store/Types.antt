-- ===== src/Store/Types.antt =====
-- services/control-plane/internal/model: the records that the store keeps, and its state.
use vps_manager.Base.{ℕ, Bool, Option, List, [], ℤ, Time, Text, Table}
use vps_manager.Access.Grants.{Role}
use vps_manager.Audit.{Members}
use vps_manager.Jobs.{Job}

pub record HostKeyPin : Type 0 where
  pub algorithm : Text
  pub fingerprint_sha256 : Text
  pub public_key : Text
  pub confirmed_at : Time
  pub confirmed_by : Text

pub record Host : Type 0 where
  pub id : Text
  pub name : Text
  pub address : Text
  pub port : ℤ
  pub username : Text
  pub labels : Table Text
  pub host_key : Option HostKeyPin
  pub version : ℕ
  pub created_at : Time
  pub updated_at : Time

pub record CredentialMetadata : Type 0 where
  pub id : Text
  pub host_id : Text
  pub kind : Text
  pub public_key_fingerprint : Text
  pub key_id : Text
  pub created_at : Time
  pub created_by : Text

pub record Envelope : Type 0 where
  pub ciphertext : Text
  pub nonce : Text
  pub wrapped_key : Text
  pub key_nonce : Text
  pub key_id : Text

pub record StoredCredential : Type 0 where
  pub metadata : CredentialMetadata
  pub envelope : Envelope

pub record AuditEvent : Type 0 where
  pub id : Text
  pub timestamp : Time
  pub actor : Text
  pub role : Role
  pub action : Text
  pub target_type : Text
  pub target_id : Text
  pub outcome : Text
  pub request_id : Text
  pub details : Members

pub record CloudflareWorker : Type 0 where
  pub id : Text
  pub name : Text
  pub account_id : Text
  pub script_name : Text
  pub desired_version_id : Text
  pub version : ℕ
  pub created_at : Time
  pub updated_at : Time

pub record CloudflareTokenMetadata : Type 0 where
  pub id : Text
  pub worker_id : Text
  pub kind : Text
  pub key_id : Text
  pub created_at : Time
  pub created_by : Text

pub record StoredCloudflareToken : Type 0 where
  pub metadata : CloudflareTokenMetadata
  pub envelope : Envelope

pub record CloudflareWorkerVersion : Type 0 where
  pub id : Text
  pub worker_id : Text
  pub sha256 : Text
  pub size_bytes : ℤ
  pub content_type : Text
  pub entrypoint : Text
  pub state : Text
  pub provider_version_id : Text
  pub provider_version_number : ℤ
  pub provider_uploaded_at : Option Time
  pub created_at : Time
  pub created_by : Text

pub record StoredCloudflareWorkerVersion : Type 0 where
  pub metadata : CloudflareWorkerVersion
  pub code : Text

pub record CloudflareDeployment : Type 0 where
  pub id : Text
  pub worker_id : Text
  pub version_id : Text
  pub previous_desired_version_id : Text
  pub kind : Text
  pub state : Text
  pub provider_execution_allowed : Bool
  pub provider_version_id : Text
  pub provider_deployment_id : Text
  pub provider_state : Text
  pub error_code : Text
  pub started_at : Option Time
  pub finished_at : Option Time
  pub created_at : Time
  pub created_by : Text

pub data Error : Type 0 where
  not_found conflict : Error

pub record Memory {ℓ} (Payload : Type ℓ) : Type ℓ where
  pub hosts : Table Host
  pub credentials : Table StoredCredential
  pub jobs : Table (Job Payload)
  pub audits : List AuditEvent
  pub workers : Table CloudflareWorker
  pub worker_tokens : Table StoredCloudflareToken
  pub worker_versions : Table StoredCloudflareWorkerVersion
  pub worker_deployments : Table CloudflareDeployment

abbrev pub new_memory {ℓ} : {Payload : Type ℓ} → Memory Payload
new_memory = record {
  hosts = [];
  credentials = [];
  jobs = [];
  audits = [];
  workers = [];
  worker_tokens = [];
  worker_versions = [];
  worker_deployments = [];
}
