-- ===== src/Repository/Types.antt =====
-- services/persistence/types.go: the records, the errors and the limits of listings.
use vps_manager.Base.{ℕ, zero, suc, Option, ℤ, pos, negsuc, ltb, Time, Text, Table, if◌then◌else◌}

pub record HostKeyPin : Type 0 where
  pub algorithm : Text
  pub fingerprint_sha256 : Text
  pub public_key : Text
  pub confirmed_at : Time
  pub confirmed_by : Text

pub record Asset : Type 0 where
  pub installation_id : Text
  pub id : Text
  pub name : Text
  pub address : Text
  pub port : ℤ
  pub username : Text
  pub labels : Table Text
  pub host_key : Option HostKeyPin
  pub version : ℕ
  pub created_at : Time
  pub updated_at : Time

pub record CredentialEnvelope : Type 0 where
  pub installation_id : Text
  pub credential_id : Text
  pub version : ℕ
  pub kind : Text
  pub key_id : Text
  pub ciphertext : Text
  pub cipher_nonce : Text
  pub wrapped_key : Text
  pub wrapped_key_nonce : Text
  pub metadata : Text
  pub created_at : Time

pub record Job : Type 0 where
  pub installation_id : Text
  pub id : Text
  pub kind : Text
  pub asset_id : Text
  pub state : Text
  pub requested_by : Text
  pub request_id : Text
  pub idempotency_key : Text
  pub parameters : Text
  pub result : Text
  pub error_code : Text
  pub error_message : Text
  pub version : ℕ
  pub created_at : Time
  pub started_at : Option Time
  pub finished_at : Option Time
  pub updated_at : Time

pub record AuditEvent : Type 0 where
  pub installation_id : Text
  pub id : Text
  pub timestamp : Time
  pub actor : Text
  pub role : Text
  pub action : Text
  pub target_type : Text
  pub target_id : Text
  pub outcome : Text
  pub request_id : Text
  pub job_id : Text
  pub details : Text

-- `before` is 0 where the source's is the zero time.
pub record AuditFilter : Type 0 where
  pub installation_id : Text
  pub before : Time
  pub before_id : Text
  pub limit : ℤ

-- `invalid` is an error of a text alone, `identifier_invalid` one that names what is invalid.
pub data Error : Type 0 where
  not_found conflict unsafe_json : Error
  invalid identifier_invalid : Text → Error

abbrev pub default_list_limit : ℕ
default_list_limit = 100

abbrev pub max_list_limit : ℕ
max_list_limit = 500

abbrev pub max_json_bytes : ℕ
max_json_bytes = 1048576

unfoldable pub normalize_limit : ℤ → ℕ
normalize_limit (negsuc n) = default_list_limit
normalize_limit (pos zero) = default_list_limit
normalize_limit (pos (suc n)) = if ltb max_list_limit (suc n) then max_list_limit else suc n
