-- ===== src/Repository.antt =====
-- services/persistence/memory.go: the repository in memory. Its lock makes each method one step from
-- the state to the state and its result. The maps hold deep copies of what they are given, as values
-- are here. `decode` is what JSON decoding makes of a text.
pub mod Types
pub mod Secrets
pub mod Validation
pub mod Keys
pub mod Assets
pub mod Listings
pub mod Audits
mod Tests
use vps_manager.Base.{
  ℕ, ◌+◌, ◌%◌, ◌^◌, Bool, true, false, not, ◌&&◌, ◌||◌, Option, none, some, List, [], ◌∷◌, ◌++◌,
  map, Text, Table, Time, codes, length, take, keep_if, ℤ, any_of, lookup, insert, delete, ltb,
  ◌==◌, text_eq, text_lt, sort_by, if◌then◌else◌, Result, Check, ok, err, ◌>>=◌, ◌>>◌, or_fail,
}
use vps_manager.Encoding.Decimal.{itoa}
use Types.{
  Asset, CredentialEnvelope, Job, AuditEvent, AuditFilter, Error, not_found, conflict,
  normalize_limit,
}
use Secrets.{Json}
use Validation.{
  validate_identifier, validate_asset, validate_credential, validate_job, validate_audit,
}
use Keys.{composite}

pub record MemoryRepository : Type 0 where
  pub assets : Table Asset
  pub credentials : Table CredentialEnvelope
  pub jobs : Table Job
  pub audits : List AuditEvent

abbrev pub new_memory_repository : MemoryRepository
new_memory_repository = record { assets = []; credentials = []; jobs = []; audits = [] }

-- for _, v := range m
abbrev pub values {ℓ} : {V : Type ℓ} → Table V → List V
values [] = []
values ((k, v) ∷ m) = v ∷ values m

-- A check that fails leaves the state as it is and is the result.
abbrev pub checked {ℓ} : {S : Type ℓ} → Check Error → S → S × Check Error → S × Check Error
checked (err e) s r = (s, err e)
checked (ok u) s r = r

abbrev pub asset_key : Asset → Text
asset_key asset = composite (asset.installation_id ∷ asset.id ∷ [])

abbrev pub job_key : Job → Text
job_key job = composite (job.installation_id ∷ job.id ∷ [])

abbrev pub credential_key : CredentialEnvelope → Text
credential_key e = composite (e.installation_id ∷ e.credential_id ∷ itoa e.version ∷ [])

abbrev create_at {ℓ} : {V : Type ℓ} → Text → V → Table V → Option V → Table V × Check Error
create_at key v m (some current) = (m, err conflict)
create_at key v m none = (insert key v m, ok tt)

-- The update is of the version that the caller read, and to the next one.
abbrev pub is_next : ℕ → ℕ → ℕ → Bool
is_next current expected version = current == expected && version == (expected + 1) % 2 ^ 64

unfoldable pub create_asset : MemoryRepository → Asset → MemoryRepository × Check Error
create_asset r asset = checked (validate_asset asset) r (
    let done = create_at (asset_key asset) asset r.assets (lookup (asset_key asset) r.assets) in
    (record r { assets = done.0 }, done.1))

unfoldable pub get_asset : MemoryRepository → Text → Text → Result Error Asset
get_asset r installation_id id =
    or_fail (lookup (composite (installation_id ∷ id ∷ [])) r.assets) not_found

abbrev pub lists : Text → Text → Text → Text → Bool
lists installation_id after_id its_installation its_id =
    text_eq its_installation installation_id && text_lt after_id its_id

unfoldable pub list_assets : MemoryRepository → Text → ℤ → Text → Result Error (List Asset)
list_assets r installation_id limit after_id = do
  validate_identifier (codes "installation id") installation_id
  ok (
      take (normalize_limit limit) (
        sort_by (λ x y. text_lt x.id y.id)
          (keep_if (λ asset. lists installation_id after_id asset.installation_id asset.id)
            (values r.assets))))

abbrev update_asset_at :
    MemoryRepository → Asset → ℕ → Option Asset → MemoryRepository × Check Error
update_asset_at r asset expected none = (r, err not_found)
update_asset_at r asset expected (some current) =
    if not (is_next current.version expected asset.version)
    then (r, err conflict)
    else (record r { assets = insert (asset_key asset) asset r.assets }, ok tt)

unfoldable pub update_asset : MemoryRepository → Asset → ℕ → MemoryRepository × Check Error
update_asset r asset expected =
    checked (validate_asset asset) r
      (update_asset_at r asset expected (lookup (asset_key asset) r.assets))

abbrev delete_asset_at : MemoryRepository → Text → ℕ → Option Asset → MemoryRepository × Check Error
delete_asset_at r key expected none = (r, err not_found)
delete_asset_at r key expected (some current) =
    if not (current.version == expected)
    then (r, err conflict)
    else (record r { assets = delete key r.assets }, ok tt)

unfoldable pub delete_asset : MemoryRepository → Text → Text → ℕ → MemoryRepository × Check Error
delete_asset r installation_id id expected =
    delete_asset_at r (composite (installation_id ∷ id ∷ [])) expected
      (lookup (composite (installation_id ∷ id ∷ [])) r.assets)

unfoldable pub get_credential_envelope :
    MemoryRepository → Text → Text → ℕ → Result Error CredentialEnvelope
get_credential_envelope r installation_id credential_id version =
    or_fail (lookup (composite (installation_id ∷ credential_id ∷ itoa version ∷ [])) r.credentials)
      not_found

unfoldable pub get_job : MemoryRepository → Text → Text → Result Error Job
get_job r installation_id id =
    or_fail (lookup (composite (installation_id ∷ id ∷ [])) r.jobs) not_found

unfoldable pub list_jobs : MemoryRepository → Text → ℤ → Text → Result Error (List Job)
list_jobs r installation_id limit after_id = do
  validate_identifier (codes "installation id") installation_id
  ok (
      take (normalize_limit limit) (
        sort_by (λ x y. text_lt x.id y.id)
          (keep_if (λ job. lists installation_id after_id job.installation_id job.id)
            (values r.jobs))))

abbrev update_job_at : MemoryRepository → Job → ℕ → Option Job → MemoryRepository × Check Error
update_job_at r job expected none = (r, err not_found)
update_job_at r job expected (some current) =
    if not (is_next current.version expected job.version)
    then (r, err conflict)
    else (record r { jobs = insert (job_key job) job r.jobs }, ok tt)

-- An event of the same installation and id is there already.
abbrev pub is_same_event : AuditEvent → AuditEvent → Bool
is_same_event event existing =
    text_eq existing.installation_id event.installation_id && text_eq existing.id event.id

module _ (decode : Text → Option Json) where
  unfoldable pub put_credential_envelope :
      MemoryRepository → CredentialEnvelope → MemoryRepository × Check Error
  put_credential_envelope r e = checked (validate_credential decode e) r (
      let done =
        create_at (credential_key e) e r.credentials (lookup (credential_key e) r.credentials) in
      (record r { credentials = done.0 }, done.1))

  unfoldable pub create_job : MemoryRepository → Job → MemoryRepository × Check Error
  create_job r job = checked (validate_job decode job) r (
      let done = create_at (job_key job) job r.jobs (lookup (job_key job) r.jobs) in
      (record r { jobs = done.0 }, done.1))

  unfoldable pub update_job : MemoryRepository → Job → ℕ → MemoryRepository × Check Error
  update_job r job expected =
      checked (validate_job decode job) r
        (update_job_at r job expected (lookup (job_key job) r.jobs))

  unfoldable pub append_audit : MemoryRepository → AuditEvent → MemoryRepository × Check Error
  append_audit r event = checked (validate_audit decode event) r (
      if any_of (is_same_event event) r.audits
      then (r, err conflict)
      else (record r { audits = r.audits ++ event ∷ [] }, ok tt))

-- Where the page that is asked for begins.
abbrev pub on_page : AuditFilter → Text → AuditEvent → Bool
on_page filter before_id event =
    text_eq event.installation_id filter.installation_id
    && not (
        not (filter.before == 0)
        && (ltb filter.before event.timestamp
            || event.timestamp == filter.before && not (text_lt event.id before_id)))

-- Later events first; those of one moment by their ids, the greater first.
abbrev pub newer : AuditEvent → AuditEvent → Bool
newer x y = if x.timestamp == y.timestamp then text_lt y.id x.id else ltb y.timestamp x.timestamp

unfoldable pub list_audit : MemoryRepository → AuditFilter → Result Error (List AuditEvent)
list_audit r filter = do
  validate_identifier (codes "installation id") filter.installation_id
  (if length filter.before_id == 0
      then ok tt
      else validate_identifier (codes "audit cursor id") filter.before_id)
  ok (
      take (normalize_limit filter.limit) (
        sort_by newer (
          keep_if
            (on_page filter (if length filter.before_id == 0 then codes "~" else filter.before_id))
            r.audits)))
