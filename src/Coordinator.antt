-- ===== src/Coordinator.antt =====
-- services/persistence/coordinator.go: leases, idempotency records and cancellation signals. The
-- in-memory coordinator's lock makes each method one step from the state to the state and its result;
-- `now` is what its clock returns, `random` what `rand.Read` gave, `none` if it failed.
pub mod Validation
pub mod Leases
pub mod Records
mod Tests
use vps_manager.Base.{
  ℕ, ◌+◌, ◌*◌, Bool, true, false, not, ◌&&◌, ◌||◌, Option, none, some, [], ◌∷◌, pos, ltb_ℤ, Time,
  Duration, add_time, second, hour, Text, Table, lookup, insert, delete, ltb, text_eq,
  if◌then◌else◌, Result, Check, ok, err, ◌>>=◌, ◌>>◌, reject_if, or_fail,
}
use mathlib.Core.Option
use vps_manager.Encoding.Base64
use Validation.{Error, valid_input, valid_reference, valid_identifier}

pub record Lease : Type 0 where
  pub key : Text
  pub token : Text
  pub expires : Time
  pub resource : Text

pub record MemoryLease : Type 0 where
  pub token : Text
  pub owner : Text
  pub expires : Time
  pub resource : Text

pub record MemoryValue : Type 0 where
  pub value : Text
  pub expires : Time

pub record Coordinator : Type 0 where
  pub leases : Table MemoryLease
  pub idempotency : Table MemoryValue
  pub cancel : Table Time

abbrev pub empty : Coordinator
empty = record { leases = []; idempotency = []; cancel = [] }

-- randomToken: the 32 random bytes in base64
abbrev pub random_token : Option Text → Result Error Text
random_token none = err Error.random_failed
random_token (some raw) = ok (Base64.encode raw)

-- There is an entry, and it has not expired.
abbrev pub is_held : Option MemoryLease → Time → Bool
is_held none now = false
is_held (some l) now = ltb now l.expires

abbrev pub is_live : Option MemoryValue → Time → Bool
is_live none now = false
is_live (some v) now = ltb now v.expires

pub grant : Coordinator → Text → Text → Duration → Time → Text → Coordinator × Result Error Lease
grant m resource owner ttl now token =
    if is_held (lookup resource m.leases) now then (m, err Error.lease_held) else (
      record m {
        leases =
            insert resource
              (record {
                token = token;
                owner = owner;
                expires = add_time now ttl;
                resource = resource;
              })
              m.leases;
      },
      ok (record {
        key = resource;
        token = token;
        expires = add_time now ttl;
        resource = resource;
      }),
    )

pub acquire_lease :
    Coordinator → Text → Text → Duration → Time → Option Text → Coordinator × Result Error Lease
unfolding grant
acquire_lease m resource owner ttl now random = elim (valid_input resource owner ttl) [
  | err e ↦ (m, err e)
  | ok _ ↦ elim (random_token random) [
    | err e ↦ (m, err e)
    | ok token ↦ grant m resource owner ttl now token
  ]
]

-- The stored lease bears the token and has not expired.
abbrev pub renewable : Option MemoryLease → Text → Time → Bool
renewable none token now = false
renewable (some l) token now = text_eq l.token token && ltb now l.expires

abbrev extend : Option MemoryLease → Text → Time → Table MemoryLease → Table MemoryLease
extend none resource expires leases = leases
extend (some l) resource expires leases = insert resource (record l { expires = expires }) leases

pub renew_lease : Coordinator → Lease → Duration → Time → Coordinator × Result Error Lease
renew_lease m lease ttl now =
    if ltb_ℤ ttl (pos second) || ltb_ℤ (pos (24 * hour)) ttl
    then (m, err Error.ttl_invalid)
    else if not (renewable (lookup lease.resource m.leases) lease.token now)
    then (m, err Error.lease_lost)
    else (
      record m {
        leases = extend (lookup lease.resource m.leases) lease.resource (add_time now ttl) m.leases;
      },
      ok (record lease { expires = add_time now ttl }),
    )

abbrev bears : Option MemoryLease → Text → Bool
bears none token = false
bears (some l) token = text_eq l.token token

pub release_lease : Coordinator → Lease → Coordinator × Check Error
release_lease m lease =
    if not (bears (lookup lease.resource m.leases) lease.token)
    then (m, err Error.lease_lost)
    else (record m { leases = delete lease.resource m.leases }, ok tt)

pub put_idempotency : Coordinator → Text → Text → Duration → Time → Coordinator × Result Error Bool
put_idempotency m key result ttl now =
    elim (valid_input key result ttl >> valid_identifier result) [
      | err e ↦ (m, err e)
      | ok _ ↦ if is_live (lookup key m.idempotency) now then (m, ok false) else (
        record m {
          idempotency =
              insert key (record { value = result; expires = add_time now ttl }) m.idempotency;
        },
        ok true,
      )
    ]

-- The value, or `none` for "not found"; what has expired is deleted.
pub get_idempotency : Coordinator → Text → Time → Coordinator × Result Error (Option Text)
get_idempotency m key now = elim (valid_reference key) [
  | err e ↦ (m, err e)
  | ok _ ↦
      if is_live (lookup key m.idempotency) now
      then (m, ok (Option.map (λ v. v.value) (lookup key m.idempotency)))
      else (record m { idempotency = delete key m.idempotency }, ok none)
]

pub request_cancellation : Coordinator → Text → Duration → Time → Coordinator × Check Error
request_cancellation m job ttl now = elim (valid_input job job ttl) [
  | err e ↦ (m, err e)
  | ok _ ↦ (record m { cancel = insert job (add_time now ttl) m.cancel }, ok tt)
]

abbrev pub is_pending : Option Time → Time → Bool
is_pending none now = false
is_pending (some expires) now = ltb now expires

pub cancellation_requested : Coordinator → Text → Time → Coordinator × Result Error Bool
cancellation_requested m job now = elim (valid_reference job) [
  | err e ↦ (m, err e)
  | ok _ ↦
      if is_pending (lookup job m.cancel) now
      then (m, ok true)
      else (record m { cancel = delete job m.cancel }, ok false)
]
