-- ===== src/Coordinator/Records.antt =====
-- Idempotency records: the first writer of a key wins until its record expires. Cancellation
-- signals: they are seen until they expire.
use vps_manager.Base.{
  ◌<◌, ◌≤◌, ◌≡◌, ◌≢◌, true, none, some, List, [], ◌∷◌, arith, Time, Duration, add_time, Text,
  lookup, insert, ltb, text_eq_iff, text_eq_refl, ok, lookup-insert, lookup-delete,
}
use vps_manager.Coordinator.Validation.{valid_input, valid_reference}
use vps_manager.Coordinator.{
  Coordinator, MemoryValue, put_idempotency, get_idempotency, acquire_lease, renew_lease,
  release_lease, request_cancellation, cancellation_requested, grant,
}
use vps_manager.Coordinator.Leases.{Call, acquires, puts, gets, step, run}

-- The call comes before a time, if it writes or reads idempotency records.
abbrev pub IsBefore : Time → Call → Type 0
IsBefore until (puts key result ttl now) = now < until
IsBefore until (gets key now) = now < until
IsBefore until _ = Unit

abbrev pub AllBefore : Time → List Call → Type 0
AllBefore until [] = Unit
AllBefore until (c ∷ cs) = IsBefore until c × AllBefore until cs

module _ (key : Text) (v : MemoryValue) where
  put-keeps :
      (m : Coordinator) (other result : Text) (ttl : Duration) (now : Time)
      → now < v.expires
      → lookup key m.idempotency ≡ some v
      → lookup key (put_idempotency m other result ttl now).0.idempotency ≡ some v
  unfolding put_idempotency
  put-keeps m other result ttl now live h = ground (
    arith,
    text_eq_iff other key,
    lookup-insert other key (record { value = result; expires = add_time now ttl }) m.idempotency,
  )

  get-keeps :
      (m : Coordinator) (other : Text) (now : Time)
      → now < v.expires
      → lookup key m.idempotency ≡ some v
      → lookup key (get_idempotency m other now).0.idempotency ≡ some v
  unfolding get_idempotency
  get-keeps m other now live h =
      ground (arith, text_eq_iff other key, lookup-delete other key m.idempotency)

  step-keeps :
      (m : Coordinator) (c : Call)
      → IsBefore v.expires c
      → lookup key m.idempotency ≡ some v
      → lookup key (step m c).idempotency ≡ some v
  unfolding step acquire_lease grant renew_lease release_lease request_cancellation
      cancellation_requested
  step-keeps m (puts other result ttl now) b h = put-keeps m other result ttl now b h
  step-keeps m (gets other now) b h = get-keeps m other now b h
  step-keeps m (acquires other owner ttl now none) b h = ground arith
  step-keeps m _ b h = ground arith

  run-keeps :
      (m : Coordinator) (cs : List Call)
      → AllBefore v.expires cs
      → lookup key m.idempotency ≡ some v
      → lookup key (run m cs).idempotency ≡ some v
  unfolding run
  run-keeps m [] b h = h
  run-keeps m (c ∷ cs) b h = run-keeps (step m c) cs b.1 (step-keeps m c b.0 h)

put-stored :
    (m : Coordinator) (key result : Text) (ttl : Duration) (now : Time)
    → (put_idempotency m key result ttl now).1 ≡ ok true
    → lookup key (put_idempotency m key result ttl now).0.idempotency
      ≡ some (record { value = result; expires = add_time now ttl })
unfolding put_idempotency
put-stored m key result ttl now h = ground (
  arith,
  text_eq_refl key,
  lookup-insert key key (record { value = result; expires = add_time now ttl }) m.idempotency,
)

valid_input-first :
    (a b : Text) (ttl : Duration) → valid_input a b ttl ≡ ok tt → valid_reference a ≡ ok tt
unfolding valid_input
valid_input-first a b ttl h = ground arith

put-valid :
    (m : Coordinator) (key result : Text) (ttl : Duration) (now : Time)
    → (put_idempotency m key result ttl now).1 ≡ ok true
    → valid_reference key ≡ ok tt
unfolding put_idempotency
put-valid m key result ttl now h = ground (arith, valid_input-first key result ttl)

-- The first writer wins: after a Put that created the record, and any calls before the record
-- expires, a Get returns the value that was put, and no Put of the key creates another, until then.
pub put_first_wins :
    (m : Coordinator) (key result : Text) (ttl : Duration) (start : Time) (cs : List Call)
    (other : Text) (period : Duration) (now : Time)
    → (put_idempotency m key result ttl start).1 ≡ ok true
    → AllBefore (add_time start ttl) cs
    → now < add_time start ttl
    → let m' = run (put_idempotency m key result ttl start).0 cs in
      ((get_idempotency m' key now).1 ≡ ok (some result))
      × ((put_idempotency m' key other period now).1 ≢ ok true)
put_first_wins m key result ttl start cs other period now put before live =
    let valid = put-valid m key result ttl start put in
    let v : MemoryValue = record { value = result; expires = add_time start ttl } in
    let m' = (put_idempotency m key result ttl start).0 in
    let kept = run-keeps key v m' cs before (put-stored m key result ttl start put) in
    (
      unfold get_idempotency in ground (arith, kept, valid),
      λ e. unfold put_idempotency in ground (arith, kept, e),
    )

-- A cancellation that was requested is seen before it expires, and not afterwards; asking does not
-- change what is seen later.
pub cancellation_seen :
    (m : Coordinator) (job : Text) (ttl : Duration) (start now later : Time)
    → (request_cancellation m job ttl start).1 ≡ ok tt
    → now ≤ later
    → let m' = (request_cancellation m job ttl start).0 in
      ((cancellation_requested m' job now).1 ≡ ok (ltb now (add_time start ttl)))
      × ((cancellation_requested (cancellation_requested m' job now).0 job later).1
          ≡ ok (ltb later (add_time start ttl)))
unfolding request_cancellation cancellation_requested
cancellation_seen m job ttl start now later h le =
    let stored = lookup-insert job job (add_time start ttl) m.cancel in
    let gone = lookup-delete job job (insert job (add_time start ttl) m.cancel) in
    let valid = valid_input-first job job ttl in
    (
      ground (arith, stored, text_eq_refl job, valid),
      ground (arith, stored, gone, text_eq_refl job, valid),
    )
