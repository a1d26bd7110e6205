-- ===== src/Coordinator/Leases.antt =====
-- A lease has one holder at a time.
use vps_manager.Base.{
  ◌*◌, ◌<◌, ◌≡◌, ◌≢◌, refl, false, Option, none, some, List, [], ◌∷◌, arith, pos, ltb_ℤ, Time,
  Duration, add_time, second, hour, Text, lookup, text_eq_iff, text_eq_refl, ok, err, Option-cases,
  inl, inr, lookup-insert, lookup-delete,
}
use vps_manager.Encoding.Base64
use vps_manager.Coordinator.Validation.{Error}
use vps_manager.Coordinator.{
  Coordinator, Lease, MemoryLease, acquire_lease, renew_lease, release_lease, put_idempotency,
  get_idempotency, request_cancellation, cancellation_requested,
}

pub data Call : Type 0 where
  acquires : Text → Text → Duration → Time → Option Text → Call
  renews : Lease → Duration → Time → Call
  releases : Lease → Call
  puts : Text → Text → Duration → Time → Call
  gets : Text → Time → Call
  cancels : Text → Duration → Time → Call
  polls : Text → Time → Call

unfoldable pub step : Coordinator → Call → Coordinator
step m (acquires resource owner ttl now random) = (acquire_lease m resource owner ttl now random).0
step m (renews lease ttl now) = (renew_lease m lease ttl now).0
step m (releases lease) = (release_lease m lease).0
step m (puts key result ttl now) = (put_idempotency m key result ttl now).0
step m (gets key now) = (get_idempotency m key now).0
step m (cancels job ttl now) = (request_cancellation m job ttl now).0
step m (polls job now) = (cancellation_requested m job now).0

unfoldable pub run : Coordinator → List Call → Coordinator
unfolding step
run m [] = m
run m (c ∷ cs) = run (step m c) cs

-- The call is not the holder's: what it renews or releases bears another token, and the time at
-- which it would acquire is before the lease's end.
abbrev pub IsForeign : Text → Time → Call → Type 0
IsForeign token until (acquires resource owner ttl now random) = now < until
IsForeign token until (renews lease ttl now) = lease.token ≢ token
IsForeign token until (releases lease) = lease.token ≢ token
IsForeign token until _ = Unit

abbrev pub AllForeign : Text → Time → List Call → Type 0
AllForeign token until [] = Unit
AllForeign token until (c ∷ cs) = IsForeign token until c × AllForeign token until cs

-- An acquired lease is stored with its token, and with the end that the holder was told, which is
-- `ttl` later.
pub acquire-stored :
    (m : Coordinator) (resource owner : Text) (ttl : Duration) (now : Time) (random : Option Text)
    (l : Lease)
    → (acquire_lease m resource owner ttl now random).1 ≡ ok l
    → (l.resource ≡ resource)
      × (l.expires ≡ add_time now ttl)
      × (lookup resource (acquire_lease m resource owner ttl now random).0.leases
          ≡ some
              (record { token = l.token; owner = owner; expires = l.expires; resource = resource }))
unfolding acquire_lease
acquire-stored m resource owner ttl now none l h = ground arith
acquire-stored m resource owner ttl now (some raw) l h = (
  ground arith,
  ground arith,
  ground (
    arith,
    text_eq_refl resource,
    lookup-insert resource resource
        (record {
          token = Base64.encode raw;
          owner = owner;
          expires = add_time now ttl;
          resource = resource;
        })
        m.leases,
  ),
)

module _ (resource : Text) (l : MemoryLease) where
  acquire-keeps :
      (m : Coordinator) (other owner : Text) (ttl : Duration) (now : Time) (random : Option Text)
      → now < l.expires
      → lookup resource m.leases ≡ some l
      → lookup resource (acquire_lease m other owner ttl now random).0.leases ≡ some l
  unfolding acquire_lease
  acquire-keeps m other owner ttl now none live h = ground arith
  acquire-keeps m other owner ttl now (some raw) live h = ground (
    arith,
    text_eq_iff other resource,
    lookup-insert other resource
        (record {
          token = Base64.encode raw;
          owner = owner;
          expires = add_time now ttl;
          resource = other;
        })
        m.leases,
  )

  renew-keeps :
      (m : Coordinator) (lease : Lease) (ttl : Duration) (now : Time)
      → lease.token ≢ l.token
      → lookup resource m.leases ≡ some l
      → lookup resource (renew_lease m lease ttl now).0.leases ≡ some l
  unfolding renew_lease
  renew-keeps m lease ttl now ne h = elim (Option-cases (lookup lease.resource m.leases)) [
    | inl e ↦ ground arith
    | inr (k, e) ↦ ground (
      arith,
      text_eq_iff lease.resource resource,
      text_eq_iff k.token lease.token,
      lookup-insert lease.resource resource (record k { expires = add_time now ttl }) m.leases,
    )
  ]

  release-keeps :
      (m : Coordinator) (lease : Lease)
      → lease.token ≢ l.token
      → lookup resource m.leases ≡ some l
      → lookup resource (release_lease m lease).0.leases ≡ some l
  unfolding release_lease
  release-keeps m lease ne h = elim (Option-cases (lookup lease.resource m.leases)) [
    | inl e ↦ ground arith
    | inr (k, e) ↦ ground (
      arith,
      text_eq_iff lease.resource resource,
      text_eq_iff k.token lease.token,
      lookup-delete lease.resource resource m.leases,
    )
  ]

  step-keeps :
      (m : Coordinator) (c : Call)
      → IsForeign l.token l.expires c
      → lookup resource m.leases ≡ some l
      → lookup resource (step m c).leases ≡ some l
  unfolding step put_idempotency get_idempotency request_cancellation cancellation_requested
  step-keeps m (acquires other owner ttl now random) f h =
      acquire-keeps m other owner ttl now random f h
  step-keeps m (renews lease ttl now) f h = renew-keeps m lease ttl now f h
  step-keeps m (releases lease) f h = release-keeps m lease f h
  step-keeps m _ f h = ground arith

  -- While a lease runs, no calls of others move it: the stored lease stays as it is.
  pub run-keeps :
      (m : Coordinator) (cs : List Call)
      → AllForeign l.token l.expires cs
      → lookup resource m.leases ≡ some l
      → lookup resource (run m cs).leases ≡ some l
  unfolding run
  run-keeps m [] f h = h
  run-keeps m (c ∷ cs) f h = run-keeps (step m c) cs f.1 (step-keeps m c f.0 h)

held-acquire :
    (m : Coordinator) (resource owner : Text) (ttl : Duration) (now : Time) (random : Option Text)
    (l : MemoryLease) (k : Lease)
    → lookup resource m.leases ≡ some l
    → now < l.expires
    → (acquire_lease m resource owner ttl now random).1 ≢ ok k
unfolding acquire_lease
held-acquire m resource owner ttl now none l k h live e = ground arith
held-acquire m resource owner ttl now (some raw) l k h live e = ground arith

renew-held :
    (m : Coordinator) (lease : Lease) (k : MemoryLease) (period : Duration) (now : Time)
    → lookup lease.resource m.leases ≡ some k
    → k.token ≡ lease.token
    → now < k.expires
    → ltb_ℤ period (pos second) ≡ false
    → ltb_ℤ (pos (24 * hour)) period ≡ false
    → (renew_lease m lease period now).1 ≡ ok (record lease { expires = add_time now period })
unfolding renew_lease
renew-held m lease k period now h same live least most =
    rw (least, most, h) (ground (arith, same, text_eq_iff k.token lease.token))

module _ (m : Coordinator) (resource owner : Text) (ttl : Duration) (start : Time)
    (random : Option Text) (l : Lease)
    (granted : (acquire_lease m resource owner ttl start random).1 ≡ ok l) (cs : List Call)
    (foreign : AllForeign l.token l.expires cs) where
  -- Mutual exclusion: from the grant until the lease ends, after any calls of others, no acquisition
  -- of the resource succeeds.
  pub acquire_exclusive :
      (other : Text) (period : Duration) (now : Time) (drawn : Option Text) (k : Lease)
      → now < l.expires
      → (acquire_lease
          (run (acquire_lease m resource owner ttl start random).0 cs)
          resource
          other
          period
          now
          drawn).1
        ≢ ok k
  acquire_exclusive other period now drawn k live =
      let s = acquire-stored m resource owner ttl start random l granted in
      held-acquire _ resource other period now drawn _ k (run-keeps resource _ _ cs foreign s.2)
        live

  -- The holder can renew: from the grant until the lease ends, after any calls of others, a renewal
  -- for one second to 24 hours succeeds, and the lease then ends that much after the renewal.
  pub renew_succeeds :
      (period : Duration) (now : Time)
      → now < l.expires
      → ltb_ℤ period (pos second) ≡ false
      → ltb_ℤ (pos (24 * hour)) period ≡ false
      → (renew_lease (run (acquire_lease m resource owner ttl start random).0 cs) l period now).1
        ≡ ok (record l { expires = add_time now period })
  renew_succeeds period now live least most =
      let s = acquire-stored m resource owner ttl start random l granted in
      let k : MemoryLease = record {
        token = l.token;
        owner = owner;
        expires = l.expires;
        resource = resource;
      } in
      let m' = (acquire_lease m resource owner ttl start random).0 in
      renew-held (run m' cs) l k period now (rw s.0 (run-keeps resource k m' cs foreign s.2)) refl
        live least most

-- Fencing: after the resource has gone to a lease with another token, the old lease can neither be
-- renewed, for one second to 24 hours, nor released, and the attempt changes nothing.
pub fenced :
    (m : Coordinator) (old : Lease) (owner : Text) (ttl period : Duration) (start now : Time)
    (random : Option Text) (l : Lease)
    → (acquire_lease m old.resource owner ttl start random).1 ≡ ok l
    → l.token ≢ old.token
    → ltb_ℤ period (pos second) ≡ false
    → ltb_ℤ (pos (24 * hour)) period ≡ false
    → let m' = (acquire_lease m old.resource owner ttl start random).0 in
      (renew_lease m' old period now ≡ (m', err Error.lease_lost))
      × (release_lease m' old ≡ (m', err Error.lease_lost))
unfolding renew_lease release_lease
fenced m old owner ttl period start now random l granted ne least most =
    let s = acquire-stored m old.resource owner ttl start random l granted in
    (
      ground (arith, s, text_eq_iff l.token old.token),
      ground (arith, s, text_eq_iff l.token old.token),
    )
