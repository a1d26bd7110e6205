-- ===== src/StepUp/Histories.antt =====
-- The manager under any sequence of calls, as the lock orders them.
use vps_manager.Base.{
  ℕ, ◌≤◌, ◌≡◌, ◌≢◌, true, false, not, ◌&&◌, Option, none, some, List, [], ◌∷◌, arith, ℤ, Time, Text,
  IsBytes, IsMap, lookup, keep, length, ltb, text_eq, text_eq_iff, ok, Option-cases, inl, inr,
  lookup-insert, lookup-delete, keep-none, keep-IsMap, delete-IsMap, length-insert-le,
  length-delete-le, length-keep-le, text_eq_ne, keep-dropped,
}
use vps_manager.Encoding.Base64
use vps_manager.StepUp.Validation.{Binding, valid_binding}
use vps_manager.StepUp.{
  Manager, Entry, Ticket, IssueRequest, FactorVerifier, request_binding, issue, consume,
  revoke_session, new, redeem, redeem_raw, new_entry, digest_binding,
}
use vps_manager.StepUp.Tickets.{
  consume-redeem, redeem-gone, redeem-absent, redeem-found, issue-stored, issue-IsMap,
}

-- One call of the API. An issue comes with the random bytes that it draws.
pub data Call : Type 0 where
  issues : IssueRequest → Time → Option Text → Call
  consumes : Text → Binding → Time → Call
  revokes : Text → Call

module _ (sha256 : Text → Text) (verify : FactorVerifier) where
  pub step : Manager → Call → Manager
  step m (issues r now random) = (issue sha256 verify m r now random).0
  step m (consumes value b now) = (consume sha256 m value b now).0
  step m (revokes session_id) = (revoke_session sha256 m session_id).0

  pub run : Manager → List Call → Manager
  unfolding step
  run m [] = m
  run m (c ∷ cs) = run (step m c) cs

-- At most `capacity` tickets, each under one digest.
pub record IsValid (capacity : ℕ) (m : Manager) : Type 0 where
  pub same : m.capacity ≡ capacity
  pub bounded : length m.tickets ≤ m.capacity
  pub keys : IsMap m.tickets

-- The call draws no ticket with this digest.
abbrev pub Avoids : (Text → Text) → Text → Call → Type 0
Avoids sha256 digest (issues r now (some raw)) = sha256 raw ≢ digest
Avoids sha256 digest _ = Unit

abbrev pub AllAvoid : (Text → Text) → Text → List Call → Type 0
AllAvoid sha256 digest [] = Unit
AllAvoid sha256 digest (c ∷ cs) = Avoids sha256 digest c × AllAvoid sha256 digest cs

module _ (sha256 : Text → Text) (verify : FactorVerifier) (n : ℕ) where
  issue-IsValid :
      (m : Manager) (r : IssueRequest) (now : Time) (random : Option Text)
      → IsValid n m
      → IsValid n (issue sha256 verify m r now random).0
  unfolding issue
  issue-IsValid m r now none v = ground arith
  issue-IsValid m r now (some raw) v =
      let kept = keep (λ (x : Entry). ltb now x.expires_at) m.tickets in
      record {
        same = ground (arith, v.same);
        bounded = ground (
          arith,
          v.bounded,
          length-keep-le (λ (x : Entry). ltb now x.expires_at) m.tickets,
          length-insert-le (sha256 raw) (new_entry sha256 r now) kept,
        );
        keys = issue-IsMap sha256 verify m r now (some raw) v.keys;
      }

  redeem-IsValid :
      (m : Manager) (digest : Text) (b : Binding) (now : Time)
      → IsValid n m
      → IsValid n (redeem sha256 m digest b now).0
  unfolding redeem
  redeem-IsValid m digest b now v =
      let kept = keep (λ (x : Entry). ltb now x.expires_at) m.tickets in
      let ok_keys = keep-IsMap (λ (x : Entry). ltb now x.expires_at) m.tickets v.keys in
      ground (
        arith,
        ok_keys,
        delete-IsMap digest kept ok_keys,
        length-keep-le (λ (x : Entry). ltb now x.expires_at) m.tickets,
        length-delete-le digest kept,
      )

  consume-IsValid :
      (m : Manager) (value : Text) (b : Binding) (now : Time)
      → IsValid n m
      → IsValid n (consume sha256 m value b now).0
  unfolding consume redeem_raw
  consume-IsValid m value b now v = elim (Option-cases (Base64.decode true value)) [
    | inl e ↦ ground arith
    | inr (raw, e) ↦ ground (arith, redeem-IsValid m (sha256 raw) b now v)
  ]

  step-IsValid : (m : Manager) (c : Call) → IsValid n m → IsValid n (step sha256 verify m c)
  unfolding step revoke_session
  step-IsValid m (issues r now random) v = issue-IsValid m r now random v
  step-IsValid m (consumes value b now) v = consume-IsValid m value b now v
  step-IsValid m (revokes session_id) v =
      let other = λ (e : Entry). not (text_eq (sha256 session_id) e.session_digest) in
      ground (arith, keep-IsMap other m.tickets v.keys, length-keep-le other m.tickets)

  -- Whatever calls are made, there are at most `capacity` tickets, under distinct digests.
  pub run-IsValid :
      (m : Manager) (cs : List Call) → IsValid n m → IsValid n (run sha256 verify m cs)
  unfolding run
  run-IsValid m [] v = v
  run-IsValid m (c ∷ cs) v = run-IsValid (step sha256 verify m c) cs (step-IsValid m c v)

-- New gives a valid manager.
pub new-IsValid : (requested : ℤ) (m : Manager) → new requested ≡ ok m → IsValid m.capacity m
unfolding new
new-IsValid requested m h = ground arith

module _ (sha256 : Text → Text) (verify : FactorVerifier) (digest : Text) where
  issue-absent :
      (m : Manager) (r : IssueRequest) (now : Time) (random : Option Text)
      → Avoids sha256 digest (issues r now random)
      → lookup digest m.tickets ≡ none
      → lookup digest (issue sha256 verify m r now random).0.tickets ≡ none
  unfolding issue
  issue-absent m r now none a h = ground arith
  issue-absent m r now (some raw) a h =
      let live = λ (x : Entry). ltb now x.expires_at in
      ground (
        arith,
        keep-none live digest m.tickets h,
        lookup-insert (sha256 raw) digest (new_entry sha256 r now) (keep live m.tickets),
        text_eq_ne (sha256 raw) digest a,
      )

  redeem-absent_other :
      (m : Manager) (other : Text) (b : Binding) (now : Time)
      → lookup digest m.tickets ≡ none
      → lookup digest (redeem sha256 m other b now).0.tickets ≡ none
  unfolding redeem
  redeem-absent_other m other b now h =
      let live = λ (x : Entry). ltb now x.expires_at in
      ground
        (arith, keep-none live digest m.tickets h, lookup-delete other digest (keep live m.tickets))

  consume-absent :
      (m : Manager) (value : Text) (b : Binding) (now : Time)
      → lookup digest m.tickets ≡ none
      → lookup digest (consume sha256 m value b now).0.tickets ≡ none
  unfolding consume redeem_raw
  consume-absent m value b now h = elim (Option-cases (Base64.decode true value)) [
    | inl e ↦ ground arith
    | inr (raw, e) ↦ ground (arith, redeem-absent_other m (sha256 raw) b now h)
  ]

  step-absent :
      (m : Manager) (c : Call)
      → Avoids sha256 digest c
      → lookup digest m.tickets ≡ none
      → lookup digest (step sha256 verify m c).tickets ≡ none
  unfolding step revoke_session
  step-absent m (issues r now random) a h = issue-absent m r now random a h
  step-absent m (consumes value b now) a h = consume-absent m value b now h
  step-absent m (revokes session_id) a h =
      keep-none (λ (e : Entry). not (text_eq (sha256 session_id) e.session_digest)) digest m.tickets
        h

  run-absent :
      (m : Manager) (cs : List Call)
      → AllAvoid sha256 digest cs
      → lookup digest m.tickets ≡ none
      → lookup digest (run sha256 verify m cs).tickets ≡ none
  unfolding run
  run-absent m [] a h = h
  run-absent m (c ∷ cs) a h = run-absent (step sha256 verify m c) cs a.1 (step-absent m c a.0 h)

module _ (sha256 : Text → Text) (verify : FactorVerifier) (m : Manager) where
  -- A ticket that was just issued is accepted exactly with the digest of the binding that it was
  -- issued for, and before it expires, for any valid binding that is presented.
  pub consume-issue :
      (r : IssueRequest) (issued : Time) (raw : Text) (t : Ticket) (b : Binding) (now : Time)
      → IsMap m.tickets
      → IsBytes raw
      → length raw ≡ 32
      → (issue sha256 verify m r issued (some raw)).1 ≡ ok t
      → valid_binding b ≡ ok tt
      → (consume sha256 (issue sha256 verify m r issued (some raw)).0 t.value b now).1 ≡ (
          ltb now t.expires_at
          && text_eq (digest_binding sha256 b) (digest_binding sha256 (request_binding r)))
  unfolding new_entry
  consume-issue r issued raw t b now hm hb hl hi hv =
      let s = issue-stored sha256 verify m r issued raw t hi in
      let m' = (issue sha256 verify m r issued (some raw)).0 in
      rw (s.2, s.3, consume-redeem sha256 m' raw b now hb hl hv)
        (redeem-found sha256 m' raw b now (new_entry sha256 r issued)
          (issue-IsMap sha256 verify m r issued (some raw) hm) s.1)

  -- A ticket value is good for one attempt: after a Consume with a valid binding, right or wrong,
  -- whatever calls follow that draw no ticket with the same digest, no Consume of it succeeds.
  pub consume_once :
      (raw : Text) (first second : Binding) (t u : Time) (cs : List Call)
      → IsBytes raw
      → length raw ≡ 32
      → valid_binding first ≡ ok tt
      → valid_binding second ≡ ok tt
      → AllAvoid sha256 (sha256 raw) cs
      → (consume sha256
          (run sha256 verify (consume sha256 m (Base64.encode raw) first t).0 cs)
          (Base64.encode raw)
          second
          u).1
        ≡ false
  consume_once raw first second t u cs hb hl hf hs ha =
      rw (consume-redeem sha256 m raw first t hb hl hf) (
        let later = run sha256 verify (redeem sha256 m (sha256 raw) first t).0 cs in
        rw (consume-redeem sha256 later raw second u hb hl hs) (
          redeem-absent sha256 later raw second u
            (run-absent sha256 verify (sha256 raw) _ cs ha (redeem-gone sha256 m raw first t))))

-- After RevokeSession no ticket that was issued for the session is redeemed.
pub revoke-consume :
    (sha256 : Text → Text) (m : Manager) (session_id : Text) (raw : Text) (b : Binding) (now : Time)
    (e : Entry)
    → IsMap m.tickets
    → IsBytes raw
    → length raw ≡ 32
    → valid_binding b ≡ ok tt
    → lookup (sha256 raw) m.tickets ≡ some e
    → e.session_digest ≡ sha256 session_id
    → (consume sha256 (revoke_session sha256 m session_id).0 (Base64.encode raw) b now).1 ≡ false
unfolding revoke_session
revoke-consume sha256 m session_id raw b now e hm hb hl hv he hs =
    let other = λ (x : Entry). not (text_eq (sha256 session_id) x.session_digest) in
    let m' : Manager = record m { tickets = keep other m.tickets } in
    rw (consume-redeem sha256 m' raw b now hb hl hv) (
      redeem-absent sha256 m' raw b now (
        keep-dropped other (sha256 raw) e m.tickets hm he
          (ground (arith, hs, text_eq_iff (sha256 session_id) e.session_digest))))
