-- ===== src/Identity/Once.antt =====
-- services/control-plane/internal/identity/assertion.go: an assertion is accepted once.
use vps_manager.Base.{
  ◌+◌, ◌-◌, ◌<◌, ◌≤◌, ◌≡◌, ◌≢◌, refl, sym, ap, ◌∙◌, inl, inr, Bool, Option, true, false, some, List,
  [], ◌∷◌, arith, Time, Text, All, All-map, lookup, text_eq_iff, text_eq_refl, ltb, lookup-insert,
  keep-kept, Bool-cases, Option-cases, Result-cases, Result, ok,
}
use mathlib.Core.Path.{subst}
use vps_manager.Access.{Principal}
use vps_manager.RequestAuth.Headers.{unix_time}
use vps_manager.Identity.{
  Verifier, Claims, Header, Error, read_assertion, accept_claims, verify, consume, live, is_known,
}
use vps_manager.Identity.Validity.{IsValid, accept_claims-IsValid}

-- A call of Verify: the assertion, the clock when its claims are validated, and when it is consumed.
pub record Call : Type 0 where
  pub assertion : Text
  pub now : Time
  pub consumed_at : Time

-- The verifier differs in its consumed ids alone, and the id under the key is kept until the deadline.
pub record IsConsumed (v w : Verifier) (key : Text) (deadline : Time) : Type 0 where
  pub same : w ≡ record v { consumed = w.consumed }
  pub found : lookup key w.consumed ≡ some deadline

module _ (sha256 : Text → Text) where
  live-found :
      (w : Verifier) (key : Text) (deadline now : Time)
      → lookup key w.consumed ≡ some deadline
      → now < deadline + w.skew
      → 0 < deadline
      → lookup key (live w now) ≡ some deadline
  live-found w key deadline now h early later =
      keep-kept (λ d. ltb (now - w.skew) d) key deadline w.consumed h (ground arith)

  consume-IsConsumed :
      (v w : Verifier) (key : Text) (deadline : Time) (id : Text) (expires now : Time)
      → IsConsumed v w key deadline
      → now < deadline + v.skew
      → 0 < deadline
      → IsConsumed v (consume sha256 w id expires now).0 key deadline
  unfolding consume
  consume-IsConsumed v w key deadline id expires now c early later =
      let skews : w.skew ≡ v.skew = ap (λ x. x.skew) c.same in
      let kept = live-found w key deadline now c.found (omega (arith, skews)) later in
      elim (Option-cases (lookup (sha256 id) (live w now))) [
        | inl free ↦
            rw (free, is_known)
              (record {
                same = ground (arith, c.same);
                found = ground (
                  arith,
                  free,
                  kept,
                  lookup-insert (sha256 id) key (expires + w.skew) (live w now),
                  text_eq_iff (sha256 id) key,
                );
              })
        | inr (d, there) ↦
            rw (there, is_known) (record { same = ground (arith, c.same); found = kept })
      ]

  consume_new :
      (v : Verifier) (id : Text) (expires now : Time)
      → (consume sha256 v id expires now).1 ≡ true
      → IsConsumed v (consume sha256 v id expires now).0 (sha256 id) (expires + v.skew)
  unfolding consume
  consume_new v id expires now h = elim (Bool-cases (is_known (lookup (sha256 id) (live v now)))) [
    | inl known ↦ absurd (ground (arith, h, known))
    | inr new ↦ rw new (record {
      same = refl;
      found = ground (
        arith,
        lookup-insert (sha256 id) (sha256 id) (expires + v.skew) (live v now),
        text_eq_refl (sha256 id),
      );
    })
  ]

  -- Only the consumed ids change.
  consume_same :
      (w : Verifier) (id : Text) (expires now : Time)
      → (consume sha256 w id expires now).0
        ≡ record w { consumed = (consume sha256 w id expires now).0.consumed }
  unfolding consume
  consume_same w id expires now = elim (Bool-cases (is_known (lookup (sha256 id) (live w now)))) [
    | inl known ↦ rw known refl
    | inr new ↦ rw new refl
  ]

  module _ (verifies : Text → Text → Text → Bool) (decode_header : Text → Option Header)
      (decode_claims : Text → Option Claims) where
    unfoldable pub run : Verifier → List Call → Verifier
    run v [] = v
    run v (c ∷ cs) =
        run (verify sha256 verifies decode_header decode_claims v c.assertion c.now c.consumed_at).0
          cs

    abbrev Keeps : Verifier → Verifier → Type 0
    Keeps v w = w ≡ record v { consumed = w.consumed }

    verify-Keeps :
        (v w : Verifier) (a : Text) (now consumed_at : Time)
        → Keeps v w
        → Keeps v (verify sha256 verifies decode_header decode_claims w a now consumed_at).0
    unfolding verify
    verify-Keeps v w a now consumed_at h =
        elim (Result-cases (accept_claims sha256 verifies decode_header decode_claims w a now)) [
          | inr (e, bad) ↦ rw (bad, verify) h
          | inl (c, good) ↦
              rw (good, verify)
                (consume_same w c.jwt_id (unix_time c.expires) consumed_at
                  ∙ ap {A = Verifier}
                      (λ x. record x {
                        consumed =
                            (consume sha256 w c.jwt_id (unix_time c.expires)
                              consumed_at).0.consumed;
                      })
                      h)
        ]

    run-Keeps : (v w : Verifier) (cs : List Call) → Keeps v w → Keeps v (run w cs)
    unfolding run
    run-Keeps v w [] h = h
    run-Keeps v w (c ∷ cs) h =
        run-Keeps v
          (verify sha256 verifies decode_header decode_claims w c.assertion c.now c.consumed_at).0
          cs (verify-Keeps v w c.assertion c.now c.consumed_at h)

    verify-IsConsumed :
        (v w : Verifier) (key : Text) (deadline : Time) (a : Text) (now consumed_at : Time)
        → IsConsumed v w key deadline
        → consumed_at < deadline + v.skew
        → 0 < deadline
        → IsConsumed v
            (verify sha256 verifies decode_header decode_claims w a now consumed_at).0
            key
            deadline
    unfolding verify
    verify-IsConsumed v w key deadline a now consumed_at h early later =
        elim (Result-cases (accept_claims sha256 verifies decode_header decode_claims w a now)) [
          | inr (e, bad) ↦ rw (bad, verify) h
          | inl (c, good) ↦
              rw (good, verify)
                (consume-IsConsumed v w key deadline c.jwt_id (unix_time c.expires) consumed_at h
                  early later)
        ]

    run-IsConsumed :
        (v w : Verifier) (key : Text) (deadline : Time) (cs : List Call)
        → IsConsumed v w key deadline
        → All (λ c. c.consumed_at < deadline + v.skew) cs
        → 0 < deadline
        → IsConsumed v (run w cs) key deadline
    unfolding run
    run-IsConsumed v w key deadline [] h early later = h
    run-IsConsumed v w key deadline (c ∷ cs) h early later =
        run-IsConsumed v
          (verify sha256 verifies decode_header decode_claims w c.assertion c.now c.consumed_at).0
          key deadline cs
          (verify-IsConsumed v w key deadline c.assertion c.now c.consumed_at h early.0 later)
          early.1 later

    read-Keeps :
        (v w : Verifier) (a : Text)
        → Keeps v w
        → read_assertion sha256 verifies decode_header decode_claims w a
          ≡ read_assertion sha256 verifies decode_header decode_claims v a
    unfolding read_assertion
    read-Keeps v w a h = ap (λ x. read_assertion sha256 verifies decode_header decode_claims x a) h

    -- What a successful call shows: its claims, valid at the time, and consumed.
    pub record IsAccepted (v w : Verifier) (a : Text) (now : Time) : Type 0 where
      pub claims : Claims
      pub read : read_assertion sha256 verifies decode_header decode_claims v a ≡ ok claims
      pub valid : IsValid v claims now
      pub consumed_id : IsConsumed v w (sha256 claims.jwt_id) (unix_time claims.expires + v.skew)

    verify-IsAccepted :
        (v w : Verifier) (a : Text) (now consumed_at : Time) (p : Principal)
        → verify sha256 verifies decode_header decode_claims v a now consumed_at ≡ (w, ok p)
        → IsAccepted v w a now
    unfolding verify
    verify-IsAccepted v w a now consumed_at p h =
        elim (Result-cases (accept_claims sha256 verifies decode_header decode_claims v a now)) [
          | inr (e, bad) ↦ absurd (ground (arith, h, bad))
          | inl (c, good) ↦
              let shown =
                accept_claims-IsValid sha256 verifies decode_header decode_claims v a now c good in
              let done = consume sha256 v c.jwt_id (unix_time c.expires) consumed_at in
              let new : done.1 ≡ true = ground (arith, h, good, Bool-cases done.1) in
              let same : done.0 ≡ w = ground (arith, h, good) in
              record {
                claims = c;
                read = shown.0;
                valid = shown.1;
                consumed_id =
                    subst (λ x. IsConsumed v x (sha256 c.jwt_id) (unix_time c.expires + v.skew))
                      same (consume_new v c.jwt_id (unix_time c.expires) consumed_at new);
              }
        ]

    consume_again :
        (v w : Verifier) (id : Text) (deadline expires now : Time)
        → IsConsumed v w (sha256 id) deadline
        → now < deadline + v.skew
        → 0 < deadline
        → (consume sha256 w id expires now).1 ≡ false
    unfolding consume
    consume_again v w id deadline expires now c early later =
        let skews : w.skew ≡ v.skew = ap (λ x. x.skew) c.same in
        let kept = live-found w (sha256 id) deadline now c.found (omega (arith, skews)) later in
        rw (kept, is_known) refl

    ok_injective : {c d : Claims} → ◌≡◌ {A = Result Error Claims} (ok c) (ok d) → c ≡ d
    ok_injective e = ground (arith, e)

    verify_refused :
        (u : Verifier) (a : Text) (now consumed_at : Time) (c : Claims) (q : Principal)
        → read_assertion sha256 verifies decode_header decode_claims u a ≡ ok c
        → (consume sha256 u c.jwt_id (unix_time c.expires) consumed_at).1 ≡ false
        → (verify sha256 verifies decode_header decode_claims u a now consumed_at).1 ≢ ok q
    unfolding verify
    verify_refused u a now consumed_at c q read used h =
        elim (Result-cases (accept_claims sha256 verifies decode_header decode_claims u a now)) [
          | inr (e, bad) ↦ ground (arith, h, bad)
          | inl (d, good) ↦
              let shown =
                accept_claims-IsValid sha256 verifies decode_header decode_claims u a now d good in
              let same : d ≡ c = ok_injective (sym shown.0 ∙ read) in
              let used_d : (consume sha256 u d.jwt_id (unix_time d.expires) consumed_at).1 ≡ false =
                rw same used in
              ground (arith, h, good, used_d)
        ]

    -- An assertion is accepted once: after it was accepted, then whatever assertions are verified, it
    -- is not accepted again. The clock may run in any way, if no id was consumed more than the skew
    -- later than the time at which the claims of the second call are validated.
    pub accepted_once :
        (v w : Verifier) (a : Text) (now consumed_at : Time) (p : Principal) (cs : List Call)
        (now' consumed_at' : Time) (q : Principal)
        → verify sha256 verifies decode_header decode_claims v a now consumed_at ≡ (w, ok p)
        → All (λ c. c.consumed_at ≤ now' + v.skew) cs
        → consumed_at' ≤ now' + v.skew
        → (verify sha256 verifies decode_header decode_claims (run w cs) a now' consumed_at').1
          ≢ ok q
    accepted_once v w a now consumed_at p cs now' consumed_at' q h times time h' =
        let first = verify-IsAccepted v w a now consumed_at p h in
        let u = run w cs in
        let x = (verify sha256 verifies decode_header decode_claims u a now' consumed_at').0 in
        let keeps : Keeps v u = run-Keeps v w cs first.consumed_id.same in
        let c = first.claims in
        let read : read_assertion sha256 verifies decode_header decode_claims u a ≡ ok c =
          read-Keeps v u a keeps ∙ first.read in
        let second = verify-IsAccepted u x a now' consumed_at' q (ground (arith, h')) in
        let same : second.claims ≡ c = ok_injective (sym second.read ∙ read) in
        let skews : u.skew ≡ v.skew = ap (λ y. y.skew) keeps in
        let running : now' - u.skew < unix_time c.expires = rw (← same) second.valid.running in
        let deadline = unix_time c.expires + v.skew in
        let later : 0 < deadline = omega (arith, running) in
        let early : now' + v.skew < deadline + v.skew = omega (arith, running, skews) in
        let kept =
          run-IsConsumed v w (sha256 c.jwt_id) deadline cs first.consumed_id
            (All-map (λ d. d.consumed_at ≤ now' + v.skew) (λ d. d.consumed_at < deadline + v.skew)
              cs (λ d t. omega (arith, t, early)) times)
            later in
        verify_refused u a now' consumed_at' c q read
          (consume_again v u c.jwt_id deadline (unix_time c.expires) consumed_at' kept
            (omega (arith, time, early)) later)
          h'
