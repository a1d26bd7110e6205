-- ===== src/StepUp/Tickets.antt =====
-- What Issue promises, and what Consume answers about an issued ticket.
use vps_manager.Base.{
  ◌+◌, ◌*◌, ◌<◌, ◌≤◌, ◌≡◌, true, false, ◌&&◌, Option, none, some, arith, pos, ltb_ℤ, Time, second,
  minute, Text, IsBytes, IsMap, lookup, keep, length, ltb, text_eq, text_eq_iff, ok, Option-cases,
  inl, inr, lookup-insert, keep-kept, keep-dropped, text_eq_refl, Bool-cases, lookup-delete,
  keep-none, insert-IsMap, keep-IsMap,
}
use vps_manager.Encoding.Base64
use vps_manager.Encoding.Base64.{decode-encode, length-encode_bounds}
use vps_manager.StepUp.Validation.{Binding, valid_binding}
use vps_manager.StepUp.{
  Manager, Entry, Ticket, IssueRequest, VerifiedFactor, FactorVerifier, request_binding,
  check_request, issue, consume, new_entry, digest_binding, redeem, redeem_raw,
}

pub check_request-valid :
    (verify : FactorVerifier) (r : IssueRequest) (now : Time)
    → check_request verify r now ≡ ok tt
    → valid_binding (request_binding r) ≡ ok tt
unfolding check_request
check_request-valid verify r now h = ground arith

module _ (sha256 : Text → Text) (verify : FactorVerifier) (m : Manager) (r : IssueRequest)
    (now : Time) where
  -- A ticket is only issued to a request with a valid binding, for which the verifier has returned a
  -- factor of the same subject and session, of assurance level 2 or more, verified at most two
  -- minutes before and not later than 15 seconds ahead. It expires later than now, and at most five
  -- minutes later.
  pub issue_sound :
      (random : Option Text) (t : Ticket)
      → (issue sha256 verify m r now random).1 ≡ ok t
      → (v : VerifiedFactor) × (verify r.subject r.session_id r.assertion ≡ some v)
        × (valid_binding (request_binding r) ≡ ok tt)
        × (v.subject ≡ r.subject)
        × (v.session_id ≡ r.session_id)
        × (ltb_ℤ v.assurance_level (pos 2) ≡ false)
        × (v.verified_at ≤ now + 15 * second)
        × (now ≤ v.verified_at + 2 * minute)
        × (now < t.expires_at)
        × (t.expires_at ≤ now + 5 * minute)
  unfolding issue
  issue_sound random t h = elim (Option-cases (verify r.subject r.session_id r.assertion)) [
    | inl e ↦ ground arith
    | inr (v, e) ↦ (
      v,
      e,
      ground arith,
      ground (arith, text_eq_iff v.subject r.subject),
      ground (arith, text_eq_iff v.session_id r.session_id),
      ground arith,
      ground arith,
      ground arith,
      ground arith,
      ground arith,
    )
  ]

  pub issue-stored :
      (raw : Text) (t : Ticket)
      → (issue sha256 verify m r now (some raw)).1 ≡ ok t
      → (valid_binding (request_binding r) ≡ ok tt)
        × (lookup (sha256 raw) (issue sha256 verify m r now (some raw)).0.tickets
            ≡ some (new_entry sha256 r now))
        × (t.value ≡ Base64.encode raw)
        × (t.expires_at ≡ (new_entry sha256 r now).expires_at)
  unfolding issue
  issue-stored raw t h = (
    ground arith,
    ground (
      arith,
      lookup-insert (sha256 raw) (sha256 raw) (new_entry sha256 r now)
          (keep (λ e. ltb now e.expires_at) m.tickets),
      text_eq_refl (sha256 raw),
    ),
    ground arith,
    ground arith,
  )

-- The length of the 32 bytes' encoding lies within the bounds that Consume puts.
length-encode_32 : (raw : Text) → length raw ≡ 32 → length (Base64.encode raw) ≡ 43
length-encode_32 raw h = omega (arith, length-encode_bounds raw)

module _ (sha256 : Text → Text) (m : Manager) (raw : Text) (b : Binding) (now : Time) where
  pub consume-redeem :
      IsBytes raw
      → length raw ≡ 32
      → valid_binding b ≡ ok tt
      → consume sha256 m (Base64.encode raw) b now ≡ redeem sha256 m (sha256 raw) b now
  unfolding consume redeem_raw
  consume-redeem hb hl hv = rw (decode-encode true raw hb) (ground (arith, length-encode_32 raw hl))

  pub redeem-found :
      (e : Entry)
      → IsMap m.tickets
      → lookup (sha256 raw) m.tickets ≡ some e
      → (redeem sha256 m (sha256 raw) b now).1
        ≡ (ltb now e.expires_at && text_eq (digest_binding sha256 b) e.binding_digest)
  unfolding redeem
  redeem-found e hm he = elim (Bool-cases (ltb now e.expires_at)) [
    | inl live ↦
        ground (arith, keep-kept (λ x. ltb now x.expires_at) (sha256 raw) e m.tickets he live)
    | inr over ↦
        ground (arith, keep-dropped (λ x. ltb now x.expires_at) (sha256 raw) e m.tickets hm he over)
  ]

  -- Whatever the binding and the time, the digest is not in the table afterwards.
  pub redeem-gone : lookup (sha256 raw) (redeem sha256 m (sha256 raw) b now).0.tickets ≡ none
  unfolding redeem
  redeem-gone = ground (
    arith,
    lookup-delete (sha256 raw) (sha256 raw) (keep (λ x. ltb now x.expires_at) m.tickets),
    text_eq_refl (sha256 raw),
  )

  pub redeem-absent :
      lookup (sha256 raw) m.tickets ≡ none → (redeem sha256 m (sha256 raw) b now).1 ≡ false
  unfolding redeem
  redeem-absent h = ground (arith, keep-none (λ x. ltb now x.expires_at) (sha256 raw) m.tickets h)

pub issue-IsMap :
    (sha256 : Text → Text) (verify : FactorVerifier) (m : Manager) (r : IssueRequest) (now : Time)
    (random : Option Text)
    → IsMap m.tickets
    → IsMap (issue sha256 verify m r now random).0.tickets
unfolding issue
issue-IsMap sha256 verify m r now none h = ground arith
issue-IsMap sha256 verify m r now (some raw) h =
    let kept = keep-IsMap (λ x. ltb now x.expires_at) m.tickets h in
    ground (
      arith,
      kept,
      insert-IsMap (sha256 raw) (new_entry sha256 r now)
          (keep (λ x. ltb now x.expires_at) m.tickets) kept,
    )
