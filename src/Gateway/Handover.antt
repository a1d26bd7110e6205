-- ===== src/Gateway/Handover.antt =====
-- services/websshgateway: an issued ticket is accepted from the one who holds it, and what is accepted is
-- for the binding that it was issued for.
use vps_manager.Base.{
  ◌<◌, ◌≡◌, refl, sym, ap, ◌∙◌, inl, inr, true, false, some, List, [], ◌∷◌, arith, Time, Text,
  codes, lookup, length, ltb, text_eq_iff, text_eq_refl, lookup-insert, keep-kept, Bool-cases,
  Option-cases, Result-cases, ok, IsBytes,
}
use vps_manager.Encoding.Base64
use vps_manager.Gateway.Validation.{
  Binding, HelloMessage, normalize_binding, same_binding, same_roles,
}
use vps_manager.Gateway.{
  Broker, BrowserTicket, Draft, IssueResponse, prune, store_ticket, store_draft, check_ticket,
  take_ticket, consume_ticket, new_ticket,
}

same_roles_iff :
    (s t : List Text) → (same_roles s t ≡ true → s ≡ t) × (s ≡ t → same_roles s t ≡ true)
unfolding same_roles
same_roles_iff [] [] = (λ h. refl, λ h. refl)
same_roles_iff [] (b ∷ t) = (λ h. cc, λ h. cc)
same_roles_iff (a ∷ s) [] = (λ h. cc, λ h. cc)
same_roles_iff (a ∷ s) (b ∷ t) =
    let ih = same_roles_iff s t in
    (λ h. ground (arith, h, text_eq_iff a b, ih.0), λ h. ground (arith, h, text_eq_iff a b, ih.1))

same_binding_sound : (l r : Binding) → same_binding l r ≡ true → l ≡ r
unfolding same_binding
same_binding_sound l r h = ground (
  arith,
  h,
  text_eq_iff l.principal_id r.principal_id,
  text_eq_iff l.session_id r.session_id,
  text_eq_iff l.host_id r.host_id,
  text_eq_iff l.credential_id r.credential_id,
  text_eq_iff l.action r.action,
  (same_roles_iff l.roles r.roles).0,
)

same_binding_refl : (b : Binding) → same_binding b b ≡ true
unfolding same_binding
same_binding_refl b = ground (
  arith,
  text_eq_refl b.principal_id,
  text_eq_refl b.session_id,
  text_eq_refl b.host_id,
  text_eq_refl b.credential_id,
  text_eq_refl b.action,
  (same_roles_iff b.roles b.roles).1,
)

module _ (sha256 : Text → Text) where
  -- A ticket that passes was issued for the caller's binding and connection, and has not run out.
  check_ticket_shows :
      (entry t : BrowserTicket) (hello : HelloMessage) (now : Time)
      → check_ticket sha256 entry hello now ≡ ok t
      → (t ≡ entry)
        × (now < t.expires_at)
        × (hello.connection_id ≡ t.connection_id)
        × (hello.message_type ≡ codes "hello")
        × (normalize_binding hello.binding ≡ ok t.binding)
  check_ticket_shows entry t hello now h = elim (Result-cases (normalize_binding hello.binding)) [
    | inr (e, bad) ↦ absurd (ground (arith, h, bad))
    | inl (b, good) ↦
        let same : t ≡ entry = ground (arith, h, good) in
        let bindings : entry.binding ≡ b =
          same_binding_sound entry.binding b (ground (arith, h, good)) in
        (
          same,
          ground (arith, h, same),
          ground (arith, h, good, same, text_eq_iff hello.connection_id entry.connection_id),
          ground (arith, h, good, text_eq_iff hello.message_type (codes "hello")),
          good ∙ ap ok (sym (ap (λ x. x.binding) same ∙ bindings)),
        )
  ]

  -- What is consumed was a ticket of the broker, under the hash of what the caller's text decodes to:
  -- 32 bytes. It has not run out, and the caller has shown its connection and, with the roles in
  -- order, its binding.
  pub consumed_is_bound :
      (b : Broker) (hello : HelloMessage) (now : Time) (t : BrowserTicket)
      → (consume_ticket sha256 b hello now).1 ≡ ok t
      → (raw : Text) × (Base64.decode false hello.ticket ≡ some raw)
        × (length raw ≡ 32)
        × (lookup (sha256 raw) (prune b now).tickets ≡ some t)
        × (now < t.expires_at)
        × (hello.connection_id ≡ t.connection_id)
        × (normalize_binding hello.binding ≡ ok t.binding)
  unfolding consume_ticket take_ticket
  consumed_is_bound b hello now t h = elim (Option-cases (Base64.decode false hello.ticket)) [
    | inl bad ↦ absurd (ground (arith, h, bad))
    | inr (raw, d) ↦ elim (Option-cases (lookup (sha256 raw) (prune b now).tickets)) [
      | inl gone ↦ absurd (ground (arith, h, d, gone))
      | inr (entry, found) ↦
          let shown = check_ticket_shows entry t hello now (ground (arith, h, d, found)) in
          (raw, d, ground (arith, h, d), found ∙ ap some (sym shown.0), shown.1, shown.2, shown.4)
    ]
  ]

  stored_there :
      (b w : Broker) (hash : Text) (ticket : BrowserTicket) (now : Time)
      → store_ticket b hash ticket now ≡ (w, true)
      → lookup hash w.tickets ≡ some ticket
  unfolding store_ticket
  stored_there b w hash ticket now h =
      ground (arith, h, lookup-insert hash hash ticket (prune b now).tickets, text_eq_refl hash)

  take_found :
      (w : Broker) (hash : Text) (ticket : BrowserTicket) (hello : HelloMessage) (now : Time)
      → lookup hash w.tickets ≡ some ticket
      → now < ticket.expires_at
      → (take_ticket sha256 w hash hello now).1 ≡ check_ticket sha256 ticket hello now
  unfolding take_ticket
  take_found w hash ticket hello now found early =
      let kept = keep-kept (λ t. ltb now t.expires_at) hash ticket w.tickets found (ground arith) in
      rw (kept, take_ticket) refl

  check_passes :
      (ticket : BrowserTicket) (hello : HelloMessage) (now : Time)
      → now < ticket.expires_at
      → hello.message_type ≡ codes "hello"
      → hello.connection_id ≡ ticket.connection_id
      → normalize_binding hello.binding ≡ ok ticket.binding
      → check_ticket sha256 ticket hello now ≡ ok ticket
  check_passes ticket hello now early kind connection binding = ground (
    arith,
    binding,
    same_binding_refl ticket.binding,
    text_eq_iff hello.message_type (codes "hello"),
    text_eq_iff hello.connection_id ticket.connection_id,
  )

  -- A ticket that was issued is accepted: whoever presents the text, the connection id and the binding
  -- of the response before it runs out gets the ticket with the connector's ticket in it. The random
  -- source gave 32 bytes.
  pub consume_ticket-store_draft :
      (b w : Broker) (binding : Binding) (reason : Text) (d : Draft) (stored_at : Time)
      (response : IssueResponse) (hello : HelloMessage) (now : Time)
      → store_draft sha256 b binding reason (ok d) stored_at ≡ (w, ok response)
      → IsBytes d.raw
      → length d.raw ≡ 32
      → hello.message_type ≡ codes "hello"
      → hello.ticket ≡ response.ticket
      → hello.connection_id ≡ response.connection_id
      → normalize_binding hello.binding ≡ ok binding
      → now < response.expires_at
      → (consume_ticket sha256 w hello now).1
        ≡ ok (new_ticket binding reason d.upstream d.connection d.expires_at)
  unfolding store_draft consume_ticket
  consume_ticket-store_draft b w binding reason d stored_at response hello now made bytes long kind
        ticket connection bindings early =
      let entry = new_ticket binding reason d.upstream d.connection d.expires_at in
      let stored = store_ticket b (sha256 d.raw) entry stored_at in
      elim (Bool-cases stored.1) [
        | inr bad ↦ absurd (ground (arith, made, bad))
        | inl good ↦
            let there : lookup (sha256 d.raw) w.tickets ≡ some entry =
              stored_there b w (sha256 d.raw) entry stored_at (ground (arith, made, good)) in
            let decoded : Base64.decode false hello.ticket ≡ some d.raw =
              ap (Base64.decode false) (ticket ∙ ground (arith, made, good))
              ∙ Base64.decode-encode false d.raw bytes in
            let in_time : now < entry.expires_at = ground (arith, made, good, early) in
            rw (decoded, consume_ticket)
              (rw long (
                take_found w (sha256 d.raw) entry hello now there in_time
                ∙ check_passes entry hello now in_time kind
                    (connection ∙ ground (arith, made, good)) bindings))
      ]
