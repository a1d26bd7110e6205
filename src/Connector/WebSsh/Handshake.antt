-- ===== src/Connector/WebSsh/Handshake.antt =====
-- services/connector/service/webssh.go: an issued ticket opens a session for the one who holds it.
use vps_manager.Base.{
  ◌+◌, ◌<◌, ◌≡◌, refl, ap, ◌∙◌, true, false, some, arith, Time, Text, codes, lookup, length, ltb,
  text_eq_refl, lookup-insert, keep-kept, ok, IsBytes,
}
use vps_manager.Encoding.Base64
use vps_manager.Gateway.{WebSshBinding, WebSshTicketResponse}
use vps_manager.Connector.WebSsh.{
  Manager, WebSshTicketRequest, WebSshHelloMessage, WebSshTicket, prune, entry_of, same_binding,
  create_ticket, check_ticket, take_ticket, consume_ticket,
}

same_binding_refl : (b : WebSshBinding) → same_binding b b ≡ true
same_binding_refl b = ground (
  arith,
  text_eq_refl b.principal_id,
  text_eq_refl b.host_id,
  text_eq_refl b.credential_id,
  text_eq_refl b.action,
)

module _ (sha256 : Text → Text) where
  -- What an answered request leaves in the manager, and what the answer says of it.
  created :
      (m w : Manager) (r : WebSshTicketRequest) (ticket session : Text) (issued_at : Time)
      (response : WebSshTicketResponse)
      → create_ticket sha256 m r (some (ticket, session)) issued_at ≡ (w, ok response)
      → (lookup (sha256 ticket) w.tickets
          ≡ some (entry_of r response.session_id response.expires_at))
        × (response.ticket ≡ Base64.encode ticket)
  unfolding create_ticket
  created m w r ticket session issued_at response h = (
    ground (
      arith,
      h,
      lookup-insert (sha256 ticket) (sha256 ticket)
          (entry_of r (Base64.encode session) (issued_at + m.ticket_ttl))
          (prune m issued_at).tickets,
      text_eq_refl (sha256 ticket),
    ),
    ground (arith, h),
  )

  takes :
      (w : Manager) (hash : Text) (entry : WebSshTicket) (hello : WebSshHelloMessage) (now : Time)
      → lookup hash w.tickets ≡ some entry
      → now < entry.expires_at
      → (take_ticket sha256 w hash hello now).1 ≡ check_ticket sha256 entry hello now
  unfolding take_ticket
  takes w hash entry hello now found early =
      let kept = keep-kept (λ t. ltb now t.expires_at) hash entry w.tickets found (ground arith) in
      rw (kept, take_ticket) refl

  passes :
      (r : WebSshTicketRequest) (session_id : Text) (expires_at : Time) (hello : WebSshHelloMessage)
      (now : Time)
      → now < expires_at
      → hello.message_type ≡ codes "hello"
      → hello.session_id ≡ session_id
      → hello.binding ≡ r.binding
      → check_ticket sha256 (entry_of r session_id expires_at) hello now
        ≡ ok (entry_of r session_id expires_at)
  passes r session_id expires_at hello now early kind same bound =
      rw (kind, same, bound)
        (ground (
          arith,
          early,
          text_eq_refl session_id,
          text_eq_refl (codes "hello"),
          same_binding_refl r.binding,
        ))

  consume_decoded :
      (w : Manager) (hello : WebSshHelloMessage) (raw : Text) (now : Time)
      → Base64.decode false hello.ticket ≡ some raw
      → length raw ≡ 32
      → consume_ticket sha256 w hello now ≡ take_ticket sha256 w (sha256 raw) hello now
  unfolding consume_ticket
  consume_decoded w hello raw now d fits = rw (d, consume_ticket) (ground (arith, fits))

  -- A ticket of 32 random bytes opens the session that was asked for: as soon as the connector has
  -- answered a request, a hello that shows the ticket and the session of the answer and the binding
  -- of the request, before the ticket runs out, gets the request's target, host key, credential and
  -- terminal size.
  pub consume_ticket-create_ticket :
      (m w : Manager) (r : WebSshTicketRequest) (ticket session : Text) (issued_at : Time)
      (response : WebSshTicketResponse) (hello : WebSshHelloMessage) (now : Time)
      → create_ticket sha256 m r (some (ticket, session)) issued_at ≡ (w, ok response)
      → IsBytes ticket
      → length ticket ≡ 32
      → hello.message_type ≡ codes "hello"
      → hello.ticket ≡ response.ticket
      → hello.session_id ≡ response.session_id
      → hello.binding ≡ r.binding
      → now < response.expires_at
      → (consume_ticket sha256 w hello now).1
        ≡ ok (entry_of r response.session_id response.expires_at)
  consume_ticket-create_ticket m w r ticket session issued_at response hello now h bytes fits kind
        shown same bound early =
      let made = created m w r ticket session issued_at response h in
      let entry = entry_of r response.session_id response.expires_at in
      ap (λ x. x.1)
        (consume_decoded w hello ticket now
          (ap (Base64.decode false) (shown ∙ made.1) ∙ Base64.decode-encode false ticket bytes)
          fits)
      ∙ takes w (sha256 ticket) entry hello now made.0 early
      ∙ passes r response.session_id response.expires_at hello now early kind same bound
