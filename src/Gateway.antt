-- ===== src/Gateway.antt =====
-- services/websshgateway/broker.go and the ticket part of websocket.go: the broker of web SSH tickets.
-- Authorization, the connector's answer, SHA-256, the clock and the random bytes are arguments; the
-- lock makes each of the broker's methods one step. What is written to the audit log is left out.
pub mod Validation
pub mod Config
pub mod Tickets
pub mod Handover
pub mod Capacity
mod Tests
use vps_manager.Base.{
  ℕ, ◌+◌, ◌-◌, ◌*◌, Bool, true, false, not, ◌&&◌, ◌||◌, Option, none, some, List, [], ◌∷◌, pos_part,
  Time, minute, Text, Table, codes, lookup, insert, delete, keep, length, ltb, leb, ◌==◌, text_eq,
  if◌then◌else◌, Result, Check, ok, err, ◌>>=◌, ◌>>◌, guard, reject_if, or_fail,
}
use vps_manager.Encoding.Base64
use vps_manager.RequestAuth.{protocol_version}
use Validation.{
  Binding, IssueRequest, HelloMessage, normalize_binding, validate_issue_request, same_binding,
}

pub record WebSshBinding : Type 0 where
  pub principal_id : Text
  pub host_id : Text
  pub credential_id : Text
  pub action : Text

pub record BrowserTicket : Type 0 where
  pub connection_id : Text
  pub binding : Binding
  pub reason : Text
  pub upstream_ticket : Text
  pub upstream_session : Text
  pub connector_binding : WebSshBinding
  pub expires_at : Time

-- `ticket_ttl` and `max_outstanding` are those of the configuration.
pub record Broker : Type 0 where
  pub ticket_ttl : ℕ
  pub max_outstanding : ℕ
  pub closed : Bool
  pub issuing : ℕ
  pub tickets : Table BrowserTicket
  pub consumed : Table Time

-- The response of the connector to a request for a ticket of its own.
pub record WebSshTicketResponse : Type 0 where
  pub protocol : Text
  pub ticket : Text
  pub session_id : Text
  pub expires_at : Time

pub record IssueResponse : Type 0 where
  pub ticket : Text
  pub connection_id : Text
  pub expires_at : Time

pub data IssueError : Type 0 where
  invalid_request unauthorized capacity connector_failed connector_invalid random_failed :
      IssueError

pub data TicketError : Type 0 where
  invalid_ticket ticket_replayed ticket_expired ticket_binding_mismatch : TicketError

-- New: nothing is issued yet.
unfoldable pub new_broker : ℕ → ℕ → Broker
new_broker ticket_ttl max_outstanding = record {
  ticket_ttl = ticket_ttl;
  max_outstanding = max_outstanding;
  closed = false;
  issuing = 0;
  tickets = [];
  consumed = [];
}

-- pruneLocked
abbrev pub prune : Broker → Time → Broker
prune b now = record b {
  tickets = keep (λ t. ltb now t.expires_at) b.tickets;
  consumed = keep (λ expires. ltb now expires) b.consumed;
}

unfoldable pub reserve_ticket : Broker → Time → Broker × Bool
reserve_ticket b now =
    let p = prune b now in
    if p.closed || leb p.max_outstanding (length p.tickets + p.issuing)
    then (p, false)
    else (record p { issuing = p.issuing + 1 }, true)

unfoldable pub release_ticket_reservation : Broker → Broker
release_ticket_reservation b = record b { issuing = b.issuing - 1 }

abbrev pub is_there {ℓ} : {A : Type ℓ} → Option A → Bool
is_there none = false
is_there (some a) = true

unfoldable pub store_ticket : Broker → Text → BrowserTicket → Time → Broker × Bool
store_ticket b hash ticket now =
    let p = prune b now in
    if p.closed
      || leb p.max_outstanding (length p.tickets)
      || leb (p.max_outstanding * 4) (length p.consumed)
      || is_there (lookup hash p.tickets)
    then (p, false)
    else (record p { tickets = insert hash ticket p.tickets }, true)

-- Close, as far as the broker's own state goes.
unfoldable pub close : Broker → Broker
close b = if b.closed then b else record b { closed = true; tickets = [] }

unfoldable pub validate_connector_response : WebSshTicketResponse → Time → Option (Text × Text)
validate_connector_response r now = elim (Base64.decode false r.ticket) [
  | none ↦ none
  | some ticket ↦ elim (Base64.decode false r.session_id) [
    | none ↦ none
    | some session ↦
        if not (text_eq r.protocol protocol_version)
          || not (ltb now r.expires_at)
          || ltb (now + minute) r.expires_at
          || not (length ticket == 32)
          || not (length session == 16)
        then none
        else some (r.ticket, r.session_id)
  ]
]

-- Issue up to the reservation: the binding with its roles in order.
unfoldable pub begin_issue :
    Broker → IssueRequest → Bool → Time → Broker × Result IssueError Binding
unfolding validate_issue_request reserve_ticket
begin_issue b r authorized now = elim (validate_issue_request r) [
  | err e ↦ (b, err invalid_request)
  | ok u ↦ elim (normalize_binding r.binding) [
    | err e ↦ (b, err invalid_request)
    | ok binding ↦ if not authorized then (b, err unauthorized) else (
      (reserve_ticket b now).0,
      if (reserve_ticket b now).1 then ok binding else err capacity,
    )
  ]
]

abbrev pub earlier : Time → Time → Time
earlier s t = if ltb s t then s else t

abbrev pub new_ticket : Binding → Text → Text × Text → Text → Time → BrowserTicket
new_ticket binding reason upstream connection_id expires_at = record {
  connection_id = connection_id;
  binding = binding;
  reason = reason;
  upstream_ticket = upstream.0;
  upstream_session = upstream.1;
  connector_binding = record {
    principal_id = binding.principal_id;
    host_id = binding.host_id;
    credential_id = binding.credential_id;
    action = binding.action;
  };
  expires_at = expires_at;
}

-- What the connector and the random source gave: the upstream ticket and session, the 32 bytes of the
-- ticket and the 16 of the connection id, and until when the ticket is good.
pub record Draft : Type 0 where
  pub upstream : Text × Text
  pub raw : Text
  pub connection : Text
  pub expires_at : Time

unfoldable pub draft :
    Broker
    → Option WebSshTicketResponse
    → Option (Text × Text)
    → Time
    → Time
    → Result IssueError Draft
unfolding validate_connector_response
draft b response random checked_at now = do
  r ← or_fail response connector_failed
  upstream ← or_fail (validate_connector_response r checked_at) connector_invalid
  bytes ← or_fail random random_failed
  let expires_at : Time = earlier r.expires_at (now + b.ticket_ttl)
  guard (ltb now expires_at) connector_invalid
  ok (record {
    upstream = upstream;
    raw = bytes.0;
    connection = Base64.encode bytes.1;
    expires_at = expires_at;
  })

module _ (sha256 : Text → Text) where
  -- Issue from the connector's answer on, without the release of the reservation, which follows on
  -- every path.
  unfoldable pub store_draft :
      Broker
      → Binding
      → Text
      → Result IssueError Draft
      → Time
      → Broker × Result IssueError IssueResponse
  unfolding store_ticket
  store_draft b binding reason (err e) stored_at = (b, err e)
  store_draft b binding reason (ok d) stored_at =
      let ticket = new_ticket binding reason d.upstream d.connection d.expires_at in
      let stored = store_ticket b (sha256 d.raw) ticket stored_at in
      (
        stored.0,
        if stored.1
            then ok (record {
              ticket = Base64.encode d.raw;
              connection_id = d.connection;
              expires_at = d.expires_at;
            })
            else err capacity,
      )

  -- The checks of consumeTicket on a ticket that is found.
  abbrev pub check_ticket : BrowserTicket → HelloMessage → Time → Result TicketError BrowserTicket
  check_ticket entry hello now =
      if not (ltb now entry.expires_at)
      then err ticket_expired
      else elim (normalize_binding hello.binding) [
        | err e ↦ err ticket_binding_mismatch
        | ok binding ↦
            if not (text_eq hello.connection_id entry.connection_id)
              || not (text_eq hello.message_type (codes "hello"))
              || not (same_binding entry.binding binding)
            then err ticket_binding_mismatch
            else ok entry
      ]

  -- A ticket is taken out before it is checked.
  unfoldable pub take_ticket :
      Broker → Text → HelloMessage → Time → Broker × Result TicketError BrowserTicket
  take_ticket b hash hello now =
      let p = prune b now in
      elim (lookup hash p.tickets) [
        | none ↦ (
          p,
          if is_there (lookup hash p.consumed) then err ticket_replayed else err invalid_ticket,
        )
        | some entry ↦ (
          record p {
            tickets = delete hash p.tickets;
            consumed = insert hash (now + p.ticket_ttl) p.consumed;
          },
          check_ticket entry hello now,
        )
      ]

  unfoldable pub consume_ticket :
      Broker → HelloMessage → Time → Broker × Result TicketError BrowserTicket
  unfolding take_ticket
  consume_ticket b hello now = elim (Base64.decode false hello.ticket) [
    | none ↦ (b, err invalid_ticket)
    | some decoded ↦
        if not (length decoded == 32)
        then (b, err invalid_ticket)
        else take_ticket b (sha256 decoded) hello now
  ]
