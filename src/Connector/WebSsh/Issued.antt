-- ===== src/Connector/WebSsh/Issued.antt =====
-- services/connector/service/webssh.go with services/websshgateway/broker.go: the gateway accepts what the
-- connector answers.
use vps_manager.Base.{
  ◌+◌, ◌<◌, ◌≤◌, ◌≡◌, ap, ◌∙◌, false, some, arith, Time, Text, minute, length, text_eq_refl, ok,
  IsBytes,
}
use vps_manager.Encoding.Base64
use vps_manager.RequestAuth.{protocol_version}
use vps_manager.Gateway.{WebSshTicketResponse, validate_connector_response}
use vps_manager.Connector.WebSsh.{Manager, WebSshTicketRequest, create_ticket}
use vps_manager.Connector.WebSsh.Limits.{WebSshOptions, new_manager, new_manager_bounds}

-- What a response carries.
response_fields :
    (sha256 : Text → Text) (m w : Manager) (r : WebSshTicketRequest) (ticket session : Text)
    (issued_at : Time) (response : WebSshTicketResponse)
    → create_ticket sha256 m r (some (ticket, session)) issued_at ≡ (w, ok response)
    → (response.protocol ≡ protocol_version)
      × (response.ticket ≡ Base64.encode ticket)
      × (response.session_id ≡ Base64.encode session)
      × (response.expires_at ≡ issued_at + m.ticket_ttl)
unfolding create_ticket
response_fields sha256 m w r ticket session issued_at response h =
    (ground (arith, h), ground (arith, h), ground (arith, h), ground (arith, h))

validates :
    (response : WebSshTicketResponse) (ticket session : Text) (now : Time)
    → response.protocol ≡ protocol_version
    → Base64.decode false response.ticket ≡ some ticket
    → Base64.decode false response.session_id ≡ some session
    → length ticket ≡ 32
    → length session ≡ 16
    → now < response.expires_at
    → response.expires_at ≤ now + minute
    → validate_connector_response response now ≡ some (response.ticket, response.session_id)
unfolding validate_connector_response
validates response ticket session now protocol e f long short early late =
    rw (e, f, validate_connector_response)
      (ground (arith, long, short, early, late, protocol, text_eq_refl protocol_version))

-- The gateway accepts every ticket that a connector issues: if a manager with the ticket lifetime of
-- its options has answered a request, with 32 and 16 bytes from the random source, the gateway takes
-- the answer at any time from its issue until it runs out.
pub validate-create_ticket :
    (sha256 : Text → Text) (o : WebSshOptions) (made m w : Manager) (r : WebSshTicketRequest)
    (ticket session : Text) (issued_at now : Time) (response : WebSshTicketResponse)
    → new_manager o ≡ ok made
    → m.ticket_ttl ≡ made.ticket_ttl
    → create_ticket sha256 m r (some (ticket, session)) issued_at ≡ (w, ok response)
    → IsBytes ticket
    → IsBytes session
    → length ticket ≡ 32
    → length session ≡ 16
    → issued_at ≤ now
    → now < response.expires_at
    → validate_connector_response response now ≡ some (response.ticket, response.session_id)
validate-create_ticket sha256 o made m w r ticket session issued_at now response opened ttl h tb sb
      tl sl later early =
    let fields = response_fields sha256 m w r ticket session issued_at response h in
    let bounds = new_manager_bounds o made opened in
    validates response ticket session now fields.0
      (ap (Base64.decode false) fields.1 ∙ Base64.decode-encode false ticket tb)
      (ap (Base64.decode false) fields.2 ∙ Base64.decode-encode false session sb) tl sl early
      (omega (arith, fields.3, ttl, bounds.1, later))
