-- ===== src/Connector/WebSsh.antt =====
-- services/connector/service/webssh.go: the connector's web SSH tickets. SHA-256, the clock, the random
-- bytes, the SSH library and the check of a target's address are arguments; the lock makes each of the
-- manager's methods one step.
pub mod Limits
pub mod Handshake
pub mod Issued
pub mod Input
mod Tests
use vps_manager.Base.{
  ℕ, ◌+◌, ◌*◌, Bool, true, false, not, ◌&&◌, ◌||◌, Option, none, some, [], ◌∷◌, pos, ltb_ℤ, Time,
  Text, Table, codes, lookup, insert, delete, keep, length, ltb, leb, ◌==◌, text_eq, trim_space,
  has_control, if◌then◌else◌, Result, Check, ok, err, ◌>>=◌, ◌>>◌, guard, reject_if, or_fail,
}
use vps_manager.Encoding.Base64
use vps_manager.RequestAuth.{protocol_version}
use vps_manager.Connector.Bindings.{Target}
use vps_manager.Connector.Approval.{Credential, Ssh, parse_pinned_host_key}
use vps_manager.Gateway.{WebSshBinding, WebSshTicketResponse}
use vps_manager.Gateway.Validation.{TerminalSize, valid_terminal_size, has_space, action_webssh}

pub record WebSshTicketRequest : Type 0 where
  pub protocol : Text
  pub binding : WebSshBinding
  pub target : Target
  pub pinned_host_key : Text
  pub credential : Credential
  pub initial_size : TerminalSize

pub record WebSshHelloMessage : Type 0 where
  pub message_type : Text
  pub ticket : Text
  pub session_id : Text
  pub binding : WebSshBinding

pub record WebSshTicket : Type 0 where
  pub session_id : Text
  pub binding : WebSshBinding
  pub target : Target
  pub pinned_host_key : Text
  pub credential : Credential
  pub initial_size : TerminalSize
  pub expires_at : Time

pub record Manager : Type 0 where
  pub ticket_ttl : ℕ
  pub max_tickets : ℕ
  pub max_consumed : ℕ
  pub closed : Bool
  pub tickets : Table WebSshTicket
  pub consumed : Table Time

pub data TicketError : Type 0 where
  random_failed capacity_reached collision : TicketError
  invalid_ticket ticket_replayed ticket_expired ticket_binding_mismatch : TicketError

pub data RequestError : Type 0 where
  request_invalid target_refused host_key_invalid private_key_invalid : RequestError

-- validBoundID and validSSHUser
unfoldable pub valid_name : ℕ → Text → Bool
unfolding has_control has_space
valid_name most value =
    not (ltb (length value) 1 || ltb most (length value) || not (text_eq value (trim_space value)))
    && not (has_control value || has_space value)

abbrev is_there {ℓ} : {A : Type ℓ} → Option A → Bool
is_there none = false
is_there (some a) = true

abbrev key_parses : {Key Signer : Type 0} → Ssh Key Signer → Credential → Bool
key_parses ssh c =
    if length c.passphrase == 0
    then is_there (ssh.parse_private_key c.private_key_pem)
    else is_there (ssh.parse_private_key_with_passphrase c.private_key_pem c.passphrase)

-- `target_allowed` is `sshconnector.ValidateTargetLiteral`.
unfoldable pub validate_webssh_ticket_request :
    {Key Signer : Type 0}
    → Ssh Key Signer
    → (Text → Bool → Bool)
    → WebSshTicketRequest
    → Bool
    → Check RequestError
unfolding valid_name
validate_webssh_ticket_request ssh target_allowed r allow_private = do
  reject_if
      (not (text_eq r.protocol protocol_version)
        || not (text_eq r.binding.action action_webssh)
        || not (valid_name 128 r.binding.principal_id)
        || not (valid_name 128 r.binding.host_id)
        || not (valid_name 128 r.binding.credential_id)
        || length (trim_space r.target.address) == 0
        || not (text_eq r.target.address (trim_space r.target.address))
        || ltb 253 (length r.target.address)
        || ltb_ℤ r.target.port (pos 1)
        || ltb_ℤ (pos 65535) r.target.port
        || not (valid_name 64 r.target.user)
        || length r.pinned_host_key == 0
        || ltb 16384 (length r.pinned_host_key)
        || length r.credential.private_key_pem == 0
        || ltb 49152 (length r.credential.private_key_pem)
        || ltb 4096 (length r.credential.passphrase)
        || not (valid_terminal_size r.initial_size))
      request_invalid
  guard (target_allowed r.target.address allow_private) target_refused
  guard (is_there (parse_pinned_host_key ssh r.pinned_host_key)) host_key_invalid
  guard (key_parses ssh r.credential) private_key_invalid

-- pruneLocked
abbrev pub prune : Manager → Time → Manager
prune m now = record m {
  tickets = keep (λ t. ltb now t.expires_at) m.tickets;
  consumed = keep (λ expires. ltb now expires) m.consumed;
}

-- Close, as far as the manager's own state goes.
unfoldable pub close : Manager → Manager
close m = if m.closed then m else record m { closed = true; tickets = [] }

abbrev pub entry_of : WebSshTicketRequest → Text → Time → WebSshTicket
entry_of r session_id expires_at = record {
  session_id = session_id;
  binding = r.binding;
  target = r.target;
  pinned_host_key = r.pinned_host_key;
  credential = r.credential;
  initial_size = r.initial_size;
  expires_at = expires_at;
}

abbrev pub same_binding : WebSshBinding → WebSshBinding → Bool
same_binding left right =
    text_eq left.principal_id right.principal_id
    && text_eq left.host_id right.host_id
    && text_eq left.credential_id right.credential_id
    && text_eq left.action right.action

module _ (sha256 : Text → Text) where
  -- `random` are the 32 bytes of the ticket and the 16 of the session.
  unfoldable pub create_ticket :
      Manager
      → WebSshTicketRequest
      → Option (Text × Text)
      → Time
      → Manager × Result TicketError WebSshTicketResponse
  create_ticket m r none now = (m, err random_failed)
  create_ticket m r (some (ticket, session)) now =
      let p = prune m now in
      if p.closed || leb p.max_tickets (length p.tickets) || leb p.max_consumed (length p.consumed)
      then (p, err capacity_reached)
      else if is_there (lookup (sha256 ticket) p.tickets)
      then (p, err collision)
      else (
        record p {
          tickets =
              insert (sha256 ticket) (entry_of r (Base64.encode session) (now + p.ticket_ttl))
                p.tickets;
        },
        ok (record {
          protocol = protocol_version;
          ticket = Base64.encode ticket;
          session_id = Base64.encode session;
          expires_at = now + p.ticket_ttl;
        }),
      )

  abbrev pub check_ticket :
      WebSshTicket → WebSshHelloMessage → Time → Result TicketError WebSshTicket
  check_ticket entry hello now =
      if not (ltb now entry.expires_at)
      then err ticket_expired
      else if not (text_eq entry.session_id hello.session_id)
          || not (same_binding entry.binding hello.binding)
          || not (text_eq hello.message_type (codes "hello"))
      then err ticket_binding_mismatch
      else ok entry

  unfoldable pub take_ticket :
      Manager → Text → WebSshHelloMessage → Time → Manager × Result TicketError WebSshTicket
  take_ticket m hash hello now =
      let p = prune m now in
      elim (lookup hash p.tickets) [
        | none ↦ (
          p,
          if is_there (lookup hash p.consumed) then err ticket_replayed else err invalid_ticket,
        )
        | some entry ↦ (
          record p {
            tickets = delete hash p.tickets;
            consumed = insert hash (now + p.ticket_ttl) p.consumed;
          },
          check_ticket entry hello now,
        )
      ]

  unfoldable pub consume_ticket :
      Manager → WebSshHelloMessage → Time → Manager × Result TicketError WebSshTicket
  unfolding take_ticket
  consume_ticket m hello now = elim (Base64.decode false hello.ticket) [
    | none ↦ (m, err invalid_ticket)
    | some decoded ↦
        if not (length decoded == 32)
        then (m, err invalid_ticket)
        else take_ticket m (sha256 decoded) hello now
  ]
