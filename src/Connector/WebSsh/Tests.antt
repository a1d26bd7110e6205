-- ===== src/Connector/WebSsh/Tests.antt =====
-- A manager of web SSH tickets at work, and its theorems at concrete inputs.
use vps_manager.Base.{
  ◌*◌, ◌≡◌, ◌≢◌, refl, false, Option, some, none, [], ◌∷◌, arith, ℤ, pos, second, Text, codes, keep,
  lookup, insert, delete, ok, IsBytes,
}
use vps_manager.Encoding.Base64
use vps_manager.RequestAuth.{protocol_version}
use vps_manager.Gateway.{WebSshTicketResponse, validate_connector_response}
use vps_manager.Gateway.Validation.{action_webssh}
use vps_manager.Connector.WebSsh.{Manager, WebSshTicketRequest, create_ticket, entry_of}
use vps_manager.Connector.WebSsh.Limits.{WebSshOptions, new_manager, web_ssh_limits}
use vps_manager.Connector.WebSsh.Input.{write_all, write_all_ends}
use vps_manager.Connector.WebSsh.Handshake.{consume_ticket-create_ticket}
use vps_manager.Connector.WebSsh.{WebSshHelloMessage, consume_ticket}
use vps_manager.Connector.WebSsh.Issued.{validate-create_ticket}

abbrev hash : Text → Text
hash s = s

abbrev options : WebSshOptions
options = record {
  ticket_ttl = pos (20 * second);
  handshake_timeout = pos 0;
  idle_timeout = pos 0;
  absolute_timeout = pos 0;
  max_concurrent = pos 0;
  max_outstanding_tickets = pos 2;
  max_input_message_bytes = pos 0;
  max_output_message_bytes = pos 0;
  input_bytes_per_second = pos 0;
  output_bytes_per_second = pos 0;
  connect_timeout = pos 0;
}

abbrev manager : Manager
manager = record {
  ticket_ttl = 20 * second;
  max_tickets = 2;
  max_consumed = 8;
  closed = false;
  tickets = [];
  consumed = [];
}

opens : new_manager options ≡ ok manager
unfolding new_manager web_ssh_limits
opens = refl

abbrev request : WebSshTicketRequest
request = record {
  protocol = protocol_version;
  binding = record {
    principal_id = codes "user_1";
    host_id = codes "host_1";
    credential_id = codes "cred_1";
    action = action_webssh;
  };
  target = record { address = codes "10.0.0.5"; port = pos 22; user = codes "root" };
  pinned_host_key = codes "ssh-ed25519 AAAA";
  credential = record { private_key_pem = codes "key"; passphrase = [] };
  initial_size = record { columns = 80; rows = 24; width_pixels = 0; height_pixels = 0 };
}

abbrev raw : Text
raw = codes "0123456789abcdef0123456789abcdef"

abbrev raw_session : Text
raw_session = codes "0123456789abcdef"

abbrev response : WebSshTicketResponse
response = record {
  protocol = protocol_version;
  ticket = Base64.encode raw;
  session_id = Base64.encode raw_session;
  expires_at = 20 * second;
}

abbrev holding : Manager
holding = record manager {
  tickets = (raw, entry_of request (Base64.encode raw_session) (20 * second)) ∷ [];
}

issues : create_ticket hash manager request (some (raw, raw_session)) 0 ≡ (holding, ok response)
unfolding create_ticket keep lookup insert delete
issues = refl

abbrev hello : WebSshHelloMessage
hello = record {
  message_type = codes "hello";
  ticket = Base64.encode raw;
  session_id = Base64.encode raw_session;
  binding = request.binding;
}

raw-IsBytes : IsBytes raw
raw-IsBytes = omega arith

raw_session-IsBytes : IsBytes raw_session
raw_session-IsBytes = omega arith

validate-create_ticket_example :
    validate_connector_response response second ≡ some (response.ticket, response.session_id)
validate-create_ticket_example =
    validate-create_ticket hash options manager manager holding request raw raw_session 0 second
      response opens refl issues raw-IsBytes raw_session-IsBytes refl refl (omega arith)
      (omega arith)

-- A writer that takes a byte each time, and has what it was given.
abbrev byte_writer : Text → Text → Text × Option ℤ
byte_writer s [] = (s, some (pos 0))
byte_writer s (c ∷ value) = (c ∷ s, some (pos 1))

write_all_ends_example : write_all byte_writer 3 [] (codes "ls\n") ≢ none
write_all_ends_example = write_all_ends byte_writer 3 [] (codes "ls\n") (omega arith)

consume_ticket-create_ticket_example :
    (consume_ticket hash holding hello second).1
    ≡ ok (entry_of request response.session_id response.expires_at)
consume_ticket-create_ticket_example =
    consume_ticket-create_ticket hash manager holding request raw raw_session 0 response hello
      second issues raw-IsBytes refl refl refl refl refl (omega arith)
