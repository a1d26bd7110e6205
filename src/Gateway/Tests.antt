-- ===== src/Gateway/Tests.antt =====
-- A broker at work, and its theorems at concrete inputs.
use vps_manager.Base.{
  ◌+◌, ◌⊎◌, ◌*◌, ◌≡◌, ◌≢◌, ◌<◌, ◌≤◌, refl, true, false, some, List, [], ◌∷◌, arith, pos, second,
  Text, codes, lookup, insert, delete, keep, length, text_eq, trim_space, has_control, sort_by,
  IsBytes, Result, ok, err, text_lt,
}
use vps_manager.Encoding.Base64
use vps_manager.Gateway.Validation.{Binding, HelloMessage, normalize_binding, has_space}
use vps_manager.Gateway.Config.{
  Limits, IsBounded, apply_config_defaults, apply_config_defaults-IsBounded,
}
use vps_manager.Gateway.{
  Broker, BrowserTicket, Draft, IssueResponse, new_broker, reserve_ticket, store_ticket,
  store_draft, consume_ticket, new_ticket, prune,
}
use vps_manager.Gateway.Tickets.{Step, drops, closes, run, consume_ticket_once}
use vps_manager.Gateway.Handover.{consumed_is_bound, consume_ticket-store_draft}
use vps_manager.Gateway.Capacity.{
  Issuing, Reach, here, next, reserves, fresh, IsHindered, reserved_has_room,
}

abbrev hash : Text → Text
hash s = s

abbrev limits : Limits
limits = record {
  ticket_ttl = pos 0;
  handshake_timeout = pos 0;
  connector_dial_timeout = pos 0;
  authorization_timeout = pos 0;
  authorization_interval = pos 0;
  idle_timeout = pos (30 * second);
  absolute_timeout = pos 0;
  write_timeout = pos 0;
  max_concurrent = pos 0;
  max_outstanding_tickets = pos 2;
  max_input_message_bytes = pos 0;
  max_output_message_bytes = pos 0;
  input_bytes_per_second = pos 0;
  output_bytes_per_second = pos 0;
}

abbrev limits_or : {E : Type 0} → Limits → Result E Limits → Limits
limits_or d (ok c) = c
limits_or d (err e) = d

abbrev limits_in_use : Limits
limits_in_use = limits_or limits (apply_config_defaults limits)

limits_accepted : apply_config_defaults limits ≡ ok limits_in_use
unfolding apply_config_defaults
limits_accepted = refl

apply_config_defaults-IsBounded_example : IsBounded limits_in_use
apply_config_defaults-IsBounded_example =
    apply_config_defaults-IsBounded limits limits_in_use limits_accepted

abbrev binding : Binding
binding = record {
  principal_id = codes "user_1";
  session_id = codes "session_1";
  roles = codes "admin" ∷ codes "operator" ∷ [];
  host_id = codes "host_1";
  credential_id = codes "cred_1";
  action = codes "web_ssh_v1";
}

abbrev raw : Text
raw = codes "0123456789abcdef0123456789abcdef"

abbrev a_draft : Draft
a_draft = record {
  upstream = (codes "up", codes "stream");
  raw = raw;
  connection = codes "conn";
  expires_at = 100;
}

abbrev broker : Broker
broker = record {
  ticket_ttl = 20 * second;
  max_outstanding = 2;
  closed = false;
  issuing = 1;
  tickets = [];
  consumed = [];
}

abbrev entry : BrowserTicket
entry = new_ticket binding (codes "maintenance") (codes "up", codes "stream") (codes "conn") 100

abbrev holding : Broker
holding = record broker { tickets = (raw, entry) ∷ [] }

abbrev response : IssueResponse
response = record { ticket = Base64.encode raw; connection_id = codes "conn"; expires_at = 100 }

issues :
    store_draft hash broker binding (codes "maintenance") (ok a_draft) 10 ≡ (holding, ok response)
unfolding store_draft keep lookup insert delete
issues = refl

-- The roles in another order.
abbrev hello : HelloMessage
hello = record {
  message_type = codes "hello";
  ticket = Base64.encode raw;
  connection_id = codes "conn";
  binding = record binding { roles = codes "operator" ∷ codes "admin" ∷ [] };
}

normalizes : normalize_binding hello.binding ≡ ok binding
unfolding normalize_binding trim_space text_eq has_control has_space sort_by text_lt
normalizes = refl

raw-IsBytes : IsBytes raw
raw-IsBytes = omega arith

consume_ticket-store_draft_example :
    (consume_ticket hash holding hello 50).1
    ≡ ok (new_ticket binding (codes "maintenance") (codes "up", codes "stream") (codes "conn") 100)
consume_ticket-store_draft_example =
    consume_ticket-store_draft hash broker holding binding (codes "maintenance") a_draft 10 response
      hello 50 issues raw-IsBytes refl refl refl refl normalizes (omega arith)

consumed_is_bound_example :
    (r : Text) × (Base64.decode false hello.ticket ≡ some r)
    × (length r ≡ 32)
    × (lookup (hash r) (prune holding 50).tickets ≡ some entry)
    × (50 < entry.expires_at)
    × (hello.connection_id ≡ entry.connection_id)
    × (normalize_binding hello.binding ≡ ok entry.binding)
consumed_is_bound_example =
    consumed_is_bound hash holding hello 50 entry consume_ticket-store_draft_example

decodes : Base64.decode false hello.ticket ≡ some raw
decodes = Base64.decode-encode false raw raw-IsBytes

abbrev in_between : List Step
in_between = drops 55 ∷ closes ∷ []

consume_ticket_once_example :
    (consume_ticket hash (run hash (consume_ticket hash holding hello 50).0 in_between) hello 60).1
    ≢ ok entry
consume_ticket_once_example =
    consume_ticket_once hash holding hello hello raw 50 60 in_between entry decodes decodes tt

abbrev reserved : Issuing
reserved = record { broker = (reserve_ticket (new_broker 20 2) 5).0; waiting = 1; leaving = 0 }

reserves_one : (reserve_ticket (new_broker 20 2) 5).1 ≡ true
unfolding reserve_ticket new_broker keep
reserves_one = refl

is_reserved : Reach hash (fresh hash 20 2) reserved
unfolding reserve_ticket
is_reserved = next here (reserves (fresh hash 20 2) 5 reserves_one)

reserved_has_room_example :
    (length reserved.broker.tickets + 1 ≤ 2)
    × (IsHindered hash 2 reserved raw ⊎ ((store_ticket reserved.broker raw entry 6).1 ≡ true))
reserved_has_room_example = reserved_has_room hash 20 2 reserved raw entry 6 is_reserved
