-- ===== src/Connector/WebSsh/Limits.antt =====
-- services/connector/service/webssh.go: the options of web SSH, their defaults and bounds.
use vps_manager.Base.{
  ℕ, ◌*◌, ◌≤◌, ◌≡◌, ℤ, pos, pos_part, leb_ℤ, false, [], arith, Duration, second, minute, hour,
  if◌then◌else◌, Result, ok, ◌>>=◌, ◌>>◌, reject_if, ltb,
}
use vps_manager.Connector.WebSsh.{Manager}

-- The options that are numbers.
pub record WebSshOptions : Type 0 where
  pub ticket_ttl : Duration
  pub handshake_timeout : Duration
  pub idle_timeout : Duration
  pub absolute_timeout : Duration
  pub max_concurrent : ℤ
  pub max_outstanding_tickets : ℤ
  pub max_input_message_bytes : ℤ
  pub max_output_message_bytes : ℤ
  pub input_bytes_per_second : ℤ
  pub output_bytes_per_second : ℤ
  pub connect_timeout : Duration

pub record Limits : Type 0 where
  pub ticket_ttl : ℕ
  pub handshake_timeout : ℕ
  pub idle_timeout : ℕ
  pub absolute_timeout : ℕ
  pub max_concurrent : ℕ
  pub max_outstanding_tickets : ℕ
  pub max_input_message_bytes : ℕ
  pub max_output_message_bytes : ℕ
  pub input_bytes_per_second : ℕ
  pub output_bytes_per_second : ℕ
  pub connect_timeout : ℕ

pub data OptionsError : Type 0 where
  ticket_ttl_too_large : OptionsError
  handshake_timeout_too_large : OptionsError
  idle_timeout_too_large : OptionsError
  absolute_timeout_too_large : OptionsError
  max_concurrent_too_large : OptionsError
  max_outstanding_tickets_too_large : OptionsError
  max_input_message_bytes_too_large : OptionsError
  max_output_message_bytes_too_large : OptionsError
  input_bytes_per_second_too_large : OptionsError
  output_bytes_per_second_too_large : OptionsError
  connect_timeout_too_large : OptionsError

-- A value that is not positive stands for its default.
abbrev pub or_default : ℤ → ℕ → ℕ
or_default n default = if leb_ℤ n (pos 0) then default else pos_part n

unfoldable pub web_ssh_limits : WebSshOptions → Result OptionsError Limits
web_ssh_limits o = do
  reject_if (ltb minute (or_default o.ticket_ttl (30 * second))) ticket_ttl_too_large
  reject_if (ltb (15 * second) (or_default o.handshake_timeout (5 * second)))
      handshake_timeout_too_large
  reject_if (ltb hour (or_default o.idle_timeout (10 * minute))) idle_timeout_too_large
  reject_if (ltb (8 * hour) (or_default o.absolute_timeout hour)) absolute_timeout_too_large
  reject_if (ltb 64 (or_default o.max_concurrent 4)) max_concurrent_too_large
  reject_if (ltb 4096 (or_default o.max_outstanding_tickets 128)) max_outstanding_tickets_too_large
  reject_if (ltb 65536 (or_default o.max_input_message_bytes 16384))
      max_input_message_bytes_too_large
  reject_if (ltb 65536 (or_default o.max_output_message_bytes 16384))
      max_output_message_bytes_too_large
  reject_if (ltb 4194304 (or_default o.input_bytes_per_second 65536))
      input_bytes_per_second_too_large
  reject_if (ltb 8388608 (or_default o.output_bytes_per_second 262144))
      output_bytes_per_second_too_large
  reject_if (ltb (30 * second) (or_default o.connect_timeout (10 * second)))
      connect_timeout_too_large
  ok (record {
    ticket_ttl = or_default o.ticket_ttl (30 * second);
    handshake_timeout = or_default o.handshake_timeout (5 * second);
    idle_timeout = or_default o.idle_timeout (10 * minute);
    absolute_timeout = or_default o.absolute_timeout hour;
    max_concurrent = or_default o.max_concurrent 4;
    max_outstanding_tickets = or_default o.max_outstanding_tickets 128;
    max_input_message_bytes = or_default o.max_input_message_bytes 16384;
    max_output_message_bytes = or_default o.max_output_message_bytes 16384;
    input_bytes_per_second = or_default o.input_bytes_per_second 65536;
    output_bytes_per_second = or_default o.output_bytes_per_second 262144;
    connect_timeout = or_default o.connect_timeout (10 * second);
  })

-- newWebSSHManager, once the origins are read.
unfoldable pub new_manager : WebSshOptions → Result OptionsError Manager
unfolding web_ssh_limits
new_manager o = do
  limits ← web_ssh_limits o
  ok (record {
    ticket_ttl = limits.ticket_ttl;
    max_tickets = limits.max_outstanding_tickets;
    max_consumed = limits.max_outstanding_tickets * 4;
    closed = false;
    tickets = [];
    consumed = [];
  })

-- A manager's tickets are good for a minute at most.
pub new_manager_bounds :
    (o : WebSshOptions) (m : Manager)
    → new_manager o ≡ ok m
    → (1 ≤ m.ticket_ttl) × (m.ticket_ttl ≤ minute) × (1 ≤ m.max_tickets) × (m.max_tickets ≤ 4096)
unfolding new_manager
new_manager_bounds o m h =
    (ground (arith, h), ground (arith, h), ground (arith, h), ground (arith, h))
