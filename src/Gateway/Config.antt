-- ===== src/Gateway/Config.antt =====
-- services/websshgateway/broker.go: the limits of the gateway, their defaults and bounds.
use mathlib.Core.Path.{subst}
use vps_manager.Base.{
  false, ℕ, ◌+◌, ◌*◌, ◌≤◌, ◌≡◌, ℤ, pos, pos_part, neg_part, ltb_ℤ, leb_ℤ, Bool, ◌||◌, arith,
  Duration, second, minute, hour, if◌then◌else◌, Result, ok, ◌>>◌, reject_if,
}

-- The parts of Config that are numbers.
pub record Limits : Type 0 where
  pub ticket_ttl : Duration
  pub handshake_timeout : Duration
  pub connector_dial_timeout : Duration
  pub authorization_timeout : Duration
  pub authorization_interval : Duration
  pub idle_timeout : Duration
  pub absolute_timeout : Duration
  pub write_timeout : Duration
  pub max_concurrent : ℤ
  pub max_outstanding_tickets : ℤ
  pub max_input_message_bytes : ℤ
  pub max_output_message_bytes : ℤ
  pub input_bytes_per_second : ℤ
  pub output_bytes_per_second : ℤ

pub data ConfigError : Type 0 where
  timeout_out_of_bounds capacity_out_of_bounds : ConfigError

-- setDurationDefault, setIntDefault, setInt64Default
abbrev pub set_default : ℤ → ℕ → ℤ
set_default value fallback = if leb_ℤ value (pos 0) then pos fallback else value

unfoldable pub with_defaults : Limits → Limits
with_defaults c = record {
  ticket_ttl = set_default c.ticket_ttl (20 * second);
  handshake_timeout = set_default c.handshake_timeout (5 * second);
  connector_dial_timeout = set_default c.connector_dial_timeout (5 * second);
  authorization_timeout = set_default c.authorization_timeout (2 * second);
  authorization_interval = set_default c.authorization_interval (5 * second);
  idle_timeout = set_default c.idle_timeout (10 * minute);
  absolute_timeout = set_default c.absolute_timeout hour;
  write_timeout = set_default c.write_timeout (5 * second);
  max_concurrent = set_default c.max_concurrent 4;
  max_outstanding_tickets = set_default c.max_outstanding_tickets 128;
  max_input_message_bytes = set_default c.max_input_message_bytes 16384;
  max_output_message_bytes = set_default c.max_output_message_bytes 16384;
  input_bytes_per_second = set_default c.input_bytes_per_second 65536;
  output_bytes_per_second = set_default c.output_bytes_per_second 262144;
}

abbrev has_bad_timeout : Limits → Bool
has_bad_timeout c =
    ltb_ℤ (pos (30 * second)) c.ticket_ttl
    || ltb_ℤ (pos (15 * second)) c.handshake_timeout
    || ltb_ℤ (pos (30 * second)) c.connector_dial_timeout
    || ltb_ℤ (pos (5 * second)) c.authorization_timeout
    || ltb_ℤ (pos (5 * second)) c.authorization_interval
    || ltb_ℤ (pos hour) c.idle_timeout
    || ltb_ℤ (pos (8 * hour)) c.absolute_timeout
    || ltb_ℤ c.absolute_timeout c.idle_timeout
    || ltb_ℤ (pos (10 * second)) c.write_timeout

abbrev has_bad_capacity : Limits → Bool
has_bad_capacity c =
    ltb_ℤ (pos 64) c.max_concurrent
    || ltb_ℤ (pos 4096) c.max_outstanding_tickets
    || ltb_ℤ (pos 65536) c.max_input_message_bytes
    || ltb_ℤ (pos 65536) c.max_output_message_bytes
    || ltb_ℤ (pos 4194304) c.input_bytes_per_second
    || ltb_ℤ (pos 8388608) c.output_bytes_per_second

unfoldable pub apply_config_defaults : Limits → Result ConfigError Limits
unfolding with_defaults
apply_config_defaults c = do
  reject_if (has_bad_timeout (with_defaults c)) timeout_out_of_bounds
  reject_if (has_bad_capacity (with_defaults c)) capacity_out_of_bounds
  ok (with_defaults c)

abbrev pub Between : ℕ → ℤ → ℕ → Type 0
Between least n most = (least + neg_part n ≤ pos_part n) × (pos_part n ≤ most + neg_part n)

-- What every accepted configuration keeps to.
pub record IsBounded (c : Limits) : Type 0 where
  pub ticket_ttl : Between 1 c.ticket_ttl (30 * second)
  pub handshake : Between 1 c.handshake_timeout (15 * second)
  pub dial : Between 1 c.connector_dial_timeout (30 * second)
  pub authorization : Between 1 c.authorization_timeout (5 * second)
  pub interval : Between 1 c.authorization_interval (5 * second)
  pub idle : Between 1 c.idle_timeout hour
  pub absolute : Between 1 c.absolute_timeout (8 * hour)
  pub ordered : pos_part c.idle_timeout ≤ pos_part c.absolute_timeout
  pub write : Between 1 c.write_timeout (10 * second)
  pub concurrent : Between 1 c.max_concurrent 64
  pub tickets : Between 1 c.max_outstanding_tickets 4096
  pub input : Between 1 c.max_input_message_bytes 65536
  pub output : Between 1 c.max_output_message_bytes 65536
  pub input_rate : Between 1 c.input_bytes_per_second 4194304
  pub output_rate : Between 1 c.output_bytes_per_second 8388608

set_default-Between :
    (n : ℤ) (fallback most : ℕ)
    → 1 ≤ fallback
    → ltb_ℤ (pos most) (set_default n fallback) ≡ false
    → Between 1 (set_default n fallback) most
set_default-Between n fallback most h small = (ground arith, ground arith)

set_default-le :
    (m n : ℤ) (f g : ℕ)
    → ltb_ℤ (set_default n g) (set_default m f) ≡ false
    → pos_part (set_default m f) ≤ pos_part (set_default n g)
set_default-le m n f g h = ground arith

with_defaults-IsBounded :
    (c : Limits)
    → has_bad_timeout (with_defaults c) ≡ false
    → has_bad_capacity (with_defaults c) ≡ false
    → IsBounded (with_defaults c)
unfolding with_defaults
with_defaults-IsBounded c timeouts capacities = record {
  ticket_ttl =
      set_default-Between c.ticket_ttl (20 * second) (30 * second) (omega arith)
        (ground (arith, timeouts));
  handshake =
      set_default-Between c.handshake_timeout (5 * second) (15 * second) (omega arith)
        (ground (arith, timeouts));
  dial =
      set_default-Between c.connector_dial_timeout (5 * second) (30 * second) (omega arith)
        (ground (arith, timeouts));
  authorization =
      set_default-Between c.authorization_timeout (2 * second) (5 * second) (omega arith)
        (ground (arith, timeouts));
  interval =
      set_default-Between c.authorization_interval (5 * second) (5 * second) (omega arith)
        (ground (arith, timeouts));
  idle =
      set_default-Between c.idle_timeout (10 * minute) hour (omega arith)
        (ground (arith, timeouts));
  absolute =
      set_default-Between c.absolute_timeout hour (8 * hour) (omega arith)
        (ground (arith, timeouts));
  ordered =
      set_default-le c.idle_timeout c.absolute_timeout (10 * minute) hour
        (ground (arith, timeouts));
  write =
      set_default-Between c.write_timeout (5 * second) (10 * second) (omega arith)
        (ground (arith, timeouts));
  concurrent = set_default-Between c.max_concurrent 4 64 (omega arith) (ground (arith, capacities));
  tickets =
      set_default-Between c.max_outstanding_tickets 128 4096 (omega arith)
        (ground (arith, capacities));
  input =
      set_default-Between c.max_input_message_bytes 16384 65536 (omega arith)
        (ground (arith, capacities));
  output =
      set_default-Between c.max_output_message_bytes 16384 65536 (omega arith)
        (ground (arith, capacities));
  input_rate =
      set_default-Between c.input_bytes_per_second 65536 4194304 (omega arith)
        (ground (arith, capacities));
  output_rate =
      set_default-Between c.output_bytes_per_second 262144 8388608 (omega arith)
        (ground (arith, capacities));
}

-- A configuration that is accepted has every limit positive and within its bound, and its idle timeout
-- within its absolute timeout, whatever was given.
pub apply_config_defaults-IsBounded : (c d : Limits) → apply_config_defaults c ≡ ok d → IsBounded d
unfolding apply_config_defaults
apply_config_defaults-IsBounded c d h =
    let same : with_defaults c ≡ d = ground (arith, h) in
    subst IsBounded same (with_defaults-IsBounded c (ground (arith, h)) (ground (arith, h)))
