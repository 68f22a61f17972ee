-- ===== src/Acquisition/Validation.antt =====
-- Validate of internal/connection, internal/device and internal/datapoint, and the building of a
-- client in internal/acquisition/poller.go. An int is an int64 bit pattern.
pub mod Accepted
use nx_iio_t_gateway_max_gat.Shared.{
  ℕ, zero, suc, ◌+◌, ◌-◌, ◌*◌, ◌/◌, ◌%◌, ◌^◌, ◌≤◌, ◌≡◌, refl, Bool, true, false, not, ◌&&◌, ◌||◌,
  List, [], ◌∷◌, ◌++◌, Option, none, some, arith, ltb, leb, ◌==◌, if◌then◌else◌, All, two63, two64,
  is_neg64, lt64, wrap64,
}
use nx_iio_t_gateway_max_gat.Queue.Codec.Names.{bytes_of, same_bytes}
use nx_iio_t_gateway_max_gat.Modbus.Decode.{byte_width}
use nx_iio_t_gateway_max_gat.Acquisition.Types.{
  Protocol, tcp, rtu, other, Connection, Device, DataPoint,
}

-- The errors, one constructor for each message.
pub data Refusal : Type 0 where
  no_name no_ip_address bad_port no_interface bad_baud_rate bad_parity bad_protocol : Refusal
  bad_timeout bad_retry bad_delay : Refusal
  no_connection bad_slave : Refusal
  no_tag bad_function_code bad_data_type no_scale : Refusal

-- n <= 0.
abbrev at_most_zero : ℕ → Bool
at_most_zero n = n == 0 || is_neg64 n

abbrev is_empty : List ℕ → Bool
is_empty s = same_bytes s []

-- One check, and what comes after it.
unfoldable pub check : Bool → Refusal → Option Refusal → Option Refusal
check true e rest = some e
check false e rest = rest

-- The switch on the protocol.
unfoldable pub validate_link : Protocol → Connection → Option Refusal → Option Refusal
unfolding check
validate_link tcp c rest =
    check (is_empty c.ip_address) no_ip_address
      (check (at_most_zero c.port || lt64 65535 c.port) bad_port rest)
validate_link rtu c rest = check (is_empty c.interface) no_interface (
    check (at_most_zero c.baud_rate) bad_baud_rate (
      check
        (not (same_bytes c.parity (bytes_of "N"))
          && (not (same_bytes c.parity (bytes_of "E")) && not (same_bytes c.parity (bytes_of "O"))))
        bad_parity rest))
validate_link (other p) c rest = some bad_protocol

-- `none` is nil.
unfoldable pub validate_connection : Connection → Option Refusal
unfolding check validate_link
validate_connection c = check (is_empty c.name) no_name (
    validate_link c.protocol c (
      check (at_most_zero c.timeout_ms) bad_timeout (
        check (is_neg64 c.retry) bad_retry
          (check (is_neg64 c.next_device_delay_ms) bad_delay none))))

unfoldable pub validate_device : Device → Option Refusal
unfolding check
validate_device d = check (is_empty d.name) no_name (
    check (at_most_zero d.connection_id) no_connection
      (check (lt64 d.slave_id 1 || lt64 247 d.slave_id) bad_slave none))

-- The checks of the data type, by its width, and of the scale, which may be 0 or -0.
unfoldable pub check_type : Option ℕ → ℕ → Option Refusal
unfolding check
check_type none scale = some bad_data_type
check_type (some width) scale = check (scale == 0 || scale == two63) no_scale none

unfoldable pub validate_point : DataPoint → Option Refusal
unfolding check check_type
validate_point dp = check (is_empty dp.tag_name) no_tag (
    check (not (leb 1 dp.function_code && leb dp.function_code 4)) bad_function_code
      (check_type (byte_width dp.data_type) dp.scale))

pub record TcpConfig : Type 0 where
  pub address : List ℕ
  pub timeout : ℕ

pub record RtuConfig : Type 0 where
  pub interface : List ℕ
  pub baud_rate : ℕ
  pub data_bits : ℕ
  pub parity : List ℕ
  pub stop_bits : ℕ
  pub timeout : ℕ

-- What a client of the library is made of.
pub data Client : Type 0 where
  tcp_client : TcpConfig → Client
  rtu_client : RtuConfig → Client

-- The digits of n, of which there are at most the first argument and one.
unfoldable pub digits : ℕ → ℕ → List ℕ
digits zero n = (48 + n % 10) ∷ []
digits (suc fuel) n =
    let front = digits fuel (n / 10) in
    if ltb n 10 then (48 + n) ∷ [] else front ++ ((48 + n % 10) ∷ [])

-- %d of an int: 20 digits are enough, as 2 ^ 64 < 10 ^ 20.
unfoldable pub decimal64 : ℕ → List ℕ
unfolding digits
decimal64 n = if is_neg64 n then 45 ∷ digits 19 (two64 - n) else digits 19 n

-- time.Duration(c.TimeoutMs) * time.Millisecond, in nanoseconds.
abbrev timeout_of : Connection → ℕ
timeout_of c = wrap64 (c.timeout_ms * 1000000)

unfoldable pub tcp_config : Connection → TcpConfig
unfolding decimal64
tcp_config c = record { address = c.ip_address ++ 58 ∷ decimal64 c.port; timeout = timeout_of c }

unfoldable pub rtu_config : Connection → RtuConfig
rtu_config c = record {
  interface = c.interface;
  baud_rate = c.baud_rate;
  data_bits = c.data_bits;
  parity = c.parity;
  stop_bits = c.stop_bits;
  timeout = timeout_of c;
}

-- The switch on the protocol: `none` is an error.
unfoldable pub build_for : Protocol → Connection → Option Client
unfolding tcp_config rtu_config
build_for tcp c = if is_empty c.ip_address then none else some (tcp_client (tcp_config c))
build_for rtu c = if is_empty c.interface then none else some (rtu_client (rtu_config c))
build_for (other p) c = none

unfoldable pub build_client : Connection → Option Client
unfolding build_for
build_client c = build_for c.protocol c
