-- ===== src/Acquisition/Types.antt =====
-- The data of internal/acquisition/reading.go, internal/connection, internal/device and
-- internal/datapoint. A text is the
-- list of its bytes, a float64 its bits, and an id an int64 bit pattern.
use nx_iio_t_gateway_max_gat.Shared.{ℕ, Bool, List, Option}
use nx_iio_t_gateway_max_gat.Modbus.Decode.{DataType}
use nx_iio_t_gateway_max_gat.Modbus.Quality.{Quality}

-- WordOrder, which nothing reads, is left out.
pub record DataPoint : Type 0 where
  pub id : ℕ
  pub device_id : ℕ
  pub tag_name : List ℕ
  pub function_code : ℕ
  pub register_address : ℕ
  pub data_type : DataType
  pub byte_order : List ℕ
  pub scale : ℕ
  pub offset : ℕ
  pub unit : List ℕ
  pub enabled : Bool

pub record Device : Type 0 where
  pub id : ℕ
  pub name : List ℕ
  pub connection_id : ℕ
  pub slave_id : ℕ
  pub enabled : Bool

-- A protocol is one of the two, or another text.
pub data Protocol : Type 0 where
  tcp rtu : Protocol
  other : List ℕ → Protocol

pub record Connection : Type 0 where
  pub id : ℕ
  pub name : List ℕ
  pub protocol : Protocol
  pub interface : List ℕ
  pub ip_address : List ℕ
  pub port : ℕ
  pub timeout_ms : ℕ
  pub retry : ℕ
  pub enabled : Bool
  pub next_device_delay_ms : ℕ
  pub baud_rate : ℕ
  pub data_bits : ℕ
  pub parity : List ℕ
  pub stop_bits : ℕ

-- One acquired value.
pub record Acquired : Type 0 where
  pub device_id : ℕ
  pub device_name : List ℕ
  pub datapoint_id : ℕ
  pub tag : List ℕ
  pub value : Option ℕ
  pub quality : Quality
  pub unit : List ℕ
  pub event_time : ℕ

-- deviceWithPoints of internal/acquisition/poller.go.
pub record DeviceWithPoints : Type 0 where
  pub device : Device
  pub dps : List DataPoint
