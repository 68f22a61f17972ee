-- ===== src/Acquisition/Pipeline.antt =====
-- cmd/gateway/main.go and internal/processor/processor.go: where a reading goes. The callback keeps
-- the status of the device and the latest value, and puts the reading into the queue.
pub mod Reach
use nx_iio_t_gateway_max_gat.Shared.{ℕ, Bool, true, false, List, [], ◌∷◌, map}
use nx_iio_t_gateway_max_gat.Modbus.Quality.{
  Quality, good, timeout, crc_error, device_offline, invalid,
}
use nx_iio_t_gateway_max_gat.Queue.Types.{Reading}
use nx_iio_t_gateway_max_gat.Queue.Codec.Names.{bytes_of}
use nx_iio_t_gateway_max_gat.Queue.Store.{Store, append}
use nx_iio_t_gateway_max_gat.Acquisition.Types.{Acquired}
use nx_iio_t_gateway_max_gat.Acquisition.Tables.{
  LatestValue, LatestStore, update_latest, StatusStore, update_status,
}

-- The texts of the constants of internal/modbus/quality.go.
unfoldable pub quality_text : Quality → List ℕ
quality_text good = bytes_of "GOOD"
quality_text timeout = bytes_of "TIMEOUT"
quality_text crc_error = bytes_of "CRC_ERROR"
quality_text device_offline = bytes_of "DEVICE_OFFLINE"
quality_text invalid = bytes_of "INVALID"

-- What Process queues.
unfoldable pub queued : Acquired → Reading
unfolding quality_text
queued r = record {
  device_id = r.device_id;
  datapoint_id = r.datapoint_id;
  value = r.value;
  quality = quality_text r.quality;
  time = r.event_time;
}

unfoldable pub process : Acquired → Store → Store
unfolding queued append
process r s = append (queued r) s

pub record Gateway : Type 0 where
  pub status : StatusStore
  pub latest : LatestStore
  pub queue : Store

unfoldable pub latest_of : Acquired → LatestValue
unfolding quality_text
latest_of r = record {
  value = r.value;
  quality = quality_text r.quality;
  unit = r.unit;
  at = r.event_time;
}

-- `disabled` is StoreForward.Disabled.
unfoldable pub on_reading : Bool → Acquired → Gateway → Gateway
unfolding update_status update_latest process latest_of
on_reading disabled r g = record {
  status = update_status r.device_id (quality_text r.quality) r.event_time g.status;
  latest = update_latest r.datapoint_id (latest_of r) g.latest;
  queue = elim disabled [ true ↦ g.queue | false ↦ process r g.queue ];
}

-- The calls of one pass, in order.
unfoldable pub on_readings : Bool → List Acquired → Gateway → Gateway
unfolding on_reading
on_readings disabled [] g = g
on_readings disabled (r ∷ rs) g = on_readings disabled rs (on_reading disabled r g)
