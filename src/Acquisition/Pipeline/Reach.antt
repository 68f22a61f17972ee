-- ===== src/Acquisition/Pipeline/Reach.antt =====
-- What the readings of a pass leave behind in the gateway.
use nx_iio_t_gateway_max_gat.Shared.{
  ℕ, ◌<◌, ◌≡◌, refl, List, [], ◌∷◌, Option, some, arith, ◌==◌, if◌then◌else◌,
}
use nx_iio_t_gateway_max_gat.Modbus.Quality.{
  Quality, good, timeout, crc_error, device_offline, invalid,
}
use nx_iio_t_gateway_max_gat.Queue.Codec.Names.{quality_code, same_bytes}
use nx_iio_t_gateway_max_gat.Queue.Store.{Codec}
use nx_iio_t_gateway_max_gat.Acquisition.Types.{Acquired}
use nx_iio_t_gateway_max_gat.Acquisition.Tables.{LatestValue}
use nx_iio_t_gateway_max_gat.Acquisition.Pipeline.{quality_text, latest_of}

-- The last reading of a datapoint in a pass, or what was there before.
abbrev pub last_reading : ℕ → List Acquired → Option LatestValue → Option LatestValue
last_reading id [] before = before
last_reading id (r ∷ rs) before =
    last_reading id rs (if id == r.datapoint_id then some (latest_of r) else before)

-- Whatever the poller reports has a quality with a code of one byte in the chunk format.
pub quality_code-quality_text :
    (q : Quality) → (code : ℕ) × (quality_code (quality_text q) ≡ some code) × (code < 5)
unfolding quality_code quality_text same_bytes
quality_code-quality_text good = (0, refl, omega arith)
quality_code-quality_text timeout = (1, refl, omega arith)
quality_code-quality_text crc_error = (2, refl, omega arith)
quality_code-quality_text device_offline = (3, refl, omega arith)
quality_code-quality_text invalid = (4, refl, omega arith)
