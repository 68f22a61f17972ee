-- ===== src/Acquisition/Poller.antt =====
-- internal/acquisition/poller.go: one connection's devices read in turn. The client is a bus that
-- several devices share; what a read takes, and whether its context has ended, is told from outside.
pub mod Honest
pub mod Complete
use nx_iio_t_gateway_max_gat.Shared.{
  ℕ, zero, suc, ◌+◌, ◌*◌, ◌≡◌, Bool, true, false, List, [], ◌∷◌, ◌++◌, map, Option, none, some, ltb,
  leb, if◌then◌else◌, length, take, drop, ◌%◌, ◌&&◌,
}
use nx_iio_t_gateway_max_gat.Modbus.Decode.{DataType, byte_width, Floats, decode, apply_scale}
use nx_iio_t_gateway_max_gat.Modbus.Quality.{Quality, good, invalid, ReadError, quality_from_error}
use nx_iio_t_gateway_max_gat.Modbus.Client.{
  Client, Answer, bytes, failed, cancelled, nothing, Retried, read_with_retry,
}
use nx_iio_t_gateway_max_gat.Acquisition.Types.{DataPoint, Device, Acquired, DeviceWithPoints}
use nx_iio_t_gateway_max_gat.Acquisition.BlockPlan.{ReadBlock, sub16}
use nx_iio_t_gateway_max_gat.Acquisition.Diagnostics.{Counters, record_result}

-- A modbus.Client with its unit id, and what QualityFromError asks of its errors.
pub record Bus : Type 1 where
  pub S : Type 0
  pub Error : Type 0
  pub describe : Error → ReadError
  pub connect : S → S × Option Error
  pub close : S → S
  pub set_unit : ℕ → S → S
  pub read : ℕ → ℕ → ℕ → S → S × (Option Error × List ℕ)

-- The client of one request of so many registers.
abbrev pub client_of : (bus : Bus) → ℕ → ℕ → ℕ → Client
client_of bus fc address quantity = record {
  S = bus.S;
  Error = bus.Error;
  connect = bus.connect;
  close = bus.close;
  read = bus.read fc address quantity;
}

-- What happens around one block read: whether its context is done when the read has failed, the
-- error that it then has, and how long the read took.
pub record Moment : Type 0 where
  pub done : Bool
  pub context_error : ReadError
  pub elapsed : ℕ

unfoldable pub bad_reading : Device → DataPoint → ℕ → Quality → Acquired
bad_reading d dp time q = record {
  device_id = d.id;
  device_name = d.name;
  datapoint_id = dp.id;
  tag = dp.tag_name;
  value = none;
  quality = q;
  unit = dp.unit;
  event_time = time;
}

unfoldable pub good_reading : Device → DataPoint → ℕ → ℕ → Acquired
good_reading d dp time value = record {
  device_id = d.id;
  device_name = d.name;
  datapoint_id = dp.id;
  tag = dp.tag_name;
  value = some value;
  quality = good;
  unit = dp.unit;
  event_time = time;
}

module _ (fl : Floats) (bits : fl.F → ℕ) where
  scaled : Device → DataPoint → ℕ → Option fl.F → Acquired
  unfolding bad_reading good_reading
  scaled d dp time none = bad_reading d dp time invalid
  scaled d dp time (some raw) =
      good_reading d dp time
        (bits (apply_scale fl raw (fl.of_bits64 dp.scale) (fl.of_bits64 dp.offset)))

  -- The offset is a uint16 made an int, so it is never negative.
  unfoldable pub decode_and_emit : Device → DataPoint → List ℕ → ℕ → ℕ → Acquired
  unfolding scaled bad_reading
  decode_and_emit d dp raw block_start time = elim (byte_width dp.data_type) [
    | none ↦ bad_reading d dp time invalid
    | some width ↦
        let offset = sub16 dp.register_address block_start * 2 in
        if ltb (length raw) (offset + width)
        then bad_reading d dp time invalid
        else scaled d dp time (decode fl (take width (drop offset raw)) dp.data_type dp.byte_order)
  ]

  emit_device_offline : Device → List DataPoint → ℕ → Quality → List Acquired
  unfolding bad_reading
  emit_device_offline d dps time q = map (λ dp. bad_reading d dp time q) dps

  emit_decoded : Device → List DataPoint → List ℕ → ℕ → ℕ → List Acquired
  unfolding decode_and_emit
  emit_decoded d dps raw start time = map (λ dp. decode_and_emit d dp raw start time) dps

  module _ (bus : Bus) where
    -- The client, the diagnostics, what `onReading` was called with, and the two counts.
    pub record Poll : Type 0 where
      pub client : bus.S
      pub counters : Counters
      pub readings : List Acquired
      pub read_count : ℕ
      pub block_reads : ℕ

    -- The error of an answer, if it is one.
    error_of : Moment → Answer bus.Error → Option ReadError
    error_of m (bytes raw) = none
    error_of m (failed e) = some (bus.describe e)
    error_of m cancelled = some m.context_error
    error_of m nothing = none

    raw_of : Answer bus.Error → List ℕ
    raw_of (bytes raw) = raw
    raw_of _ = []

    block_readings : Device → ℕ → ReadBlock → List ℕ → Option ReadError → List Acquired
    unfolding emit_device_offline emit_decoded
    block_readings d time b raw none = emit_decoded d b.points raw b.start_address time
    block_readings d time b raw (some e) =
        emit_device_offline d b.points time (quality_from_error (some e))

    -- One pass of the loop over the blocks; the number of retries is 0.
    unfoldable pub read_block : Device → ℕ → Moment → ReadBlock → Poll → Poll
    unfolding error_of raw_of block_readings
    read_block d time m b p =
        let r =
          read_with_retry (client_of bus b.function_code b.start_address b.quantity)
            (λ attempt. m.done) 0 p.client in
        let e = error_of m r.answer in
        record {
          client = r.client;
          counters = record_result (quality_from_error e) m.elapsed r.attempts p.counters;
          readings = p.readings ++ block_readings d time b (raw_of r.answer) e;
          read_count = p.read_count + length b.points;
          block_reads = p.block_reads + 1;
        }

    -- `moments` says what happens around each block by its number.
    unfoldable pub read_blocks : Device → ℕ → (ℕ → Moment) → List ReadBlock → Poll → Poll
    unfolding read_block
    read_blocks d time moments [] p = p
    read_blocks d time moments (b ∷ bs) p =
        read_blocks d time moments bs (read_block d time (moments p.block_reads) b p)

    -- readDevice, for a plan of the device's blocks.
    unfoldable pub read_device :
        (List DataPoint → List ReadBlock) → Device → ℕ → (ℕ → Moment) → List DataPoint → Poll → Poll
    unfolding read_blocks
    read_device plan d time moments dps p =
        read_blocks d time moments (plan dps) (record p { read_count = 0; block_reads = 0 })

    -- What a turn of the loop is told: the time, what happens around the reads, and the wait after.
    pub record Turn : Type 0 where
      pub time : ℕ
      pub moments : ℕ → Moment
      pub stopped_before : Bool
      pub stopped_in_wait : Bool

    -- The devices of one round, from a connected client; `false` when the context has ended. The
    -- connection is closed then. `SetUnitID` takes the low byte.
    unfoldable pub poll_round :
        (List DataPoint → List ReadBlock)
        → (ℕ → Turn)
        → ℕ
        → List DeviceWithPoints
        → Poll
        → Poll × Bool
    unfolding read_device
    poll_round plan turns i [] p = (p, true)
    poll_round plan turns i (dg ∷ dgs) p =
        let turn = turns i in
        let after =
          read_device plan dg.device turn.time turn.moments dg.dps
            (record p { client = bus.set_unit (dg.device.slave_id % 256) p.client }) in
        let rest = poll_round plan turns (suc i) dgs after in
        elim turn.stopped_before [
          | true ↦ (record p { client = bus.close p.client }, false)
          | false ↦ elim (ltb 0 after.read_count && turn.stopped_in_wait) [
            | true ↦ (record after { client = bus.close after.client }, false)
            | false ↦ rest
          ]
        ]

    offline_all : List DeviceWithPoints → ℕ → Quality → List Acquired
    unfolding emit_device_offline
    offline_all [] time q = []
    offline_all (dg ∷ dgs) time q =
        emit_device_offline dg.device dg.dps time q ++ offline_all dgs time q

    -- The failed branch and the successful one of the `Connect` at the head of the loop.
    unfoldable pub connect_all : List DeviceWithPoints → ℕ → Poll → Poll × Bool
    unfolding offline_all
    connect_all dgs time p =
        let linked = bus.connect p.client in
        elim linked.1 [
          | none ↦ (record p { client = linked.0 }, true)
          | some e ↦ (
            record p {
              client = linked.0;
              readings =
                  p.readings ++ offline_all dgs time (quality_from_error (some (bus.describe e)));
            },
            false,
          )
        ]
