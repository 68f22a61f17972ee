-- ===== src/Queue/Types.antt =====
-- internal/queue/store.go: the values that pass through the queue.
use nx_iio_t_gateway_max_gat.Shared.{ℕ, List, Option}

-- Ids and the time are int64 bit patterns; a float64 is its 64 bits, and a text its bytes. `time` is
-- At.UnixMilli(), the only thing that the queue reads of the field At: what At has below a
-- millisecond is not kept by the program, and is left out. `none` is the nil pointer of a reading whose quality is not GOOD.
pub record Reading : Type 0 where
  pub device_id : ℕ
  pub datapoint_id : ℕ
  pub value : Option ℕ
  pub quality : List ℕ
  pub time : ℕ

pub record Chunk : Type 0 where
  pub seq : ℕ
  pub readings : List Reading
