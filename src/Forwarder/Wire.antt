-- ===== src/Forwarder/Wire.antt =====
-- internal/forwarder/wire.go: the message that carries whole chunks in order.
use nx_iio_t_gateway_max_gat.Shared.{ℕ, ◌+◌, List, [], ◌∷◌, map, Option, length}
use nx_iio_t_gateway_max_gat.Queue.Types.{Reading, Chunk}

-- `time.Time.Format` with the layout of milliseconds is not read here: a parameter takes the unix
-- milliseconds to the bytes of the text.
pub record WireReading : Type 0 where
  pub device_id : ℕ
  pub datapoint_id : ℕ
  pub timestamp : List ℕ
  pub value : Option ℕ
  pub quality : List ℕ

pub record WireChunk : Type 0 where
  pub seq : ℕ
  pub readings : List WireReading

pub record Message : Type 0 where
  pub gateway_id : List ℕ
  pub stream_id : List ℕ
  pub from_seq : ℕ
  pub to_seq : ℕ
  pub chunks : List WireChunk

-- The answer of the server; the empty `error` is no error.
pub record Ack : Type 0 where
  pub stream_id : List ℕ
  pub to_seq : ℕ
  pub error : List ℕ

abbrev pub last_seq : Chunk → List Chunk → ℕ
last_seq c [] = c.seq
last_seq c (c' ∷ cs) = last_seq c' cs

module _ (format : ℕ → List ℕ) where
  abbrev pub wire_reading : Reading → WireReading
  wire_reading r = record {
    device_id = r.device_id;
    datapoint_id = r.datapoint_id;
    timestamp = format r.time;
    value = r.value;
    quality = r.quality;
  }

  abbrev pub wire_chunk : Chunk → WireChunk
  wire_chunk c = record { seq = c.seq; readings = map wire_reading c.readings }

  -- The chunks are not empty: they are a first one and the rest.
  unfoldable pub build_message : List ℕ → List ℕ → Chunk → List Chunk → Message
  build_message gateway_id stream_id c cs = record {
    gateway_id = gateway_id;
    stream_id = stream_id;
    from_seq = c.seq;
    to_seq = last_seq c cs;
    chunks = map wire_chunk (c ∷ cs);
  }

abbrev count_readings : ℕ → List WireChunk → ℕ
count_readings n [] = n
count_readings n (c ∷ cs) = count_readings (n + length c.readings) cs

unfoldable pub reading_count : Message → ℕ
reading_count m = count_readings 0 m.chunks
