-- ===== src/Tests/Server.antt =====
-- cmd/server-demo and internal/acquisition on concrete messages and datapoints.
use nx_iio_t_gateway_max_gat.Shared.{
  ℕ, zero, suc, ◌+◌, ◌<◌, ◌≡◌, refl, true, List, [], ◌∷◌, none, some, arith, All,
}
use nx_iio_t_gateway_max_gat.Queue.Codec.Names.{bytes_of}
use nx_iio_t_gateway_max_gat.Forwarder.Wire.{WireReading, Message}
use nx_iio_t_gateway_max_gat.Server.{Writer, Store, new_store, is_seen, fresh_of, ingest}
use nx_iio_t_gateway_max_gat.Modbus.Decode.{DataType, uint16, int32, float32, unknown}
use nx_iio_t_gateway_max_gat.Acquisition.Types.{DataPoint}
use nx_iio_t_gateway_max_gat.Acquisition.BlockPlan.{ReadBlock, fits, extend, merge}
use nx_iio_t_gateway_max_gat.Acquisition.BlockPlan.Cover.{IsBlock, merge-IsBlock, extend_wraps}

-- A database that takes a number of messages and then is full.
abbrev pub database : Writer
database = record {
  W = ℕ;
  write_chunks = λ k cs room. elim room [ zero ↦ (0, some (bytes_of "full")) | suc n ↦ (n, none) ];
  write_gap = λ gp room. (room, none);
}

abbrev pub sample : WireReading
sample = record {
  device_id = 3;
  datapoint_id = 7;
  timestamp = bytes_of "2026-01-02T03:04:05.678Z";
  value = some 4602678819172646912;
  quality = bytes_of "GOOD";
}

abbrev pub delivery : Message
delivery = record {
  gateway_id = bytes_of "gw";
  stream_id = bytes_of "s";
  from_seq = 4;
  to_seq = 9;
  chunks =
      record { seq = 4; readings = sample ∷ [] }
      ∷ record { seq = 9; readings = sample ∷ sample ∷ [] }
      ∷ [];
}

abbrev pub roomy : Store database
unfolding new_store
roomy = new_store database (some 5)

abbrev full : Store database
unfolding new_store
full = new_store database (some 0)

stored_once : (ingest database 100 delivery roomy).error ≡ none
unfolding ingest is_seen fresh_of roomy
stored_once = refl

database_full : (ingest database 100 delivery full).error ≡ some (bytes_of "full")
unfolding ingest is_seen fresh_of full
database_full = refl

abbrev pub tag : ℕ → ℕ → ℕ → DataType → DataPoint
tag id fc address type = record {
  id = id;
  device_id = 1;
  tag_name = bytes_of "tag";
  function_code = fc;
  register_address = address;
  data_type = type;
  byte_order = [];
  scale = 4607182418800017408;
  offset = 0;
  unit = [];
  enabled = true;
}

-- Two datapoints nearby, one without a known type, and one far off.
abbrev pub tags : List DataPoint
tags = tag 1 4 1 uint16 ∷ tag 2 4 9 float32 ∷ tag 3 4 10 unknown ∷ tag 4 4 300 uint16 ∷ []

merge-IsBlock_example : All IsBlock (merge 4 none tags)
merge-IsBlock_example = merge-IsBlock 4 tags (
  omega arith,
  omega arith,
  (omega arith, omega arith, (omega arith, omega arith, (omega arith, omega arith, tt))),
)

abbrev near_end : ReadBlock
near_end = record { function_code = 3; start_address = 65520; quantity = 6; points = [] }

abbrev at_end : DataPoint
at_end = tag 5 3 65534 int32

extend_wraps_example :
    (fits near_end at_end 2 ≡ true)
    × ((extend near_end at_end 2).quantity ≡ 6)
    × (65520 + (extend near_end at_end 2).quantity < 65534 + 2)
extend_wraps_example = extend_wraps near_end at_end 2 (omega arith) (omega arith) refl (omega arith)
