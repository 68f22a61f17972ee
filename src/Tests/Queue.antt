-- ===== src/Tests/Queue.antt =====
-- internal/queue on concrete chunks and stores.
use nx_iio_t_gateway_max_gat.Shared.{
  ℕ, ◌/◌, ◌≡◌, ◌≢◌, ◌↔◌, refl, sym, ◌⊎◌, inr, true, false, List, [], ◌∷◌, ◌++◌, none, some, arith,
  length, take, ◌≤◌,
}
use nx_iio_t_gateway_max_gat.Queue.Types.{Reading, Chunk}
use nx_iio_t_gateway_max_gat.Queue.Codec.{Flate, encode_chunk, decode_chunk, ok}
use nx_iio_t_gateway_max_gat.Queue.Codec.Names.{bytes_of, quality_code, same_bytes, quality_name}
use nx_iio_t_gateway_max_gat.Queue.Codec.Varint.{
  put_uvarint, put_varint, put_le, read_uvarint, read_varint, read_le,
}
use nx_iio_t_gateway_max_gat.Queue.Codec.RoundTrip.{
  IsReading, HasNegativeId, decode_chunk-encode_chunk, encode_chunk-none_iff,
}
use nx_iio_t_gateway_max_gat.Queue.Db.{
  Row, Db, rows_through, discard_row, transaction, statement, close,
}
use nx_iio_t_gateway_max_gat.Queue.Store.{
  Codec, Options, Store, CounterReads, open_store, append, drain, flush, ack, discard, read_batch,
  refresh_bounds, read_batch_scan_limit,
}
use nx_iio_t_gateway_max_gat.Queue.Stats.{Ratios}
use nx_iio_t_gateway_max_gat.Queue.ChunkCodec.{chunk_codec, flush_keeps_readings}
use nx_iio_t_gateway_max_gat.Queue.Store.Counters.{IsSound, IsConsistent, IsRead}
use nx_iio_t_gateway_max_gat.Queue.Store.Batch.Oldest.{IsScan, decodable, read_batch_oldest}
use nx_iio_t_gateway_max_gat.Queue.Store.Contents.{contents, of_rows, contents-flush, contents-ack}
use nx_iio_t_gateway_max_gat.Queue.Life.{
  here, next, appended, acknowledged, restarted, Reach-IsConsistent,
}

abbrev plain : Flate
plain = record { deflate = some; inflate = some; inflate-deflate = λ raw z e. sym e }

abbrev measured : Reading
measured = record {
  device_id = 3;
  datapoint_id = 7;
  value = some 4602678819172646912;
  quality = bytes_of "GOOD";
  time = 1700000000000;
}

abbrev missed : Reading
missed = record {
  device_id = 300;
  datapoint_id = 8;
  value = none;
  quality = bytes_of "STALE";
  time = 1699999999000;
}

abbrev two_readings : List Reading
two_readings = measured ∷ missed ∷ []

abbrev two_blob : List ℕ
two_blob =
    1 ∷ 2 ∷ 128 ∷ 160 ∷ 171 ∷ 254 ∷ 249 ∷ 98 ∷ 7 ∷ 3 ∷ 0 ∷ 128 ∷ 0 ∷ 0 ∷ 0 ∷ 0 ∷ 0 ∷ 0 ∷ 224 ∷ 63
    ∷ 8 ∷ 172 ∷ 2 ∷ 207 ∷ 15 ∷ 127 ∷ 5 ∷ 83 ∷ 84 ∷ 65 ∷ 76 ∷ 69 ∷ []

two_readings_encoded : encode_chunk plain two_readings ≡ some two_blob
unfolding encode_chunk put_uvarint put_varint put_le quality_code same_bytes
two_readings_encoded = refl

measured-IsReading : IsReading measured
measured-IsReading = record {
  device_word = omega arith;
  datapoint_word = omega arith;
  time_word = omega arith;
  value_word = omega arith;
  text_word = omega arith;
}

missed-IsReading : IsReading missed
missed-IsReading = record {
  device_word = omega arith;
  datapoint_word = omega arith;
  time_word = omega arith;
  value_word = tt;
  text_word = omega arith;
}

decode_chunk-encode_chunk_example : decode_chunk plain two_blob ≡ ok two_readings
decode_chunk-encode_chunk_example =
    decode_chunk-encode_chunk plain two_readings two_blob
      (measured-IsReading, (missed-IsReading, tt)) (omega arith) two_readings_encoded

plain_total : (raw : List ℕ) → plain.deflate raw ≢ none
plain_total raw e = cc

encode_chunk-none_iff_example :
    (encode_chunk plain two_readings ≡ none) ↔ HasNegativeId two_readings
encode_chunk-none_iff_example = encode_chunk-none_iff plain two_readings plain_total

-- A queue with a chunk of two readings and a corrupt one that claims one reading.
abbrev pub format : Codec
format = chunk_codec plain

abbrev pub good_row : Row
good_row = record {
  seq = 4;
  chunk = record { first_ts = 1699999999000; last_ts = 1700000000000; n = 2; blob = two_blob };
}

abbrev pub corrupt_row : Row
corrupt_row = record {
  seq = 5;
  chunk = record { first_ts = 1700000001000; last_ts = 1700000001000; n = 1; blob = [] };
}

abbrev pub limits : Options
limits = record { max_bytes = 100; flush_interval = 0; maintenance_interval = 0; max_unflushed = 2 }

abbrev pub file_of : List Row → ℕ → Db
file_of rows n = record {
  rows = rows;
  next_seq = 6;
  meta_chunks = length rows;
  meta_readings = n;
  meta_evicted = 9;
}

abbrev pub file : Db
file = file_of (good_row ∷ corrupt_row ∷ []) 3

abbrev pub store_of : Db → Store
store_of db = record {
  db = db;
  opts = limits;
  appended = 4;
  buf = measured ∷ [];
  unflushed = [];
  pending_chunks = db.meta_chunks;
  pending_readings = db.meta_readings;
  oldest_ts = 1699999999000;
  newest_ts = 1700000001000;
  db_bytes = 4096;
  evicted = db.meta_evicted;
  dropped = 0;
  rates = [];
  written_bytes = 0;
  written_readings = 0;
}

abbrev pub store : Store
store = store_of file

pub file-IsSound : IsSound file
file-IsSound = record {
  order = (omega arith, (omega arith, omega arith));
  meta_chunks = refl;
  meta_readings = refl;
  evicted_word = omega arith;
}

pub store-IsConsistent : IsConsistent store
store-IsConsistent = record {
  file = file-IsSound;
  chunks = refl;
  readings = refl;
  evictions = refl;
}

abbrev first_chunk : Chunk
first_chunk = record { seq = 4; readings = two_readings }

one_chunk_read : (read_batch format true [] 2000 store).1 ≡ some (first_chunk ∷ [])
unfolding read_batch discard discard_row refresh_bounds decode_chunk read_uvarint read_varint
    read_le quality_name transaction statement close
one_chunk_read = refl

read_batch_oldest_example :
    (n : ℕ) × IsScan 2000 0 (take read_batch_scan_limit file.rows) n
    × ((first_chunk ∷ []) ≡ decodable format (take n (take read_batch_scan_limit file.rows)))
read_batch_oldest_example =
    read_batch_oldest format [] 2000 store (first_chunk ∷ []) (omega arith) (omega arith)
      (omega arith) one_chunk_read

abbrev good_store : Store
good_store = store_of (file_of (good_row ∷ []) 2)

good_row_decodes : format.decode two_blob ≡ some two_readings
good_row_decodes =
    format.decode-encode two_readings two_blob
      ((measured-IsReading, (missed-IsReading, tt)), omega arith) two_readings_encoded

one_encodes : format.encode (measured ∷ []) ≢ none
unfolding encode_chunk put_uvarint put_varint put_le quality_code same_bytes
one_encodes e = cc

one_waits : length (drain format store).unflushed ≤ 2
unfolding drain encode_chunk put_uvarint put_varint put_le quality_code same_bytes
one_waits = omega arith

ids_not_negative : ¬ HasNegativeId (measured ∷ [])
ids_not_negative h = ground arith

contents-flush_example :
    contents format (flush format [] (missed ∷ []) store).0 ≡ contents format store ++ missed ∷ []
contents-flush_example =
    contents-flush format [] (missed ∷ []) store ((measured-IsReading, tt), omega arith) one_encodes
      (inr one_waits)

contents-ack_example :
    (((ack [] [] 4 store).1 ≡ false) × ((ack [] [] 4 store).0 ≡ store))
    ⊎ (((ack [] [] 4 store).1 ≡ true)
        × (contents format store
            ≡ of_rows format (rows_through 4 file.rows) ++ contents format (ack [] [] 4 store).0))
contents-ack_example = contents-ack format [] [] 4 store store-IsConsistent (omega arith)

flush_keeps_readings_example :
    contents format (flush format (false ∷ []) (missed ∷ []) store).0
    ≡ contents format store ++ missed ∷ []
flush_keeps_readings_example =
    flush_keeps_readings plain (false ∷ []) (missed ∷ []) store plain_total (measured-IsReading, tt)
      (omega arith) ids_not_negative (inr one_waits)

-- Whole numbers in place of float64.
abbrev whole : Ratios
whole = record { F = ℕ; zero_ratio = 0; ratio = λ a b. a / b; per_second = λ n d. n }

abbrev all_read : CounterReads
all_read = record { chunks = true; readings = true; evictions = true }

abbrev are_read : IsRead all_read
are_read = record { chunks = refl; readings = refl; evictions = refl }

-- An append, an acknowledgement and a restart.
Reach-IsConsistent_example : IsConsistent (
    open_store limits
      (ack [] [] 4 (append missed (open_store limits file 4096 all_read []))).0.db
      4096
      all_read
      [])
Reach-IsConsistent_example =
    Reach-IsConsistent format
      (record { over_allowed = λ used total. 0; chunks_over = λ excess bytes chunks. 1 }) limits
      file 4096 all_read [] _ file-IsSound are_read
      (next (next (next here (appended _ missed)) (acknowledged _ [] [] 4))
        (restarted _ limits 4096 all_read [] are_read))
