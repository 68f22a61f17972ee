-- ===== src/Queue/Codec.antt =====
-- internal/queue/codec.go: a chunk of readings as bytes. DEFLATE (compress/flate) is a parameter.
pub mod Varint
pub mod Names
pub mod RoundTrip
use nx_iio_t_gateway_max_gat.Shared.{
  ℕ, zero, suc, ◌+◌, ◌%◌, ◌≡◌, Bool, ◌||◌, List, [], ◌∷◌, ◌++◌, Option, none, some, ltb, leb, ◌==◌,
  if◌then◌else◌, length, take, drop, is_neg64, add64, sub64,
}
use nx_iio_t_gateway_max_gat.Queue.Types.{Reading}
use Varint.{put_uvarint, put_varint, put_le, read_uvarint, read_varint, read_le}
use Names.{quality_code, quality_name}

pub data DecodeError : Type 0 where
  empty_chunk unknown_format corrupt_stream no_count count_too_large no_base : DecodeError
  no_datapoint no_device no_timestamp no_quality bad_string no_value unknown_code : DecodeError

pub data Result {ℓ} (A : Type ℓ) : Type ℓ where
  ok : A → Result A
  err : DecodeError → Result A

infixl 5 ◌>>=◌
abbrev pub ◌>>=◌ {ℓ κ} : {A : Type ℓ} {B : Type κ} → Result A → (A → Result B) → Result B
ok a >>= f = f a
err e >>= f = err e

abbrev pub or_fail {ℓ} : {A : Type ℓ} → Option A → DecodeError → Result A
or_fail none e = err e
or_fail (some a) e = ok a

-- What the code asks of compress/flate: a stream that was written is read back.
pub record Flate : Type 0 where
  pub deflate : List ℕ → Option (List ℕ)
  pub inflate : List ℕ → Option (List ℕ)
  pub inflate-deflate : (raw z : List ℕ) → deflate raw ≡ some z → inflate z ≡ some raw

abbrev pub quality_other : ℕ
quality_other = 0x7f

-- `code |= hasValueBit` on a code below 0x80 adds the bit.
value_bit : Option ℕ → ℕ
value_bit none = 0
value_bit (some v) = 0x80

value_bytes : Option ℕ → List ℕ
value_bytes none = []
value_bytes (some v) = put_le 8 v

-- The byte and the text of a quality: the text is spelt out only when it has no code.
quality_bytes : Option ℕ → Option ℕ → List ℕ → List ℕ
unfolding value_bit
quality_bytes (some c) v text = (c + value_bit v) ∷ []
quality_bytes none v text = (quality_other + value_bit v) ∷ (put_uvarint (length text) ++ text)

encode_record : ℕ → Reading → List ℕ
unfolding quality_bytes value_bytes
encode_record prev r =
    put_uvarint r.datapoint_id
    ++ (put_uvarint r.device_id
        ++ (put_varint (sub64 r.time prev)
            ++ (quality_bytes (quality_code r.quality) r.value r.quality ++ value_bytes r.value)))

-- `none` is the error of a negative id.
encode_records : ℕ → List Reading → Option (List ℕ)
unfolding encode_record
encode_records prev [] = some []
encode_records prev (r ∷ rs) =
    if is_neg64 r.datapoint_id || is_neg64 r.device_id
    then none
    else elim (encode_records r.time rs) [
      | none ↦ none
      | some bytes ↦ some (encode_record prev r ++ bytes)
    ]

-- The time of the first reading, or 0.
base_time : List Reading → ℕ
base_time [] = 0
base_time (r ∷ rs) = r.time

pub encode_raw : List Reading → Option (List ℕ)
unfolding base_time encode_records
encode_raw rs = elim (encode_records (base_time rs) rs) [
  | none ↦ none
  | some bytes ↦ some (put_uvarint (length rs) ++ (put_varint (base_time rs) ++ bytes))
]

abbrev add_format : Option (List ℕ) → Option (List ℕ)
add_format none = none
add_format (some z) = some (1 ∷ z)

-- The bytes of `chunkFormatV1` and the compressed stream.
unfoldable pub encode_chunk : Flate → List Reading → Option (List ℕ)
unfolding encode_raw
encode_chunk f rs = elim (encode_raw rs) [ none ↦ none | some raw ↦ add_format (f.deflate raw) ]

-- io.ReadFull: n bytes, or an error.
take_bytes : ℕ → List ℕ → Option (List ℕ × List ℕ)
take_bytes n bs = if leb n (length bs) then some (take n bs, drop n bs) else none

read_byte : List ℕ → Option (ℕ × List ℕ)
read_byte [] = none
read_byte (b ∷ bs) = some (b, bs)

read_text : List ℕ → Result (List ℕ × List ℕ)
unfolding take_bytes
read_text bs = do
  (n, rest) ← or_fail (read_uvarint bs) bad_string
  or_fail (take_bytes n rest) bad_string

-- A code stands for its name; `quality_other` is followed by the text.
read_quality : ℕ → List ℕ → Result (List ℕ × List ℕ)
unfolding read_text
read_quality base bs =
    if base == quality_other
    then read_text bs
    else elim (quality_name base) [ none ↦ err unknown_code | some name ↦ ok (name, bs) ]

-- Bit 7 of the code says whether eight bytes of a float64 follow.
read_value : ℕ → List ℕ → Result (Option ℕ × List ℕ)
unfolding take_bytes
read_value code bs =
    if leb 0x80 code
    then (do (bits, rest) ← or_fail (take_bytes 8 bs) no_value; ok (some (read_le bits), rest))
    else ok (none, bs)

decode_record : ℕ → List ℕ → Result (Reading × List ℕ)
unfolding read_byte read_quality read_value
decode_record prev bs = do
  (dp, bs1) ← or_fail (read_uvarint bs) no_datapoint
  (dev, bs2) ← or_fail (read_uvarint bs1) no_device
  (delta, bs3) ← or_fail (read_varint bs2) no_timestamp
  (code, bs4) ← or_fail (read_byte bs3) no_quality
  (text, bs5) ← read_quality (code % 0x80) bs4
  (v, bs6) ← read_value code bs5
  ok (
    record {
      device_id = dev;
      datapoint_id = dp;
      value = v;
      quality = text;
      time = add64 prev delta;
    },
    bs6,
  )

decode_records : ℕ → ℕ → List ℕ → Result (List Reading)
unfolding decode_record
decode_records zero prev bs = ok []
decode_records (suc n) prev bs = do
  (r, rest) ← decode_record prev bs
  rs ← decode_records n r.time rest
  ok (r ∷ rs)

decode_raw : List ℕ → Result (List Reading)
unfolding decode_records
decode_raw raw = do
  (count, bs) ← or_fail (read_uvarint raw) no_count
  if ltb (length raw) count
      then err count_too_large
      else (do (base, rest) ← or_fail (read_varint bs) no_base; decode_records count base rest)

decode_stream : Flate → List ℕ → Result (List Reading)
unfolding decode_raw
decode_stream f z = do raw ← or_fail (f.inflate z) corrupt_stream; decode_raw raw

unfoldable pub decode_chunk : Flate → List ℕ → Result (List Reading)
unfolding decode_stream
decode_chunk f [] = err empty_chunk
decode_chunk f (format ∷ z) = if format == 1 then decode_stream f z else err unknown_format
