-- ===== src/Queue/Codec/RoundTrip.antt =====
-- What internal/queue/codec.go writes it reads back.
use nx_iio_t_gateway_max_gat.Shared.{
  ℕ, ◌+◌, ◌%◌, ◌≤◌, ◌<◌, ◌≡◌, refl, ap, ◌⊎◌, ◌↔◌, ◌≢◌, inl, inr, true, false, List, [], ◌∷◌, ◌++◌,
  append_assoc, Option, none, some, arith, ltb, length, length-append, take, drop, All,
  Option-cases, is_neg64, sub64, add64-sub64, two64,
}
use nx_iio_t_gateway_max_gat.Queue.Types.{Reading}
use nx_iio_t_gateway_max_gat.Queue.Codec.Varint.{
  put_uvarint, put_varint, put_le, read_uvarint-put_uvarint, read_varint-put_varint,
  length-put_uvarint, length-put_le, read_le-put_le,
}
use nx_iio_t_gateway_max_gat.Queue.Codec.Names.{quality_code, quality_name-quality_code}
use nx_iio_t_gateway_max_gat.Queue.Codec.{
  ok, Flate, quality_other, quality_bytes, value_bit, value_bytes, encode_record, encode_records,
  encode_raw, base_time, encode_chunk, take_bytes, read_text, read_quality, read_value,
  decode_record, decode_records, decode_raw, decode_chunk,
}

take-append : (xs ys : List ℕ) → take (length xs) (xs ++ ys) ≡ xs
take-append [] ys = refl
take-append (x ∷ xs) ys = rw (take-append xs ys)

drop-append : (xs ys : List ℕ) → drop (length xs) (xs ++ ys) ≡ ys
drop-append [] ys = refl
drop-append (x ∷ xs) ys = drop-append xs ys

take_bytes-append :
    (n : ℕ) (xs ys : List ℕ) → length xs ≡ n → take_bytes n (xs ++ ys) ≡ some (xs, ys)
unfolding take_bytes
take_bytes-append n xs ys e =
    rw (← e) (ground (arith, length-append xs ys, take-append xs ys, drop-append xs ys))

-- What the Go types give: 64-bit words, and a text no longer than a uint64 can say.
abbrev pub IsWord? : Option ℕ → Type 0
IsWord? none = Unit {0}
IsWord? (some v) = v < two64

pub record IsReading (r : Reading) : Type 0 where
  pub device_word : r.device_id < two64
  pub datapoint_word : r.datapoint_id < two64
  pub time_word : r.time < two64
  pub value_word : IsWord? r.value
  pub text_word : length r.quality < two64

read_text-put :
    (text rest : List ℕ)
    → length text < two64
    → read_text (put_uvarint (length text) ++ (text ++ rest)) ≡ ok (text, rest)
unfolding read_text
read_text-put text rest h =
    rw (read_uvarint-put_uvarint (length text) (text ++ rest) h)
      (rw (take_bytes-append (length text) text rest refl) refl)

read_value-put :
    (c : ℕ) (v : Option ℕ) (rest : List ℕ)
    → c < 128
    → IsWord? v
    → read_value (c + value_bit v) (value_bytes v ++ rest) ≡ ok (v, rest)
unfolding read_value value_bit value_bytes
read_value-put c none rest hc h = ground arith
read_value-put c (some v) rest hc h =
    ground (arith, take_bytes-append 8 (put_le 8 v) rest (length-put_le 8 v), read_le-put_le 8 v h)

code_of_IsQuality : (c : ℕ) (v : Option ℕ) → c < 128 → (c + value_bit v) % 0x80 ≡ c
unfolding value_bit
code_of_IsQuality c none h = omega arith
code_of_IsQuality c (some v) h = omega arith

-- The quality byte, the text where there is one, and the value.
read_quality_value :
    (q : List ℕ) (code : Option ℕ) (v : Option ℕ) (rest : List ℕ)
    → quality_code q ≡ code
    → length q < two64
    → IsWord? v
    → (b : ℕ) × (more : List ℕ) × (quality_bytes code v q ++ (value_bytes v ++ rest) ≡ b ∷ more)
      × (read_quality (b % 0x80) more ≡ ok (q, value_bytes v ++ rest))
      × (read_value b (value_bytes v ++ rest) ≡ ok (v, rest))
unfolding quality_bytes read_quality
read_quality_value q none v rest e h hv = (
  quality_other + value_bit v,
  put_uvarint (length q) ++ (q ++ (value_bytes v ++ rest)),
  ap (◌∷◌ (quality_other + value_bit v)) (append_assoc (put_uvarint (length q)) q _),
  rw (code_of_IsQuality quality_other v (omega arith)) (read_text-put q (value_bytes v ++ rest) h),
  read_value-put quality_other v rest (omega arith) hv,
)
read_quality_value q (some c) v rest e h hv =
    let (name, small) = quality_name-quality_code q c e in
    (
      c + value_bit v,
      value_bytes v ++ rest,
      refl,
      rw (code_of_IsQuality c v (omega arith)) (ground (arith, name)),
      read_value-put c v rest (omega arith) hv,
    )

decode_record-encode_record :
    (prev : ℕ) (r : Reading) (rest : List ℕ)
    → IsReading r
    → prev < two64
    → decode_record prev (encode_record prev r ++ rest) ≡ ok (r, rest)
unfolding decode_record encode_record
decode_record-encode_record prev r rest w hp =
    let (b, more, split, quality, value) =
      read_quality_value r.quality (quality_code r.quality) r.value rest refl w.text_word
        w.value_word in
    simp append_assoc (
      rw (read_uvarint-put_uvarint _ _ w.datapoint_word) (
        rw (read_uvarint-put_uvarint _ _ w.device_word) (
          rw (read_varint-put_varint (sub64 r.time prev) _ (omega arith))
            (rw split (rw quality (rw value (rw (add64-sub64 r.time prev w.time_word hp) refl)))))))

length-encode_record : (prev : ℕ) (r : Reading) → 1 ≤ length (encode_record prev r)
unfolding encode_record
length-encode_record prev r =
    omega (arith, length-append (put_uvarint r.datapoint_id) _, length-put_uvarint r.datapoint_id)

-- Inversion of a run over the records that succeeds.
encode_records_cons :
    (prev : ℕ) (r : Reading) (rs : List Reading) (out : List ℕ)
    → encode_records prev (r ∷ rs) ≡ some out
    → (bytes : List ℕ) × (encode_records r.time rs ≡ some bytes)
      × (out ≡ encode_record prev r ++ bytes)
unfolding encode_records
encode_records_cons prev r rs out e = elim (Option-cases (encode_records r.time rs)) [
  | inl missing ↦ absurd (ground (arith, missing))
  | inr (bytes, found) ↦ (bytes, found, ground (arith, found))
]

length-encode_records :
    (prev : ℕ) (rs : List Reading) (out : List ℕ)
    → encode_records prev rs ≡ some out
    → length rs ≤ length out
length-encode_records prev [] out e = omega arith
length-encode_records prev (r ∷ rs) out e =
    let (bytes, found, split) = encode_records_cons prev r rs out e in
    rw split (
      omega (
        arith,
        length-append (encode_record prev r) bytes,
        length-encode_record prev r,
        length-encode_records r.time rs bytes found,
      ))

decode_records-encode_records :
    (prev : ℕ) (rs : List Reading) (out : List ℕ)
    → All IsReading rs
    → prev < two64
    → encode_records prev rs ≡ some out
    → decode_records (length rs) prev out ≡ ok rs
unfolding decode_records
decode_records-encode_records prev [] out w hp e = refl
decode_records-encode_records prev (r ∷ rs) out (w, ws) hp e =
    let (bytes, found, split) = encode_records_cons prev r rs out e in
    rw split (
      rw (decode_record-encode_record prev r bytes w hp)
        (rw (decode_records-encode_records r.time rs bytes ws w.time_word found) refl))

base_time-lt : (rs : List Reading) → All IsReading rs → base_time rs < two64
unfolding base_time
base_time-lt [] w = omega arith
base_time-lt (r ∷ rs) (w, ws) = w.time_word

decode_raw-encode_raw :
    (rs : List Reading) (raw : List ℕ)
    → All IsReading rs
    → length rs < two64
    → encode_raw rs ≡ some raw
    → decode_raw raw ≡ ok rs
unfolding decode_raw encode_raw
decode_raw-encode_raw rs raw w h e = elim (Option-cases (encode_records (base_time rs) rs)) [
  | inl missing ↦ cc (rw (missing, encode_raw) at e)
  | inr (bytes, found) ↦
      let split : some (put_uvarint (length rs) ++ (put_varint (base_time rs) ++ bytes))
          ≡ some raw =
        rw (found, encode_raw) at e in
      let same : put_uvarint (length rs) ++ (put_varint (base_time rs) ++ bytes) ≡ raw = cc split in
      rw (← same) (
        rw (read_uvarint-put_uvarint (length rs) _ h) (
          rw (enough bytes found) (
            rw (read_varint-put_varint (base_time rs) bytes (base_time-lt rs w))
              (decode_records-encode_records (base_time rs) rs bytes w (base_time-lt rs w) found))))
]
  where
    enough :
        (bytes : List ℕ)
        → encode_records (base_time rs) rs ≡ some bytes
        → ltb (length (put_uvarint (length rs) ++ (put_varint (base_time rs) ++ bytes))) (length rs)
          ≡ false
    enough bytes found = ground (
      arith,
      length-append (put_uvarint (length rs)) (put_varint (base_time rs) ++ bytes),
      length-append (put_varint (base_time rs)) bytes,
      length-encode_records (base_time rs) rs bytes found,
    )

-- A chunk that was encoded decodes to the same readings: the ids, the times (also where the
-- difference of two of them wraps around), the value with its exact bits or its absence, and the
-- quality, whether or not it has a code.
pub decode_chunk-encode_chunk :
    (f : Flate) (rs : List Reading) (blob : List ℕ)
    → All IsReading rs
    → length rs < two64
    → encode_chunk f rs ≡ some blob
    → decode_chunk f blob ≡ ok rs
unfolding encode_chunk decode_chunk
decode_chunk-encode_chunk f rs blob w h e = elim (Option-cases (encode_raw rs)) [
  | inl missing ↦ cc (rw (missing, encode_chunk) at e)
  | inr (raw, found) ↦ elim (Option-cases (f.deflate raw)) [
    | inl refused ↦ cc (rw (found, encode_chunk, refused) at e)
    | inr (z, done) ↦
        let split : some (1 ∷ z) ≡ some blob = rw (found, encode_chunk, done) at e in
        let same : 1 ∷ z ≡ blob = cc split in
        rw (← same) (rw (f.inflate-deflate raw z done) (decode_raw-encode_raw rs raw w h found))
  ]
]

-- A reading that has an id the format cannot hold.
abbrev pub HasNegativeId : List Reading → Type 0
HasNegativeId [] = ⊥
HasNegativeId (r ∷ rs) =
    (is_neg64 r.datapoint_id ≡ true) ⊎ (is_neg64 r.device_id ≡ true) ⊎ HasNegativeId rs

encode_records-none_iff :
    (prev : ℕ) (rs : List Reading) → (encode_records prev rs ≡ none) ↔ HasNegativeId rs
unfolding encode_records
encode_records-none_iff prev [] = (λ e. cc, λ h. absurd h)
encode_records-none_iff prev (r ∷ rs) =
    let ih = encode_records-none_iff r.time rs in
    (λ e. ground (arith, ih.0), λ h. ground (arith, ih.1))

-- With a compressor that does not fail, encoding fails exactly when some reading has a negative id.
pub encode_chunk-none_iff :
    (f : Flate) (rs : List Reading)
    → ((raw : List ℕ) → f.deflate raw ≢ none)
    → (encode_chunk f rs ≡ none) ↔ HasNegativeId rs
unfolding encode_chunk encode_raw
encode_chunk-none_iff f rs total =
    let ih = encode_records-none_iff (base_time rs) rs in
    elim (Option-cases (encode_records (base_time rs) rs)) [
      | inl missing ↦ (λ _. ih.0 missing, λ h. rw (missing, encode_raw, encode_chunk) refl)
      | inr (bytes, found) ↦
          let raw = put_uvarint (length rs) ++ (put_varint (base_time rs) ++ bytes) in
          (λ e. ground (arith, found, e, total raw), λ h. ground (arith, ih.1 h, found))
    ]
