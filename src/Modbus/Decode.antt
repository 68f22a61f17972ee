-- ===== src/Modbus/Decode.antt =====
-- internal/modbus/decode.go: raw register bytes as values. float64 and its conversions are a
-- parameter.
pub mod Orders
use nx_iio_t_gateway_max_gat.Shared.{
  ℕ, zero, suc, ◌+◌, ◌-◌, ◌*◌, ◌/◌, ◌%◌, ◌^◌, ◌≤◌, ◌<◌, ◌≡◌, refl, ◌⊎◌, inl, inr, Bool, true, false,
  ◌||◌, List, [], ◌∷◌, ◌++◌, Option, none, some, arith, ltb, leb, ◌==◌, if◌then◌else◌, length,
  get_elem?, Option-cases,
}

-- The texts of the Go type; any other text is `unknown`.
pub data DataType : Type 0 where
  int16 uint16 int32 uint32 float32 float64 unknown : DataType

unfoldable pub byte_width : DataType → Option ℕ
byte_width int16 = some 2
byte_width uint16 = some 2
byte_width int32 = some 4
byte_width uint32 = some 4
byte_width float32 = some 4
byte_width float64 = some 8
byte_width unknown = none

unfoldable pub register_count : DataType → Option ℕ
unfolding byte_width
register_count d = elim (byte_width d) [ none ↦ none | some width ↦ some (width / 2) ]

-- `out[i] = raw[c - 'A']`, or an error outside of `raw`.
pick_bytes : List ℕ → List ℕ → Option (List ℕ)
pick_bytes raw [] = some []
pick_bytes raw (c ∷ order) = if ltb c b'A' then none else elim (get_elem? raw (c - b'A')) [
  | none ↦ none
  | some byte ↦ elim (pick_bytes raw order) [ none ↦ none | some out ↦ some (byte ∷ out) ]
]

-- The order is a text, given by its bytes.
unfoldable pub reorder : List ℕ → List ℕ → Option (List ℕ)
unfolding pick_bytes
reorder raw [] = some raw
reorder raw (c ∷ order) =
    if length (c ∷ order) == length raw then pick_bytes raw (c ∷ order) else none

-- `v<<8 | x` over the bytes, in a uint64: the value of at most eight bytes does not overflow.
unfoldable pub big_endian : ℕ → List ℕ → ℕ
big_endian v [] = v
big_endian v (x ∷ bytes) = big_endian (v * 256 + x) bytes

-- A signed integer, `negsuc n` being -(n + 1).
pub data ℤ : Type 0 where
  pos : ℕ → ℤ
  negsuc : ℕ → ℤ

-- The value of the low bits as a two's complement number, for a modulus 2 ^ w.
abbrev pub signed : ℕ → ℕ → ℤ
signed m v = if ltb (v % m) (m / 2) then pos (v % m) else negsuc (m - v % m - 1)

-- float64: conversions from integers and bit patterns, and the operations of `ApplyScale`.
pub record Floats : Type 1 where
  pub F : Type 0
  pub of_int : ℤ → F
  pub of_bits32 : ℕ → F
  pub of_bits64 : ℕ → F
  pub mul : F → F → F
  pub add : F → F → F

module _ (fl : Floats) where
  -- The switch on the data type, after the reordering.
  unfoldable pub number : DataType → ℕ → Option fl.F
  number int16 v = some (fl.of_int (signed 65536 v))
  number uint16 v = some (fl.of_int (pos (v % 65536)))
  number int32 v = some (fl.of_int (signed 4294967296 v))
  number uint32 v = some (fl.of_int (pos (v % 4294967296)))
  number float32 v = some (fl.of_bits32 (v % 4294967296))
  number float64 v = some (fl.of_bits64 v)
  number unknown v = none

  unfoldable pub decode : List ℕ → DataType → List ℕ → Option fl.F
  unfolding byte_width reorder number big_endian
  decode raw d order = elim (byte_width d) [
    | none ↦ none
    | some width ↦
        if length raw == width
        then elim (reorder raw order) [
          | none ↦ none
          | some ordered ↦ number d (big_endian 0 ordered)
        ]
        else none
  ]

  unfoldable pub apply_scale : fl.F → fl.F → fl.F → fl.F
  apply_scale raw scale offset = fl.add (fl.mul raw scale) offset
