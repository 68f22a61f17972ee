-- ===== src/Modbus/Decode/Orders.antt =====
-- Byte orders in internal/modbus/decode.go.
use nx_iio_t_gateway_max_gat.Shared.{
  ℕ, zero, suc, ◌+◌, ◌-◌, ◌≤◌, ◌<◌, ◌≡◌, ◌≢◌, ◌↔◌, refl, inl, inr, List, [], ◌∷◌, none, some, arith,
  ◌==◌, Bool-cases, length, get_elem?, Option-cases, All,
}
use nx_iio_t_gateway_max_gat.Modbus.Decode.{
  DataType, byte_width, pick_bytes, reorder, big_endian, Floats, number, decode,
}

-- The orders of a 32-bit value that swap bytes, words, or both.
pub data IsSwap : List ℕ → Type 0 where
  badc : IsSwap (b'B' ∷ b'A' ∷ b'D' ∷ b'C' ∷ [])
  cdab : IsSwap (b'C' ∷ b'D' ∷ b'A' ∷ b'B' ∷ [])
  dcba : IsSwap (b'D' ∷ b'C' ∷ b'B' ∷ b'A' ∷ [])

-- A letter of the order names one of `n` bytes.
abbrev pub IsPlace : ℕ → ℕ → Type 0
IsPlace n c = (b'A' ≤ c) × (c < b'A' + n)

-- The empty order, or as many letters as bytes, each naming one of them.
abbrev pub IsOrder : ℕ → List ℕ → Type 0
IsOrder n [] = Unit {0}
IsOrder n (c ∷ order) = (length (c ∷ order) ≡ n) × All (IsPlace n) (c ∷ order)

get_elem?-some : (xs : List ℕ) (i : ℕ) → i < length xs → (x : ℕ) × (get_elem? xs i ≡ some x)
get_elem?-some [] i h = elim h [ ]
get_elem?-some (x ∷ xs) zero h = (x, refl)
get_elem?-some (x ∷ xs) (suc i) h = get_elem?-some xs i (omega arith)

get_elem?-none : (xs : List ℕ) (i : ℕ) → length xs ≤ i → get_elem? xs i ≡ none
get_elem?-none [] i h = refl
get_elem?-none (x ∷ xs) zero h = elim h [ ]
get_elem?-none (x ∷ xs) (suc i) h = get_elem?-none xs i (omega arith)

pick_bytes_total :
    (raw order : List ℕ)
    → All (IsPlace (length raw)) order
    → (out : List ℕ) × (pick_bytes raw order ≡ some out)
unfolding pick_bytes
pick_bytes_total raw [] h = ([], refl)
pick_bytes_total raw (c ∷ order) (h, hs) =
    let (byte, there) = get_elem?-some raw (c - b'A') (omega arith) in
    let (out, rest) = pick_bytes_total raw order hs in (byte ∷ out, ground (arith, there, rest))

pick_bytes_needs :
    (raw order out : List ℕ) → pick_bytes raw order ≡ some out → All (IsPlace (length raw)) order
unfolding pick_bytes
pick_bytes_needs raw [] out e = tt
pick_bytes_needs raw (c ∷ order) out e = elim (Option-cases (pick_bytes raw order)) [
  | inl missing ↦ absurd (ground (arith, missing, e))
  | inr (rest, found) ↦
      (ground (arith, e, get_elem?-none raw (c - b'A')), pick_bytes_needs raw order rest found)
]

reorder_iff : (raw order : List ℕ) → (reorder raw order ≢ none) ↔ IsOrder (length raw) order
unfolding reorder
reorder_iff raw [] = (λ h. tt, λ h e. cc)
reorder_iff raw (c ∷ order) = (needs, total)
  where
    needs : reorder raw (c ∷ order) ≢ none → IsOrder (length raw) (c ∷ order)
    needs h = elim (Bool-cases (length (c ∷ order) == length raw)) [
      | inr wrong ↦ absurd (h (rw (wrong, reorder) refl))
      | inl right ↦ elim (Option-cases (pick_bytes raw (c ∷ order))) [
        | inl missing ↦ absurd (h (rw (right, reorder) missing))
        | inr (out, found) ↦ (ground (arith, right), pick_bytes_needs raw (c ∷ order) out found)
      ]
    ]

    total : IsOrder (length raw) (c ∷ order) → reorder raw (c ∷ order) ≢ none
    total (l, h) e =
        let (out, found) = pick_bytes_total raw (c ∷ order) h in ground (arith, l, e, found)

number_total : (fl : Floats) (d : DataType) (v w : ℕ) → byte_width d ≡ some w → number fl d v ≢ none
unfolding number byte_width
number_total fl d v w h e = ground arith

-- Decoding succeeds exactly for a known type, as many bytes as it takes, and an order that is empty
-- or names that many places by letters from A on.
pub decode_iff :
    (fl : Floats) (raw order : List ℕ) (d : DataType)
    → (decode fl raw d order ≢ none)
      ↔ ((byte_width d ≡ some (length raw)) × IsOrder (length raw) order)
unfolding decode
decode_iff fl raw order d = (needs, total)
  where
    needs :
        decode fl raw d order ≢ none
        → (byte_width d ≡ some (length raw)) × IsOrder (length raw) order
    needs h = elim (Option-cases (byte_width d)) [
      | inl strange ↦ absurd (h (rw (strange, decode) refl))
      | inr (w, known) ↦ elim (Bool-cases (length raw == w)) [
        | inr wrong ↦ absurd (h (rw (known, decode, wrong) refl))
        | inl right ↦ (
          ground (arith, known, right),
          (reorder_iff raw order).0 (λ bad. h (rw (known, decode, right, bad) refl)),
        )
      ]
    ]

    total :
        (byte_width d ≡ some (length raw)) × IsOrder (length raw) order
        → decode fl raw d order ≢ none
    total (known, o) e = elim (Option-cases (reorder raw order)) [
      | inl bad ↦ (reorder_iff raw order).1 o bad
      | inr (out, found) ↦
          number_total fl d (big_endian 0 out) (length raw) known (ground (arith, known, found, e))
    ]

abbrev four : ℕ → ℕ → ℕ → ℕ → List ℕ
four a b c e = a ∷ b ∷ c ∷ e ∷ []

swap_back :
    (order : List ℕ) (a b c e : ℕ)
    → IsSwap order
    → (wire : List ℕ) × (reorder (four a b c e) order ≡ some wire)
      × (length wire ≡ 4)
      × (reorder wire order ≡ some (four a b c e))
unfolding reorder
swap_back _ a b c e badc = (four b a e c, refl, refl, refl)
swap_back _ a b c e cdab = (four c e a b, refl, refl, refl)
swap_back _ a b c e dcba = (four e c b a, refl, refl, refl)

-- Bytes that were sent in a swapped order decode, by that order, to the value of the natural one.
pub decode_swapped :
    (fl : Floats) (d : DataType) (order raw wire : List ℕ)
    → IsSwap order
    → length raw ≡ 4
    → reorder raw order ≡ some wire
    → decode fl wire d order ≡ decode fl raw d []
unfolding decode
decode_swapped fl d order (x ∷ y ∷ z ∷ w ∷ []) wire o l e =
    let (wire', there, same, back) = swap_back order x y z w o in
    let agree : wire' ≡ wire = cc (there, e) in rw (← agree) (ground (arith, same, back))
decode_swapped fl d order _ wire o l e = absurd (omega arith)
