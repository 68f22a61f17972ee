-- ===== src/Tests/Modbus.antt =====
-- internal/modbus on concrete bytes, errors and a client.
use nx_iio_t_gateway_max_gat.Shared.{
  ℕ, ◌+◌, ◌≤◌, ◌≡◌, ◌≢◌, ◌↔◌, refl, Bool, true, false, List, [], ◌∷◌, none, some,
}
use nx_iio_t_gateway_max_gat.Queue.Codec.Names.{bytes_of}
use nx_iio_t_gateway_max_gat.Modbus.Decode.{
  int16, byte_width, reorder, big_endian, ℤ, pos, negsuc, Floats, number, decode,
}
use nx_iio_t_gateway_max_gat.Modbus.Decode.Orders.{IsOrder, decode_iff}
use nx_iio_t_gateway_max_gat.Modbus.Quality.{ReadError}
use nx_iio_t_gateway_max_gat.Modbus.Client.{Client, nothing, read_with_retry}
use nx_iio_t_gateway_max_gat.Modbus.Client.Attempts.{
  CountsReads, read_with_retry_bounds, read_with_retry_overcounts,
}

-- Integers in place of float64; a bit pattern stands for itself.
abbrev pub whole : Floats
whole = record {
  F = ℤ;
  of_int = λ i. i;
  of_bits32 = pos;
  of_bits64 = pos;
  mul = λ a b. a;
  add = λ a b. a;
}

negative_decodes : decode whole (255 ∷ 254 ∷ []) int16 [] ≡ some (negsuc 1)
unfolding decode reorder number big_endian byte_width
negative_decodes = refl

decode_iff_example :
    (decode whole (1 ∷ 2 ∷ []) int16 (b'B' ∷ b'A' ∷ []) ≢ none)
    ↔ ((byte_width int16 ≡ some 2) × IsOrder 2 (b'B' ∷ b'A' ∷ []))
decode_iff_example = decode_iff whole (1 ∷ 2 ∷ []) (b'B' ∷ b'A' ∷ []) int16

abbrev word_swap : List ℕ
word_swap = b'C' ∷ b'D' ∷ b'A' ∷ b'B' ∷ []

swapped : reorder (1 ∷ 2 ∷ 3 ∷ 4 ∷ []) word_swap ≡ some (3 ∷ 4 ∷ 1 ∷ 2 ∷ [])
unfolding reorder
swapped = refl

abbrev checksum : ReadError
checksum = record {
  times_out = false;
  is_closed = false;
  is_dns = false;
  text = bytes_of "bad CRC";
}

-- A device that is unplugged: each read fails, and so does each connect. The state counts reads.
abbrev unplugged : Client
unplugged = record {
  S = ℕ;
  Error = Bool;
  connect = λ n. (n, some true);
  close = λ n. n;
  read = λ n. (n + 1, (some false, []));
}

abbrev count : ℕ → ℕ
count n = n

reads_counted : CountsReads unplugged count
reads_counted = record {
  connect_sends = λ s. refl;
  close_sends = λ s. refl;
  read_sends = λ s. refl;
}

read_with_retry_bounds_example :
    let r = read_with_retry unplugged (λ n. false) 3 0 in
    (1 ≤ r.attempts) × (r.attempts ≤ 4) × (r.client ≤ 0 + r.attempts) × (r.answer ≢ nothing)
read_with_retry_bounds_example =
    read_with_retry_bounds unplugged count reads_counted (λ n. false) 3 0

connect_fails : (s : ℕ) → (unplugged.connect s).1 ≢ none
connect_fails s e = cc

read_with_retry_overcounts_example :
    let r = read_with_retry unplugged (λ n. false) 3 0 in (r.attempts ≡ 4) × (r.client ≡ 1)
read_with_retry_overcounts_example =
    read_with_retry_overcounts unplugged count reads_counted (λ n. false) 3 0 false refl refl
      connect_fails
