-- ===== src/Queue/Codec/Varint.antt =====
-- The variable-length integers of Go's encoding/binary, as the chunk format of
-- internal/queue/codec.go uses them, and the eight bytes of a float64.
use mathlib.Core.Option
use native.Mathlib.Nat.{pow-suc}
use nx_iio_t_gateway_max_gat.Shared.{
  ℕ, zero, suc, ◌+◌, ◌-◌, ◌*◌, ◌/◌, ◌%◌, ◌^◌, ◌≤◌, ◌<◌, ◌≡◌, refl, List, [], ◌∷◌, ◌++◌, Option,
  none, some, arith, ltb, ◌==◌, if◌then◌else◌, length, two64, is_neg64,
}

-- Groups of seven bits, lowest first; all but the last have the top bit set. `k` more groups may
-- follow the first.
put_groups : ℕ → ℕ → List ℕ
put_groups zero v = v ∷ []
put_groups (suc k) v =
    let rest = put_groups k (v / 128) in if ltb v 128 then v ∷ [] else (v % 128 + 128) ∷ rest

-- A uint64 takes ten groups at most.
unfoldable pub put_uvarint : ℕ → List ℕ
unfolding put_groups
put_uvarint v = put_groups 9 v

join_group : ℕ → Option (ℕ × List ℕ) → Option (ℕ × List ℕ)
join_group b none = none
join_group b (some (v, rest)) = some (b - 128 + 128 * v, rest)

-- The tenth byte may only be 0 or 1: anything above overflows 64 bits.
read_groups : ℕ → List ℕ → Option (ℕ × List ℕ)
unfolding join_group
read_groups k [] = none
read_groups zero (b ∷ bs) = if ltb b 2 then some (b, bs) else none
read_groups (suc k) (b ∷ bs) =
    let more = join_group b (read_groups k bs) in if ltb b 128 then some (b, bs) else more

unfoldable pub read_uvarint : List ℕ → Option (ℕ × List ℕ)
unfolding read_groups
read_uvarint bs = read_groups 9 bs

read_groups-put_groups :
    (k v : ℕ) (rest : List ℕ)
    → v < 2 * 128 ^ k
    → read_groups k (put_groups k v ++ rest) ≡ some (v, rest)
unfolding read_groups put_groups
read_groups-put_groups zero v rest h = ground arith
read_groups-put_groups (suc k) v rest h =
    ground (arith, pow-suc 128 k, read_groups-put_groups k (v / 128) rest)

-- A uint64 is read back as it was written, whatever follows it.
pub read_uvarint-put_uvarint :
    (v : ℕ) (rest : List ℕ) → v < two64 → read_uvarint (put_uvarint v ++ rest) ≡ some (v, rest)
unfolding read_uvarint put_uvarint
read_uvarint-put_uvarint v rest h = read_groups-put_groups 9 v rest (omega arith)

pub length-put_uvarint : (v : ℕ) → 1 ≤ length (put_uvarint v)
unfolding put_uvarint
length-put_uvarint v = ground arith

-- The sign goes to the lowest bit.
zigzag : ℕ → ℕ
zigzag x = if is_neg64 x then two64 - 1 - 2 * x % two64 else 2 * x % two64

unzigzag : ℕ → ℕ
unzigzag u = if u % 2 == 1 then two64 - 1 - u / 2 else u / 2

unzigzag-zigzag : (x : ℕ) → x < two64 → unzigzag (zigzag x) ≡ x
unfolding zigzag unzigzag
unzigzag-zigzag x h = ground arith

zigzag-lt : (x : ℕ) → zigzag x < two64
unfolding zigzag
zigzag-lt x = ground arith

unfoldable pub put_varint : ℕ → List ℕ
unfolding zigzag
put_varint x = put_uvarint (zigzag x)

unfoldable pub read_varint : List ℕ → Option (ℕ × List ℕ)
unfolding unzigzag
read_varint bs = Option.map (λ (u, rest). (unzigzag u, rest)) (read_uvarint bs)

pub read_varint-put_varint :
    (x : ℕ) (rest : List ℕ) → x < two64 → read_varint (put_varint x ++ rest) ≡ some (x, rest)
unfolding read_varint put_varint
read_varint-put_varint x rest h =
    rw (read_uvarint-put_uvarint (zigzag x) rest (zigzag-lt x)) (rw (unzigzag-zigzag x h) refl)

-- n bytes, lowest first.
unfoldable pub put_le : ℕ → ℕ → List ℕ
put_le zero v = []
put_le (suc n) v = (v % 256) ∷ put_le n (v / 256)

unfoldable pub read_le : List ℕ → ℕ
read_le [] = 0
read_le (b ∷ bs) = b + 256 * read_le bs

pub length-put_le : (n v : ℕ) → length (put_le n v) ≡ n
unfolding put_le
length-put_le zero v = refl
length-put_le (suc n) v = omega (arith, length-put_le n (v / 256))

pub read_le-put_le : (n v : ℕ) → v < 256 ^ n → read_le (put_le n v) ≡ v
unfolding put_le read_le
read_le-put_le zero v h = ground arith
read_le-put_le (suc n) v h = ground (arith, pow-suc 256 n, read_le-put_le n (v / 256))
