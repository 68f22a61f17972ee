-- ===== src/Shared/Words.antt =====
-- Go's int64 and uint64 as bit patterns: a number below 2 ^ 64, with wrap-around written out.
use Prim.Native.Nat.{ℕ, ◌+◌, ◌-◌, ◌%◌, ◌<◌}
use mathlib.Core.Path.{◌≡◌}
use mathlib.Core.Bool.{Bool}
use native.Mathlib.Omega.{arith}
use nx_iio_t_gateway_max_gat.Shared.Tests.{ltb, leb, if◌then◌else◌}

abbrev pub two63 : ℕ
two63 = 9223372036854775808

abbrev pub two64 : ℕ
two64 = 18446744073709551616

abbrev pub wrap64 : ℕ → ℕ
wrap64 n = n % two64

abbrev pub add64 : ℕ → ℕ → ℕ
add64 a b = (a + b) % two64

abbrev pub sub64 : ℕ → ℕ → ℕ
sub64 a b = (a + (two64 - b % two64)) % two64

-- The sign bit of an int64.
abbrev pub is_neg64 : ℕ → Bool
is_neg64 a = leb two63 a

-- The order of int64: flip the sign bit, then compare.
abbrev pub lt64 : ℕ → ℕ → Bool
lt64 a b = ltb ((a + two63) % two64) ((b + two63) % two64)

abbrev pub min64 : ℕ → ℕ → ℕ
min64 a b = if lt64 b a then b else a

abbrev pub max64 : ℕ → ℕ → ℕ
max64 a b = if lt64 a b then b else a

-- What is subtracted and added again is back, with or without wrap-around.
pub add64-sub64 : (a b : ℕ) → a < two64 → b < two64 → add64 b (sub64 a b) ≡ a
add64-sub64 a b ha hb = omega arith
