-- ===== src/Tests/Capacity.antt =====
-- internal/queue/capacity.go on a concrete queue.
use nx_iio_t_gateway_max_gat.Shared.{ℕ, ◌≡◌, refl, true, [], none, arith, leb}
use nx_iio_t_gateway_max_gat.Queue.Store.{refresh_bounds}
use nx_iio_t_gateway_max_gat.Queue.Db.{delete_through, transaction, statement, close}
use nx_iio_t_gateway_max_gat.Queue.Capacity.{
  Percent, Floats, Pass, refresh_size, excess_bytes, pass_size, evict_once,
}
use nx_iio_t_gateway_max_gat.Queue.Capacity.Evict.{IsEviction, evict_once_oldest}
use nx_iio_t_gateway_max_gat.Tests.Queue.{store, store-IsConsistent}

-- Whole numbers in place of float64: 90 percent of the volume, and the chunks rounded up.
abbrev whole : Floats
whole = record { over_allowed = λ used total. 0; chunks_over = λ excess bytes chunks. 1 }

abbrev told : Pass
told = record { usage = none; cut_read = true; deletion = []; bounds = []; pages = none }

evicts : (evict_once whole told store).1 ≡ true
unfolding evict_once excess_bytes pass_size refresh_size refresh_bounds delete_through transaction
    statement close
evicts = refl

evict_once_oldest_example : (k : ℕ) × IsEviction store (evict_once whole told store).0 k
evict_once_oldest_example =
    evict_once_oldest whole told store store-IsConsistent (omega arith) evicts

abbrev percents : Percent
percents = record { F = ℕ; at_least = λ a b. leb b a; seventy = 70; ninety = 90 }

at_least_trans : (a b c : ℕ) → leb b a ≡ true → leb c b ≡ true → leb c a ≡ true
at_least_trans a b c h k = ground arith
