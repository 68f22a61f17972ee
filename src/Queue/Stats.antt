-- ===== src/Queue/Stats.antt =====
-- Stats and Close of internal/queue/store.go. The two float64 numbers are computed by parameters,
-- and StreamID, which never changes, is left out.
use nx_iio_t_gateway_max_gat.Shared.{
  ℕ, ◌+◌, ◌<◌, ◌≡◌, Bool, not, ◌&&◌, List, [], ◌∷◌, Option, none, some, arith, ltb, ◌==◌,
  if◌then◌else◌, length, wrap64, add64, sub64, lt64, max64, is_neg64, two64,
}
use nx_iio_t_gateway_max_gat.Queue.Types.{Reading}
use nx_iio_t_gateway_max_gat.Queue.Db.{PendingChunk, Answers, total_pending, total_rows}
use nx_iio_t_gateway_max_gat.Queue.Store.{Codec, RateSample, Store, flush}
use nx_iio_t_gateway_max_gat.Queue.Store.Counters.{IsConsistent}

-- float64(a) / float64(b), and a count over a duration in nanoseconds as a rate per second.
pub record Ratios : Type 1 where
  pub F : Type 0
  pub zero_ratio : F
  pub ratio : ℕ → ℕ → F
  pub per_second : ℕ → ℕ → F

pub record Stats (F : Type 0) : Type 0 where
  pub pending_chunks : ℕ
  pub pending_readings : ℕ
  pub buffered_readings : ℕ
  pub oldest_pending : Option ℕ
  pub newest_pending : Option ℕ
  pub db_bytes : ℕ
  pub max_bytes : ℕ
  pub evicted_readings : ℕ
  pub dropped_readings : ℕ
  pub write_rate_per_sec : F
  pub avg_bytes_per_reading : F

count_buffered : ℕ → List PendingChunk → ℕ
count_buffered n [] = n
count_buffered n (c ∷ cs) = count_buffered (add64 n c.n) cs

-- `if oldest == 0`, for the chunks that wait and then for the buffer.
first_waiting : ℕ → List PendingChunk → ℕ
first_waiting oldest [] = oldest
first_waiting oldest (c ∷ cs) = if oldest == 0 then c.first_ts else oldest

first_buffered : ℕ → List Reading → ℕ
first_buffered oldest [] = oldest
first_buffered oldest (r ∷ rs) = if oldest == 0 then r.time else oldest

last_buffered : ℕ → List Reading → ℕ
last_buffered newest [] = newest
last_buffered newest (r ∷ []) = max64 newest r.time
last_buffered newest (r ∷ r' ∷ rs) = last_buffered newest (r' ∷ rs)

-- A time that is 0 is left nil.
time_or_nil : ℕ → Option ℕ
time_or_nil t = if t == 0 then none else some t

module _ (fl : Ratios) where
  average : Store → fl.F
  average s =
      if ltb 0 s.written_readings && not (is_neg64 s.written_readings)
      then fl.ratio s.written_bytes s.written_readings
      else fl.zero_ratio

  rate_between : RateSample → RateSample → fl.F
  rate_between first last =
      if lt64 first.taken_at last.taken_at
      then fl.per_second (sub64 last.total first.total) (sub64 last.taken_at first.taken_at)
      else fl.zero_ratio

  -- From the first sample to the last, if there are two.
  write_rate : List RateSample → fl.F
  unfolding rate_between
  write_rate [] = fl.zero_ratio
  write_rate (first ∷ []) = fl.zero_ratio
  write_rate (first ∷ last ∷ []) = rate_between first last
  write_rate (first ∷ second ∷ last ∷ rest) = write_rate (first ∷ last ∷ rest)

  unfoldable pub stats : Store → Stats fl.F
  unfolding count_buffered first_waiting first_buffered last_buffered time_or_nil average write_rate
  stats s = record {
    pending_chunks = s.pending_chunks;
    pending_readings = s.pending_readings;
    buffered_readings = count_buffered (wrap64 (length s.buf)) s.unflushed;
    oldest_pending = time_or_nil (first_buffered (first_waiting s.oldest_ts s.unflushed) s.buf);
    newest_pending = time_or_nil (last_buffered s.newest_ts s.buf);
    db_bytes = s.db_bytes;
    max_bytes = s.opts.max_bytes;
    evicted_readings = s.evicted;
    dropped_readings = s.dropped;
    write_rate_per_sec = write_rate s.rates;
    avg_bytes_per_reading = average s;
  }

  count_buffered_lem :
      (n : ℕ) (ps : List PendingChunk)
      → n < two64
      → count_buffered n ps ≡ wrap64 (n + total_pending ps)
  unfolding count_buffered
  count_buffered_lem n [] h = omega arith
  count_buffered_lem n (c ∷ cs) h = omega (arith, count_buffered_lem (add64 n c.n) cs (omega arith))

  -- Of a store that is in step with its file, the statistics count the rows of the file and their
  -- readings, and the readings in memory, those in chunks that wait included, without a look at it.
  pub stats_counts :
      (s : Store)
      → IsConsistent s
      → ((stats s).pending_chunks ≡ wrap64 (length s.db.rows))
        × ((stats s).pending_readings ≡ wrap64 (total_rows s.db.rows))
        × ((stats s).buffered_readings ≡ wrap64 (length s.buf + total_pending s.unflushed))
  unfolding stats
  stats_counts s v = (
    v.chunks,
    v.readings,
    omega (arith, count_buffered_lem (wrap64 (length s.buf)) s.unflushed (omega arith)),
  )

-- `Close`: the flush, and whether the database closed without an error; nothing is appended then.
unfoldable pub close_store : Codec → Answers → Bool → Store → Store × Bool
unfolding flush
close_store c answers closed s =
    let flushed = flush c answers [] s in (flushed.0, flushed.1 && closed)
