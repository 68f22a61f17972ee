-- ===== src/Acquisition/Diagnostics.antt =====
-- internal/diagnostics/diagnostics.go: the counters of the Modbus traffic, as int64 bit patterns.
use nx_iio_t_gateway_max_gat.Shared.{
  ℕ, ◌+◌, ◌-◌, ◌<◌, ◌≡◌, two64, Bool, true, false, List, [], ◌∷◌, arith, ltb, if◌then◌else◌, wrap64,
  add64,
}
use nx_iio_t_gateway_max_gat.Modbus.Quality.{
  Quality, good, timeout, crc_error, device_offline, invalid,
}

pub record Counters : Type 0 where
  pub tx : ℕ
  pub rx : ℕ
  pub timeouts : ℕ
  pub crc_errors : ℕ
  pub retries : ℕ
  pub response_total_ns : ℕ
  pub response_count : ℕ

abbrev pub new_counters : Counters
new_counters = record {
  tx = 0;
  rx = 0;
  timeouts = 0;
  crc_errors = 0;
  retries = 0;
  response_total_ns = 0;
  response_count = 0;
}

count_outcome : Quality → ℕ → Counters → Counters
count_outcome good duration c = record c {
  rx = add64 c.rx 1;
  response_total_ns = add64 c.response_total_ns duration;
  response_count = add64 c.response_count 1;
}
count_outcome timeout duration c = record c { timeouts = add64 c.timeouts 1 }
count_outcome crc_error duration c = record c { crc_errors = add64 c.crc_errors 1 }
count_outcome device_offline duration c = c
count_outcome invalid duration c = c

-- A number of attempts is never negative: ReadWithRetry starts from 0 and adds.
unfoldable pub record_result : Quality → ℕ → ℕ → Counters → Counters
unfolding count_outcome
record_result quality duration attempts c =
    let sent = if ltb attempts 1 then 1 else attempts in
    count_outcome quality duration (record c {
      tx = add64 c.tx (wrap64 sent);
      retries = if ltb 0 (sent - 1) then add64 c.retries (wrap64 (sent - 1)) else c.retries;
    })

-- What is recorded of one read.
pub record Exchange : Type 0 where
  pub quality : Quality
  pub duration : ℕ
  pub attempts : ℕ

unfoldable pub record_all : List Exchange → Counters → Counters
unfolding record_result
record_all [] c = c
record_all (e ∷ es) c = record_all es (record_result e.quality e.duration e.attempts c)

-- The reads of a quality, for the quality as a test.
abbrev pub count_if : (Quality → Bool) → List Exchange → ℕ
count_if p [] = 0
count_if p (e ∷ es) = (if p e.quality then 1 else 0) + count_if p es

abbrev pub is_good : Quality → Bool
is_good good = true
is_good _ = false

abbrev pub is_timeout : Quality → Bool
is_timeout timeout = true
is_timeout _ = false

abbrev pub is_crc_error : Quality → Bool
is_crc_error crc_error = true
is_crc_error _ = false

-- The counters of a list of reads.
pub record Counts (before after : Counters) (es : List Exchange) : Type 0 where
  pub good_reads : after.rx ≡ wrap64 (before.rx + count_if is_good es)
  pub timed_reads : after.response_count ≡ wrap64 (before.response_count + count_if is_good es)
  pub late_reads : after.timeouts ≡ wrap64 (before.timeouts + count_if is_timeout es)
  pub corrupt_reads : after.crc_errors ≡ wrap64 (before.crc_errors + count_if is_crc_error es)

-- The counters that are read below are int64 words.
pub record AreWords (c : Counters) : Type 0 where
  pub rx_word : c.rx < two64
  pub count_word : c.response_count < two64
  pub timeouts_word : c.timeouts < two64
  pub crc_word : c.crc_errors < two64

record_result-Counts :
    (q : Quality) (d n : ℕ) (c : Counters)
    → AreWords c
    → AreWords (record_result q d n c)
      × ((record_result q d n c).rx ≡ wrap64 (c.rx + (if is_good q then 1 else 0)))
      × ((record_result q d n c).response_count
          ≡ wrap64 (c.response_count + (if is_good q then 1 else 0)))
      × ((record_result q d n c).timeouts ≡ wrap64 (c.timeouts + (if is_timeout q then 1 else 0)))
      × ((record_result q d n c).crc_errors
          ≡ wrap64 (c.crc_errors + (if is_crc_error q then 1 else 0)))
unfolding record_result
record_result-Counts good d n c v = ground arith
record_result-Counts timeout d n c v = ground arith
record_result-Counts crc_error d n c v = ground arith
record_result-Counts device_offline d n c v = ground arith
record_result-Counts invalid d n c v = ground arith

-- Whatever the reads, the counters of good, late and corrupt reads grow by the number of reads of
-- that quality, up to the wrap-around of an int64, and as many response times are added as there
-- were good reads.
pub record_all-Counts :
    (es : List Exchange) (c : Counters) → AreWords c → Counts c (record_all es c) es
unfolding record_all
record_all-Counts [] c v = record {
  good_reads = omega (arith, v.rx_word);
  timed_reads = omega (arith, v.count_word);
  late_reads = omega (arith, v.timeouts_word);
  corrupt_reads = omega (arith, v.crc_word);
}
record_all-Counts (e ∷ es) c v =
    let (w, rx, count, late, crc) = record_result-Counts e.quality e.duration e.attempts c v in
    let ih = record_all-Counts es (record_result e.quality e.duration e.attempts c) w in
    record {
      good_reads = omega (arith, ih.good_reads, rx);
      timed_reads = omega (arith, ih.timed_reads, count);
      late_reads = omega (arith, ih.late_reads, late);
      corrupt_reads = omega (arith, ih.corrupt_reads, crc);
    }
