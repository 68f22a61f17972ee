-- ===== src/Forwarder/Backoff.antt =====
-- internal/forwarder/backoff.go: the wait after the n-th failure in a row.
use nx_iio_t_gateway_max_gat.Shared.{
  ℕ, zero, suc, ◌-◌, ◌*◌, ◌^◌, ◌≡◌, refl, arith, ltb, lt→ltb, if◌then◌else◌,
}

-- A time.Duration is in nanoseconds.
abbrev pub second : ℕ
second = 1000000000

abbrev pub max_backoff : ℕ
max_backoff = 60 * second

shifted : ℕ → ℕ
shifted shift =
    if ltb 6 shift
    then max_backoff
    else (if ltb max_backoff (2 ^ shift * second) then max_backoff else 2 ^ shift * second)

-- The count is never negative: `Run` starts from 0 and only adds 1.
unfoldable pub backoff_duration : ℕ → ℕ
unfolding shifted
backoff_duration retry_count = shifted ((if ltb retry_count 1 then 1 else retry_count) - 1)

-- What the schedule promises: double the wait, up to a minute.
abbrev pub schedule : ℕ → ℕ
schedule zero = second
schedule (suc n) = if ltb max_backoff (schedule n * 2) then max_backoff else schedule n * 2

schedule-cap : (n : ℕ) → schedule (suc (suc (suc (suc (suc (suc n)))))) ≡ max_backoff
schedule-cap zero = refl
schedule-cap (suc n) = rw (schedule-cap n) refl

shifted-schedule : (n : ℕ) → shifted n ≡ schedule n
unfolding shifted
shifted-schedule zero = refl
shifted-schedule (suc zero) = refl
shifted-schedule (suc (suc zero)) = refl
shifted-schedule (suc (suc (suc zero))) = refl
shifted-schedule (suc (suc (suc (suc zero)))) = refl
shifted-schedule (suc (suc (suc (suc (suc zero))))) = refl
shifted-schedule (suc (suc (suc (suc (suc (suc zero)))))) = refl
shifted-schedule (suc (suc (suc (suc (suc (suc (suc n))))))) =
    rw (schedule-cap (suc n), lt→ltb 6 (suc (suc (suc (suc (suc (suc (suc n))))))) (omega arith))
      refl

-- The first failure waits one second, and each further one twice as long as the one before it, up
-- to a minute.
pub backoff_duration-schedule : (n : ℕ) → backoff_duration (suc n) ≡ schedule n
unfolding backoff_duration
backoff_duration-schedule n =
    let same : (if ltb (suc n) 1 then 1 else suc n) - 1 ≡ n = ground arith in
    rw same (shifted-schedule n)
