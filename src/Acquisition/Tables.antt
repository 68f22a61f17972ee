-- ===== src/Acquisition/Tables.antt =====
-- internal/acquisition/latest.go and internal/status/status.go: what was last seen of a datapoint
-- and of a device. The lock makes each step atomic.
use nx_iio_t_gateway_max_gat.Shared.{ℕ, List, [], Option, none, some, lookup, insert}

pub record LatestValue : Type 0 where
  pub value : Option ℕ
  pub quality : List ℕ
  pub unit : List ℕ
  pub at : ℕ

abbrev pub LatestStore : Type 0
LatestStore = List (ℕ × LatestValue)

unfoldable pub update_latest : ℕ → LatestValue → LatestStore → LatestStore
update_latest id v m = insert id v m

unfoldable pub get_latest : ℕ → LatestStore → Option LatestValue
get_latest id m = lookup id m

pub record StatusInfo : Type 0 where
  pub quality : List ℕ
  pub last_seen : Option ℕ
  pub last_poll_duration_ms : ℕ
  pub datapoints_polled : ℕ
  pub block_reads : ℕ

abbrev pub StatusStore : Type 0
StatusStore = List (ℕ × StatusInfo)

-- A missing key reads as the zero value.
abbrev pub info_or_zero : Option StatusInfo → StatusInfo
info_or_zero (some info) = info
info_or_zero none = record {
  quality = [];
  last_seen = none;
  last_poll_duration_ms = 0;
  datapoints_polled = 0;
  block_reads = 0;
}

unfoldable pub update_status : ℕ → List ℕ → ℕ → StatusStore → StatusStore
update_status id quality at m =
    insert id (record (info_or_zero (lookup id m)) { quality = quality; last_seen = some at }) m

unfoldable pub update_poll_timing : ℕ → ℕ → ℕ → ℕ → StatusStore → StatusStore
update_poll_timing id duration polled reads m =
    insert id
      (record (info_or_zero (lookup id m)) {
        last_poll_duration_ms = duration;
        datapoints_polled = polled;
        block_reads = reads;
      })
      m

unfoldable pub get_status : ℕ → StatusStore → Option StatusInfo
get_status id m = lookup id m
