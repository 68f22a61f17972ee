-- ===== src/Time.antt =====
-- internal/time/service.go: the quality of the clock over rounds of synchronisation. What the
-- hardware clock, the NTP server and the system clock answer are inputs of a round.
use nx_iio_t_gateway_max_gat.Shared.{
  ℕ, ◌≤◌, ◌≡◌, ◌≢◌, ◌↔◌, refl, ◌⊎◌, inl, inr, Bool, true, false, ◌&&◌, ◌||◌, List, [], ◌∷◌, Option,
  none, some, arith, leb, ◌==◌, if◌then◌else◌, is_neg64, add64, Bool-cases, Option-cases,
}

pub data TimeQuality : Type 0 where
  synced rtc unsynced invalid : TimeQuality

pub record TimeConfig : Type 0 where
  pub has_server : Bool
  pub sync_interval : ℕ
  pub query_timeout : ℕ

-- New's defaults: five minutes and three seconds, in nanoseconds.
unfoldable pub new_time_config : TimeConfig → TimeConfig
new_time_config cfg = record cfg {
  sync_interval =
      if cfg.sync_interval == 0 || is_neg64 cfg.sync_interval
      then 300000000000
      else cfg.sync_interval;
  query_timeout =
      if cfg.query_timeout == 0 || is_neg64 cfg.query_timeout
      then 3000000000
      else cfg.query_timeout;
}

pub record TimeStatus : Type 0 where
  pub ntp_synced : Bool
  pub last_sync : Option ℕ
  pub clock_offset : Option ℕ
  pub rtc_available : Bool
  pub rtc_time : Option ℕ
  pub quality : TimeQuality

abbrev pub new_status : TimeStatus
new_status = record {
  ntp_synced = false;
  last_sync = none;
  clock_offset = none;
  rtc_available = false;
  rtc_time = none;
  quality = unsynced;
}

-- One round: the answers of the hardware clock and of the NTP server, or their errors, the system
-- time, and the year that it shows. Times and offsets are int64 bit patterns.
pub record Round : Type 0 where
  pub rtc_read : Option ℕ
  pub offset : Option ℕ
  pub now : ℕ
  pub year : ℕ

unfoldable pub check_rtc : Option ℕ → TimeStatus → TimeStatus
check_rtc none st = record st { rtc_available = false; rtc_time = none }
check_rtc (some t) st = record st { rtc_available = true; rtc_time = some t }

unfoldable pub is_plausible : ℕ → Bool
is_plausible year = leb 2020 year && leb year 2100

unfoldable pub degrade : ℕ → TimeStatus → TimeStatus
unfolding is_plausible
degrade year st = record st {
  ntp_synced = false;
  quality = if st.rtc_available then rtc else (if is_plausible year then unsynced else invalid);
}

after_query : Round → Option ℕ → TimeStatus → TimeStatus × Option ℕ
unfolding degrade
after_query r none st = (degrade r.year st, none)
after_query r (some offset) st = (
  record st {
    ntp_synced = true;
    last_sync = some r.now;
    clock_offset = some offset;
    quality = synced;
  },
  some (add64 r.now offset),
)

-- The second result is the time that the system clock and the hardware clock are set to.
unfoldable pub sync_once : TimeConfig → Round → TimeStatus → TimeStatus × Option ℕ
unfolding check_rtc after_query
sync_once cfg r st =
    if cfg.has_server
    then after_query r r.offset (check_rtc r.rtc_read st)
    else (degrade r.year (check_rtc r.rtc_read st), none)

-- The rounds of `Run` until the context ends.
unfoldable pub sync_all : TimeConfig → List Round → TimeStatus → TimeStatus
unfolding sync_once
sync_all cfg [] st = st
sync_all cfg (r ∷ rs) st = sync_all cfg rs (sync_once cfg r st).0

-- The fields of the status agree with one another.
pub record IsTruthful (st : TimeStatus) : Type 0 where
  pub synced_iff : (st.quality ≡ synced) ↔ (st.ntp_synced ≡ true)
  pub rtc_iff : (st.rtc_available ≡ true) ↔ (st.rtc_time ≢ none)
  pub rtc_there : st.quality ≡ rtc → st.rtc_available ≡ true
  pub synced_once : st.ntp_synced ≡ true → (st.last_sync ≢ none) × (st.clock_offset ≢ none)

plausible : (year : ℕ) → is_plausible year ≡ true → (2020 ≤ year) × (year ≤ 2100)
unfolding is_plausible
plausible year h = ground arith

implausible : (year : ℕ) → is_plausible year ≡ false → 2020 ≤ year → ¬ (year ≤ 2100)
unfolding is_plausible
implausible year h early late = ground arith

-- What a round without an answer leaves.
abbrev pub FellBack : Round → TimeStatus → TimeStatus → Type 0
FellBack r st after =
    (after.last_sync ≡ st.last_sync)
    × (after.clock_offset ≡ st.clock_offset)
    × ((after.quality ≡ rtc) ↔ (r.rtc_read ≢ none))
    × ((after.quality ≡ unsynced) ↔ ((r.rtc_read ≡ none) × (2020 ≤ r.year) × (r.year ≤ 2100)))

degrade-FellBack :
    (r : Round) (st : TimeStatus) → FellBack r st (degrade r.year (check_rtc r.rtc_read st))
unfolding degrade check_rtc
degrade-FellBack r st = elim (Option-cases r.rtc_read) [
  | inr (t, there) ↦ rw (there, check_rtc) (refl, refl, (λ _ h. cc, λ _. refl), (λ h. cc, λ h. cc))
  | inl missing ↦ elim (Bool-cases (is_plausible r.year)) [
    | inl sane ↦
        rw (missing, check_rtc, sane)
          (
            refl,
            refl,
            (λ h. cc, λ h. absurd (h refl)),
            (λ _. (refl, (plausible r.year sane).0, (plausible r.year sane).1), λ _. refl),
          )
    | inr odd ↦
        rw (missing, check_rtc, odd)
          (
            refl,
            refl,
            (λ h. cc, λ h. absurd (h refl)),
            (λ h. cc, λ (_, early, late). absurd (implausible r.year odd early late)),
          )
  ]
]

-- A round without an answer from NTP sets no clock, keeps what the last success recorded, reports
-- RTC exactly when the hardware clock answers, and UNSYNCED exactly when it does not and the year
-- of the system clock is from 2020 to 2100.
pub sync_once_falls_back :
    (cfg : TimeConfig) (r : Round) (st : TimeStatus)
    → (cfg.has_server ≡ false) ⊎ (r.offset ≡ none)
    → ((sync_once cfg r st).1 ≡ none) × FellBack r st (sync_once cfg r st).0
unfolding sync_once
sync_once_falls_back cfg r st h = elim (Bool-cases cfg.has_server) [
  | inr alone ↦ rw (alone, sync_once) (refl, degrade-FellBack r st)
  | inl server ↦ elim h [
    | inl alone ↦ cc (server, alone)
    | inr lost ↦ rw (server, sync_once, lost) (refl, degrade-FellBack r st)
  ]
]
