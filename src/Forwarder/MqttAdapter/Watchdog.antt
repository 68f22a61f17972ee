-- ===== src/Forwarder/MqttAdapter/Watchdog.antt =====
-- The watchdog of internal/forwarder/mqttadapter.go over a sequence of checks and of what the client
-- reports between them.
use nx_iio_t_gateway_max_gat.Shared.{
  ℕ, ◌+◌, ◌-◌, ◌≤◌, ◌<◌, ◌≡◌, refl, inl, inr, Bool, true, false, List, [], ◌∷◌, Option, none, some,
  arith, lt→ltb, All, Bool-cases,
}
use nx_iio_t_gateway_max_gat.Forwarder.MqttAdapter.{
  MqttAdapter, on_connect, on_connection_lost, is_stuck, check_and_force_reconnect,
}

-- A check has the time at which it begins, the time behind its attempt, and the client's answers.
pub data Watched : Type 0 where
  connected : Watched
  lost : ℕ → Watched
  tick : ℕ → ℕ → Bool → Bool → Watched

-- For each check, whether it made an attempt.
unfoldable pub watch : ℕ → List Watched → MqttAdapter → MqttAdapter × List Bool
unfolding on_connect on_connection_lost check_and_force_reconnect
watch after [] a = (a, [])
watch after (connected ∷ ws) a = watch after ws (on_connect a)
watch after (lost now ∷ ws) a = watch after ws (on_connection_lost now a)
watch after (tick now later is_open reopened ∷ ws) a =
    let checked = check_and_force_reconnect after now later is_open reopened a in
    let rest = watch after ws checked.0 in (rest.0, checked.1 ∷ rest.1)

-- All that happens lies in the time before the next attempt is due.
abbrev pub IsBefore : ℕ → ℕ → Watched → Type 0
IsBefore start after connected = Unit
IsBefore start after (lost now) = start ≤ now
IsBefore start after (tick now later is_open reopened) = now < start + after

data IsFresh (start : ℕ) : Option ℕ → Type 0 where
  up : IsFresh start none
  down : {since : ℕ} → start ≤ since → IsFresh start (some since)

not_stuck :
    (start after now : ℕ) (is_open : Bool) (since : Option ℕ)
    → 0 < after
    → IsFresh start since
    → now < start + after
    → is_stuck after now is_open since ≡ false
unfolding is_stuck
not_stuck start after now is_open none pos v h = refl
not_stuck start after now true (some since) pos v h = refl
not_stuck start after now false (some since) pos (down le) h =
    rw (lt→ltb (now - since) after (omega arith)) refl

watch_quiet :
    (start after : ℕ) (ws : List Watched) (a : MqttAdapter)
    → 0 < after
    → IsFresh start a.disconnected_at
    → All (IsBefore start after) ws
    → All (λ forced. forced ≡ false) (watch after ws a).1
unfolding watch check_and_force_reconnect on_connect on_connection_lost
watch_quiet start after [] a pos v h = tt
watch_quiet start after (connected ∷ ws) a pos v h = watch_quiet start after ws _ pos up h.1
watch_quiet start after (lost now ∷ ws) a pos v h = watch_quiet start after ws _ pos (down h.0) h.1
watch_quiet start after (tick now later is_open reopened ∷ ws) a pos v h =
    rw (not_stuck start after now is_open a.disconnected_at pos v h.0, check_and_force_reconnect)
      (refl, watch_quiet start after ws a pos v h.1)

-- When an attempt ends at a time `later` with the client still down, no check makes another one
-- before the stuck time has passed since then, however often the connection comes and goes.
pub watch_spaced :
    (after now later : ℕ) (is_open : Bool) (ws : List Watched) (a : MqttAdapter)
    → 0 < after
    → (check_and_force_reconnect after now later is_open false a).1 ≡ true
    → All (IsBefore later after) ws
    → let a' = (check_and_force_reconnect after now later is_open false a).0 in
      All (λ forced. forced ≡ false) (watch after ws a').1
unfolding check_and_force_reconnect
watch_spaced after now later is_open ws a pos forced h =
    elim (Bool-cases (is_stuck after now is_open a.disconnected_at)) [
      | inl stuck ↦
          rw (stuck, check_and_force_reconnect)
            (watch_quiet later after ws _ pos (down (omega arith)) h)
      | inr fine ↦ cc (rw (fine, check_and_force_reconnect) at forced)
    ]
