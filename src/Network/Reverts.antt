-- ===== src/Network/Reverts.antt =====
-- The timers of internal/netconfig/service.go: one for each change that waits, and a late one.
use nx_iio_t_gateway_max_gat.Shared.{
  ◌≡◌, refl, ap, inl, inr, Bool, true, false, [], ◌∷◌, ◌++◌, Option, none, some, arith,
  Option-cases, Bool-cases,
}
use nx_iio_t_gateway_max_gat.Network.{
  Info, Controller, Timer, stop_timer, Service, stop_armed, arm, apply_and_arm, begin_revert,
  revert, confirm, pending,
}

module _ (ct : Controller) where
  -- Either no change waits and no timer runs, or the one timer that runs is the one of the change
  -- that waits, and goes back to what the controller reported of the network `before` that change.
  pub data IsArmed (s : Service ct) (before : Option ct.C) : Type 0 where
    idle : s.timer ≡ none → s.running ≡ [] → s.previous ≡ none → before ≡ none → IsArmed s before
    waiting :
        (t : Timer) (network : ct.C)
        → s.timer ≡ some t.id
        → s.running ≡ t ∷ []
        → s.previous ≡ some t.target
        → before ≡ some network
        → ct.current network ≡ some t.target
        → IsArmed s before

  -- The network before the change that waits, when a change has gone well or has failed.
  abbrev pub before_change : Bool → ct.C → Option ct.C → Option ct.C
  before_change true network before = some network
  before_change false network before = before

  stop_self : (t : Timer) → stop_timer t.id (t ∷ []) ≡ []
  stop_self t = ground arith

  nothing_left : (s : Service ct) (b : Option ct.C) → IsArmed s b → stop_armed ct s ≡ []
  unfolding stop_armed
  nothing_left s b (idle t r p e) = rw (t, stop_armed) r
  nothing_left s b (waiting t n e r p o c) = rw (e, stop_armed, r) (stop_self t)

  stop_nothing : (s : Service ct) → s.running ≡ [] → stop_armed ct s ≡ []
  unfolding stop_armed
  stop_nothing s r = elim (Option-cases s.timer) [
    | inl free ↦ rw (free, stop_armed) r
    | inr (n, armed) ↦ rw (armed, stop_armed, r) refl
  ]

  same_timers :
      {s : Service ct} {b : Option ct.C} {network : ct.C}
      → IsArmed s b
      → IsArmed (record s { network = network }) b
  same_timers (idle t r p e) = idle t r p e
  same_timers (waiting t n e r p o c) = waiting t n e r p o c

  arm-IsArmed :
      (prev : Info) (s : Service ct) (b : Option ct.C) (network : ct.C)
      → IsArmed s b
      → ct.current network ≡ some prev
      → IsArmed (arm ct prev s) (some network)
  unfolding arm
  arm-IsArmed prev s b network v c =
      waiting (record { id = s.next_id; target = prev }) network refl (rw (nothing_left s b v) refl)
        refl refl c

  -- A change leaves one timer running, for itself, also when an older change still waited; a change
  -- that fails leaves the timers as they were.
  pub apply_and_arm-IsArmed :
      (change : ct.C → ct.C × Bool) (s : Service ct) (b : Option ct.C)
      → IsArmed s b
      → IsArmed
          (apply_and_arm ct change s).0
          (before_change (apply_and_arm ct change s).1 s.network b)
  unfolding apply_and_arm
  apply_and_arm-IsArmed change s b v = elim (Option-cases (ct.current s.network)) [
    | inl unread ↦ rw (unread, apply_and_arm) v
    | inr (prev, read) ↦
        let changed : Service ct = record s { network = (change s.network).0 } in
        elim (Bool-cases (change s.network).1) [
          | inl went ↦
              rw (read, apply_and_arm, went)
                (arm-IsArmed prev changed b s.network (same_timers v) read)
          | inr broke ↦ rw (read, apply_and_arm, broke) (same_timers v)
        ]
  ]

  -- Confirming stops the timer of the change that waits.
  pub confirm-IsArmed :
      (s : Service ct) (b : Option ct.C) → IsArmed s b → IsArmed (confirm ct s).0 none
  unfolding confirm
  confirm-IsArmed s b (idle t r p e) = rw (t, confirm) (idle t r p refl)
  confirm-IsArmed s b (waiting t n e r p o c) =
      rw (e, confirm) (idle refl (rw r (stop_self t)) refl refl)

  -- A timer that fires and reverts with nothing in between leaves no change waiting.
  pub revert-IsArmed :
      (t : Timer) (s : Service ct)
      → s.running ≡ t ∷ []
      → IsArmed (revert ct t.target (begin_revert ct t s)) none
  unfolding revert begin_revert
  revert-IsArmed t s r = idle refl (rw r (stop_self t)) refl refl

  -- A confirmation that comes while the callback of the timer has begun succeeds, and the change is
  -- rolled back all the same.
  pub confirm_too_late :
      (t : Timer) (s : Service ct)
      → s.timer ≡ some t.id
      → let confirmed = confirm ct (begin_revert ct t s) in
        (confirmed.1 ≡ true)
        × ((revert ct t.target confirmed.0).network ≡ (revert ct t.target s).network)
  unfolding confirm begin_revert revert
  confirm_too_late t s e = rw (e, confirm) (refl, refl)

  -- A change that is made while the callback of an older one has begun loses its own timer from the
  -- service: once that callback ends, it cannot be confirmed, and its rollback still runs.
  pub apply_unconfirmable :
      (change : ct.C → ct.C × Bool) (t : Timer) (s : Service ct)
      → s.running ≡ t ∷ []
      → (apply_and_arm ct change (begin_revert ct t s)).1 ≡ true
      → let after = revert ct t.target (apply_and_arm ct change (begin_revert ct t s)).0 in
        ((confirm ct after).1 ≡ false)
        × (pending ct after ≡ false)
        × ((prev : Info) × (after.running ≡ record { id = s.next_id; target = prev } ∷ []))
  unfolding apply_and_arm confirm revert arm begin_revert pending
  apply_unconfirmable change t s r h = elim (Option-cases (ct.current s.network)) [
    | inl unread ↦ cc (rw (unread, apply_and_arm) at h)
    | inr (prev, read) ↦ elim (Bool-cases (change s.network).1) [
      | inl went ↦
          rw (read, apply_and_arm, went)
            (
              refl,
              refl,
              (
                prev,
                ap (λ ts. ts ++ record { id = s.next_id; target = prev } ∷ [])
                    (stop_nothing
                      (record s {
                        network = (change s.network).0;
                        running = stop_timer t.id s.running;
                      })
                      (rw r (stop_self t))),
              ),
            )
      | inr broke ↦ cc (rw (read, apply_and_arm, broke) at h)
    ]
  ]
