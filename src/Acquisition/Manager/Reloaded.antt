-- ===== src/Acquisition/Manager/Reloaded.antt =====
-- After `Reload` of internal/acquisition/manager.go.
use nx_iio_t_gateway_max_gat.Shared.{
  ℕ, suc, ◌≤◌, ◌≡◌, refl, sym, ap, ◌∙◌, inl, inr, Bool, true, List, [], ◌∷◌, Option, none, some,
  arith, ◌==◌, ==_iff, Bool-cases, Option-cases, lookup, insert, lookup-insert, In,
}
use nx_iio_t_gateway_max_gat.Acquisition.Types.{DataPoint, Device, Connection}
use nx_iio_t_gateway_max_gat.Acquisition.Manager.Wanted.{wanted_for, collect_lem}
use nx_iio_t_gateway_max_gat.Acquisition.Manager.Goroutines.{
  count, IsManaged, count-lookup, apply_wanted-IsManaged,
}
use nx_iio_t_gateway_max_gat.Acquisition.Manager.{
  Group, Running, Manager, by_id, collect, stop_changed, start_missing, apply_wanted, reload,
}
use nx_iio_t_gateway_max_gat.Acquisition.Manager.Kept.{
  stop_changed-IsKept, stop_changed_keeps, start_missing_keeps,
}

module _ (same : Group → Group → Bool) where
  -- What stands for a connection behind the reload, by what is wanted for it: nothing; the poller
  -- that ran for the same group; or a new one, with a number that no other had.
  pub data Matches (m : Manager) (id : ℕ) : Option Group → Option Running → Type 0 where
    stopped : Matches m id none none
    kept :
        {w : Group} {r : Running}
        → In (id, r) m.running
        → same r.group w ≡ true
        → Matches m id (some w) (some r)
    started :
        {w : Group} {r : Running}
        → m.next_handle ≤ r.handle
        → r.group ≡ w
        → Matches m id (some w) (some r)

  IsNew : ℕ → Group → Option Running → Type 0
  IsNew next w o = (r : Running) × (o ≡ some r) × (next ≤ r.handle) × (r.group ≡ w)

  start_missing-none :
      (ws : List (ℕ × Group)) (running : List (ℕ × Running)) (next id : ℕ)
      → lookup id running ≡ none
      → lookup id ws ≡ none
      → lookup id (start_missing same ws running next).0 ≡ none
  unfolding start_missing
  start_missing-none [] running next id h unwanted = h
  start_missing-none ((id', w) ∷ ws) running next id h unwanted = elim (Bool-cases (id == id')) [
    | inl here ↦ cc (rw here at unwanted)
    | inr there ↦
        let later : lookup id ws ≡ none = rw there at unwanted in
        elim (Option-cases (lookup id' running)) [
          | inr (rc, runs) ↦
              rw (runs, start_missing) (start_missing-none ws running next id h later)
          | inl missing ↦
              let new : Running = record { handle = next; group = w } in
              rw (missing, start_missing)
                (start_missing-none ws (insert id' new running) (suc next) id
                  (rw (lookup-insert id id' new running, there) h) later)
        ]
  ]

  start_missing-IsNew :
      (ws : List (ℕ × Group)) (running : List (ℕ × Running)) (next id : ℕ) (w : Group)
      → lookup id running ≡ none
      → lookup id ws ≡ some w
      → IsNew next w (lookup id (start_missing same ws running next).0)
  unfolding start_missing IsNew
  start_missing-IsNew [] running next id w h found = cc found
  start_missing-IsNew ((id', w') ∷ ws) running next id w h found = elim (Bool-cases (id == id')) [
    | inl here ↦
        let e : id' ≡ id = sym ((==_iff id id').0 here) in
        let is_w : w' ≡ w = cc (rw here at found) in
        let new : Running = record { handle = next; group = w' } in
        let missing : lookup id' running ≡ none = ap (λ k. lookup k running) e ∙ h in
        let put : lookup id (insert id' new running) ≡ some new =
          rw (lookup-insert id id' new running, here) refl in
        rw (missing, start_missing)
          (
            new,
            start_missing_keeps same ws (insert id' new running) (suc next) id new put,
            omega arith,
            is_w,
          )
    | inr there ↦
        let later : lookup id ws ≡ some w = rw there at found in
        elim (Option-cases (lookup id' running)) [
          | inr (rc, runs) ↦
              rw (runs, start_missing) (start_missing-IsNew ws running next id w h later)
          | inl missing ↦
              let new : Running = record { handle = next; group = w' } in
              let (r, is_r, above, group) =
                start_missing-IsNew ws (insert id' new running) (suc next) id w
                  (rw (lookup-insert id id' new running, there) h) later in
              rw (missing, start_missing) (r, is_r, omega (arith, above), group)
        ]
  ]

  apply_wanted-Matches :
      (wanted : List (ℕ × Group)) (m : Manager) (id : ℕ)
      → Matches m id (lookup id wanted) (lookup id (apply_wanted same wanted m).running)
  unfolding apply_wanted IsNew
  apply_wanted-Matches wanted m id =
      let stopped_ = (stop_changed same wanted m.running).0 in
      elim (Option-cases (lookup id stopped_)) [
        | inr (r, runs) ↦
            let v = stop_changed-IsKept same wanted m.running id r runs in
            rw (v.is_wanted, start_missing_keeps same wanted stopped_ m.next_handle id r runs)
              (kept v.ran v.is_same)
        | inl free ↦ elim (Option-cases (lookup id wanted)) [
          | inl unwanted ↦
              rw (unwanted, start_missing-none wanted stopped_ m.next_handle id free unwanted)
                stopped
          | inr (w, found) ↦
              let (r, is_r, above, group) =
                start_missing-IsNew wanted stopped_ m.next_handle id w free found in
              rw (found, is_r) (started above group)
        ]
      ]

  Collected :
      (ℕ → Option (List DataPoint))
      → List Connection
      → List Device
      → Manager
      → Manager × Bool
      → Type 0
  Collected points conns devices m out =
      (wanted : List (ℕ × Group)) × (collect points (by_id [] conns) devices [] ≡ some wanted)
      × (out ≡ (apply_wanted same wanted m, true))

  reload-Collected :
      (devices : List Device) (conns : List Connection) (points : ℕ → Option (List DataPoint))
      (m : Manager)
      → (reload same (some devices) (some conns) points m).1 ≡ true
      → Collected points conns devices m (reload same (some devices) (some conns) points m)
  unfolding reload Collected
  reload-Collected devices conns points m h =
      elim (Option-cases (collect points (by_id [] conns) devices [])) [
        | inl broken ↦ cc (rw (broken, reload) at h)
        | inr (wanted, read) ↦ (wanted, read, rw (read, reload) refl)
      ]

  -- After a reload that could read its tables, what stands in the table for a connection is by what
  -- is wanted for it, an enabled connection with all of its devices in their order: nothing, if there
  -- is no such connection or device; else the poller that ran before for a group that is the same, or
  -- a new one for the wanted group. Every goroutine that was ever started is in the table, once, or
  -- cancelled, and none is both, when it was so before: no poller runs on that is not in the table.
  pub reload-Matches :
      (devices : List Device) (conns : List Connection) (points : ℕ → Option (List DataPoint))
      (m : Manager) (id : ℕ)
      → IsManaged m
      → (reload same (some devices) (some conns) points m).1 ≡ true
      → let after = (reload same (some devices) (some conns) points m).0 in
        Matches m id (wanted_for points conns devices id) (lookup id after.running)
        × IsManaged after
  unfolding Collected
  reload-Matches devices conns points m id v h =
      let (wanted, read, result) = reload-Collected devices conns points m h in
      rw (result, ← collect_lem points conns devices wanted id read)
        (apply_wanted-Matches wanted m id, apply_wanted-IsManaged same wanted m v)

  -- A poller whose connection is wanted with the same group is left alone by a reload that could read
  -- its tables: it is the same goroutine in the table, and it is not cancelled.
  pub reload_undisturbed :
      (devices : List Device) (conns : List Connection) (points : ℕ → Option (List DataPoint))
      (m : Manager) (id : ℕ) (r : Running) (w : Group)
      → IsManaged m
      → (reload same (some devices) (some conns) points m).1 ≡ true
      → lookup id m.running ≡ some r
      → wanted_for points conns devices id ≡ some w
      → same r.group w ≡ true
      → let after = (reload same (some devices) (some conns) points m).0 in
        (lookup id after.running ≡ some r) × (count r.handle after.cancelled ≡ 0)
  unfolding Collected apply_wanted IsManaged
  reload_undisturbed devices conns points m id r w v h runs found good =
      let (wanted, read, result) = reload-Collected devices conns points m h in
      let is_wanted = collect_lem points conns devices wanted id read ∙ found in
      let stays =
        start_missing_keeps same wanted (stop_changed same wanted m.running).0 m.next_handle id r
          (stop_changed_keeps same wanted m.running id r w runs is_wanted good) in
      let once = apply_wanted-IsManaged same wanted m v r.handle in
      let there = count-lookup id r (apply_wanted same wanted m).running stays in
      rw result (stays, ground (arith, once, there))
