-- ===== src/Acquisition/Manager.antt =====
-- internal/acquisition/manager.go: the pollers that run, one for each connection that has devices,
-- and `Reload`. reflect.DeepEqual and the repositories are parameters. A goroutine is named by a
-- number, in the order in which they are started; Go goes through a map in any order, here it is one.
pub mod Wanted
pub mod Goroutines
pub mod Kept
pub mod Reloaded
use nx_iio_t_gateway_max_gat.Shared.{
  ℕ, suc, ◌≡◌, Bool, true, false, List, [], ◌∷◌, ◌++◌, Option, none, some, if◌then◌else◌, lookup,
  insert,
}
use nx_iio_t_gateway_max_gat.Acquisition.Types.{DataPoint, Device, DeviceWithPoints, Connection}

-- A connection with its devices.
pub record Group : Type 0 where
  pub conn : Connection
  pub devices : List DeviceWithPoints

pub record Running : Type 0 where
  pub handle : ℕ
  pub group : Group

-- `cancelled` are the goroutines whose context was cancelled.
pub record Manager : Type 0 where
  pub running : List (ℕ × Running)
  pub next_handle : ℕ
  pub cancelled : List ℕ

abbrev pub by_id : List (ℕ × Connection) → List Connection → List (ℕ × Connection)
by_id m [] = m
by_id m (c ∷ cs) = by_id (insert c.id c m) cs

-- `wanted[conn.ID]` with one more device.
unfoldable pub add_device : Connection → DeviceWithPoints → List (ℕ × Group) → List (ℕ × Group)
add_device c d wanted = elim (lookup c.id wanted) [
  | none ↦ insert c.id (record { conn = c; devices = d ∷ [] }) wanted
  | some g ↦ insert c.id (record g { devices = g.devices ++ d ∷ [] }) wanted
]

-- The loop over the devices; `points` is ListEnabledByDevice, with `none` for an error.
unfoldable pub collect :
    (ℕ → Option (List DataPoint))
    → List (ℕ × Connection)
    → List Device
    → List (ℕ × Group)
    → Option (List (ℕ × Group))
unfolding add_device
collect points conns [] wanted = some wanted
collect points conns (d ∷ ds) wanted = elim (lookup d.connection_id conns) [
  | none ↦ collect points conns ds wanted
  | some c ↦ elim (points d.id) [
    | none ↦ none
    | some dps ↦ collect points conns ds (add_device c (record { device = d; dps = dps }) wanted)
  ]
]

module _ (same : Group → Group → Bool) where
  -- The first loop under the lock: what runs on, and what is cancelled.
  unfoldable pub stop_changed : List (ℕ × Group) → List (ℕ × Running) → List (ℕ × Running) × List ℕ
  stop_changed wanted [] = ([], [])
  stop_changed wanted ((id, rc) ∷ rs) =
      let rest = stop_changed wanted rs in
      elim (lookup id wanted) [
        | none ↦ (rest.0, rc.handle ∷ rest.1)
        | some w ↦
            if same rc.group w then ((id, rc) ∷ rest.0, rest.1) else (rest.0, rc.handle ∷ rest.1)
      ]

  -- The second loop.
  unfoldable pub start_missing : List (ℕ × Group) → List (ℕ × Running) → ℕ → List (ℕ × Running) × ℕ
  start_missing [] running next = (running, next)
  start_missing ((id, w) ∷ ws) running next = elim (lookup id running) [
    | some rc ↦ start_missing ws running next
    | none ↦ start_missing ws (insert id (record { handle = next; group = w }) running) (suc next)
  ]

  unfoldable pub apply_wanted : List (ℕ × Group) → Manager → Manager
  unfolding stop_changed start_missing
  apply_wanted wanted m =
      let stopped = stop_changed wanted m.running in
      let started = start_missing wanted stopped.0 m.next_handle in
      record { running = started.0; next_handle = started.1; cancelled = m.cancelled ++ stopped.1 }

  -- The devices and connections are the answers of ListEnabled; `none` is an error.
  unfoldable pub reload :
      Option (List Device)
      → Option (List Connection)
      → (ℕ → Option (List DataPoint))
      → Manager
      → Manager × Bool
  unfolding collect apply_wanted
  reload none conns points m = (m, false)
  reload (some devices) none points m = (m, false)
  reload (some devices) (some conns) points m = elim (collect points (by_id [] conns) devices []) [
    | none ↦ (m, false)
    | some wanted ↦ (apply_wanted wanted m, true)
  ]
