-- ===== src/Network.antt =====
-- internal/netconfig/service.go: a network change that is rolled back unless it is confirmed. The
-- controller (NetworkManager) is a parameter. A timer whose callback has begun can no longer be
-- stopped, and the callback takes the lock only at its end: `begin_revert` and `revert` are its two
-- steps, between which other calls may come.
pub mod Reverts
pub mod Life
pub mod Nmcli
use nx_iio_t_gateway_max_gat.Shared.{
  ℕ, suc, ◌+◌, ◌≡◌, Bool, true, false, List, [], ◌∷◌, ◌++◌, Option, none, some, ◌==◌, if◌then◌else◌,
}

-- Addresses and names are texts, given by their bytes; `is_manual` is Method == "manual".
pub record StaticConfig : Type 0 where
  pub interface : List ℕ
  pub address : List ℕ
  pub prefix : ℕ
  pub gateway : List ℕ
  pub dns : List (List ℕ)

pub record Info : Type 0 where
  pub is_manual : Bool
  pub addresses : StaticConfig
  pub open addresses use *

-- `false` is an error.
pub record Controller : Type 1 where
  pub C : Type 0
  pub current : C → Option Info
  pub apply_static : StaticConfig → C → C × Bool
  pub apply_dhcp : List ℕ → C → C × Bool

-- A timer that runs, with what it will go back to.
pub record Timer : Type 0 where
  pub id : ℕ
  pub target : Info

abbrev pub stop_timer : ℕ → List Timer → List Timer
stop_timer n [] = []
stop_timer n (t ∷ ts) = if t.id == n then stop_timer n ts else t ∷ stop_timer n ts

module _ (ct : Controller) where
  -- `timer` is the field of the service; `running` are the timers that the runtime has not fired.
  pub record Service : Type 0 where
    pub network : ct.C
    pub previous : Option Info
    pub timer : Option ℕ
    pub running : List Timer
    pub next_id : ℕ

  stop_armed : Service → List Timer
  stop_armed s = elim s.timer [ none ↦ s.running | some n ↦ stop_timer n s.running ]

  arm : Info → Service → Service
  unfolding stop_armed
  arm prev s = record s {
    previous = some prev;
    timer = some s.next_id;
    running = stop_armed s ++ record { id = s.next_id; target = prev } ∷ [];
    next_id = suc s.next_id;
  }

  unfoldable pub apply_and_arm : (ct.C → ct.C × Bool) → Service → Service × Bool
  unfolding arm
  apply_and_arm change s = elim (ct.current s.network) [
    | none ↦ (s, false)
    | some prev ↦
        let changed = change s.network in
        elim changed.1 [
          | false ↦ (record s { network = changed.0 }, false)
          | true ↦ (arm prev (record s { network = changed.0 }), true)
        ]
  ]

  unfoldable pub apply : StaticConfig → Service → Service × Bool
  unfolding apply_and_arm
  apply cfg s = apply_and_arm (ct.apply_static cfg) s

  unfoldable pub apply_dhcp_service : List ℕ → Service → Service × Bool
  unfolding apply_and_arm
  apply_dhcp_service iface s = apply_and_arm (ct.apply_dhcp iface) s

  -- The runtime fires a timer: its callback begins.
  unfoldable pub begin_revert : Timer → Service → Service
  begin_revert t s = record s { running = stop_timer t.id s.running }

  go_back : Info → ct.C → ct.C
  go_back prev network = elim prev.is_manual [
    | true ↦ (ct.apply_static prev.addresses network).0
    | false ↦ (ct.apply_dhcp prev.interface network).0
  ]

  -- The callback, from the change of the network to its end.
  unfoldable pub revert : Info → Service → Service
  unfolding go_back
  revert prev s = record s { network = go_back prev s.network; previous = none; timer = none }

  unfoldable pub confirm : Service → Service × Bool
  confirm s = elim s.timer [
    | none ↦ (s, false)
    | some n ↦ (record s { timer = none; previous = none; running = stop_timer n s.running }, true)
  ]

  unfoldable pub pending : Service → Bool
  pending s = elim s.timer [ none ↦ false | some n ↦ true ]
