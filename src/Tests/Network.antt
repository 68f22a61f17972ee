-- ===== src/Tests/Network.antt =====
-- internal/netconfig and internal/time on concrete networks and rounds.
use nx_iio_t_gateway_max_gat.Shared.{ℕ, suc, ◌≡◌, refl, Bool, true, false, [], ◌∷◌, none, some}
use nx_iio_t_gateway_max_gat.Network.{
  StaticConfig, Info, Controller, Timer, Service, apply_and_arm, begin_revert, revert, confirm,
  pending,
}
use nx_iio_t_gateway_max_gat.Network.Reverts.{confirm_too_late, apply_unconfirmable}
use nx_iio_t_gateway_max_gat.Time.{TimeConfig, Round}
use nx_iio_t_gateway_max_gat.Queue.Codec.Names.{bytes_of}
use nx_iio_t_gateway_max_gat.Network.Life
use nx_iio_t_gateway_max_gat.Network.Life.{confirmed}
use nx_iio_t_gateway_max_gat.Network.Nmcli.{NetworkManager, nmcli}
use nx_iio_t_gateway_max_gat.Network.Nmcli.Rollback.{revert_refused}

abbrev office : StaticConfig
office = record { interface = 101 ∷ []; address = 10 ∷ []; prefix = 24; gateway = 1 ∷ []; dns = [] }

abbrev home : StaticConfig
home = record { interface = 101 ∷ []; address = 20 ∷ []; prefix = 24; gateway = 2 ∷ []; dns = [] }

-- A controller that does what it is told, on one interface.
abbrev obedient : Controller
obedient = record {
  C = Info;
  current = some;
  apply_static = λ cfg _. (record { is_manual = true; addresses = cfg }, true);
  apply_dhcp = λ _ now. (record now { is_manual = false }, true);
}

abbrev at_office : Info
at_office = record { is_manual = true; addresses = office }

abbrev old_timer : Timer
old_timer = record { id = 3; target = at_office }

abbrev changed : Service obedient
changed = record {
  network = record { is_manual = true; addresses = home };
  previous = some at_office;
  timer = some 3;
  running = old_timer ∷ [];
  next_id = 4;
}

abbrev automatic : Info → Info × Bool
automatic now = obedient.apply_dhcp (101 ∷ []) now

confirm_too_late_example :
    let confirmed = confirm obedient (begin_revert obedient old_timer changed) in
    (confirmed.1 ≡ true)
    × ((revert obedient at_office confirmed.0).network
        ≡ (revert obedient at_office changed).network)
confirm_too_late_example = confirm_too_late obedient old_timer changed refl

change_applies :
    (apply_and_arm obedient automatic (begin_revert obedient old_timer changed)).1 ≡ true
unfolding apply_and_arm begin_revert
change_applies = refl

apply_unconfirmable_example :
    let after =
      revert obedient at_office
        (apply_and_arm obedient automatic (begin_revert obedient old_timer changed)).0 in
    ((confirm obedient after).1 ≡ false)
    × (pending obedient after ≡ false)
    × ((prev : Info) × (after.running ≡ record { id = 4; target = prev } ∷ []))
apply_unconfirmable_example =
    apply_unconfirmable obedient automatic old_timer changed refl change_applies

abbrev with_server : TimeConfig
with_server = record { has_server = true; sync_interval = 5; query_timeout = 3 }

abbrev lost_round : Round
lost_round = record { rtc_read = some 1700000000; offset = none; now = 1700000001; year = 2023 }

-- A host whose interface eth0 has the profile lan; the state counts the commands.
abbrev host : NetworkManager
host = record {
  N = ℕ;
  available = true;
  query = λ args n. some (bytes_of "GENERAL.CONNECTION:lan");
  command = λ args n. (suc n, true);
}

abbrev isolated : Info
isolated = record { is_manual = true; addresses = record office { gateway = [] } }

abbrev moved : Service (nmcli host)
moved = record { network = 2; previous = some isolated; timer = some 3; running = []; next_id = 4 }

revert_refused_example :
    ((revert (nmcli host) isolated moved).network ≡ 2)
    × ((revert (nmcli host) isolated moved).timer ≡ none)
revert_refused_example = revert_refused host isolated moved refl refl
