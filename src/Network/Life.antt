-- ===== src/Network/Life.antt =====
-- The life of the service of internal/netconfig/service.go while no call comes between the beginning
-- of a rollback and its end.
use nx_iio_t_gateway_max_gat.Shared.{◌≡◌, Bool, [], ◌∷◌, Option, none}
use nx_iio_t_gateway_max_gat.Network.{
  Controller, Timer, Service, apply_and_arm, begin_revert, revert, confirm,
}
use nx_iio_t_gateway_max_gat.Network.Reverts.{before_change}

module _ (ct : Controller) where
  -- The second index remembers the network as it was before the change that waits.
  pub data Step : Service ct → Option ct.C → Service ct → Option ct.C → Type 0 where
    changed :
        (s : Service ct) (before : Option ct.C) (change : ct.C → ct.C × Bool)
        → Step s before
            (apply_and_arm ct change s).0
            (before_change ct (apply_and_arm ct change s).1 s.network before)
    confirmed : (s : Service ct) (before : Option ct.C) → Step s before (confirm ct s).0 none
    timed_out :
        (s : Service ct) (before : Option ct.C) (t : Timer)
        → s.running ≡ t ∷ []
        → Step s before (revert ct t.target (begin_revert ct t s)) none

  pub data Reach (s : Service ct) (b : Option ct.C) : Service ct → Option ct.C → Type 0 where
    here : Reach s b s b
    next : {t u : Service ct} {c d : Option ct.C} → Reach s b t c → Step t c u d → Reach s b u d
