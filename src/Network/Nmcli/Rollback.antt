-- ===== src/Network/Nmcli/Rollback.antt =====
-- Rollbacks of internal/netconfig/service.go by the controller of internal/netconfig/netconfig.go.
use nx_iio_t_gateway_max_gat.Shared.{
  ◌≡◌, refl, ap, inl, inr, true, false, [], none, arith, Bool-cases,
}
use nx_iio_t_gateway_max_gat.Queue.Codec.Names.{same_bytes}
use nx_iio_t_gateway_max_gat.Network.{StaticConfig, Info, Service, go_back, revert}
use nx_iio_t_gateway_max_gat.Network.Nmcli.{NetworkManager, is_valid, apply_static, nmcli}

no_gateway : (cfg : StaticConfig) → cfg.gateway ≡ [] → is_valid cfg ≡ false
unfolding is_valid same_bytes
no_gateway cfg h = rw h (ground arith)

refused :
    (nm : NetworkManager) (cfg : StaticConfig) (n : nm.N)
    → is_valid cfg ≡ false
    → apply_static nm cfg n ≡ (n, false)
unfolding apply_static
refused nm cfg n h = elim (Bool-cases nm.available) [
  | inl there ↦ rw (there, h, apply_static) refl
  | inr missing ↦ rw (missing, apply_static) refl
]

-- Where the network had a fixed address and no gateway before a change, the rollback of the change
-- does nothing: the network stays as the change left it, and no change waits any more.
pub revert_refused :
    (nm : NetworkManager) (prev : Info) (s : Service (nmcli nm))
    → prev.is_manual ≡ true
    → prev.gateway ≡ []
    → let after = revert (nmcli nm) prev s in (after.network ≡ s.network) × (after.timer ≡ none)
unfolding revert go_back
revert_refused nm prev s manual h =
    rw (manual, go_back)
      (ap (λ r. r.0) (refused nm prev.addresses s.network (no_gateway prev.addresses h)), refl)
