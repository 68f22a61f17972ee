-- ===== src/Forwarder/Sender/Waits.antt =====
-- The waits of the loop in internal/forwarder/forwarder.go while the server cannot be reached.
use nx_iio_t_gateway_max_gat.Shared.{
  ℕ, suc, ◌≡◌, ◌≢◌, refl, inl, inr, List, [], ◌∷◌, none, some, Option-cases,
}
use nx_iio_t_gateway_max_gat.Forwarder.Backoff.{schedule, backoff_duration-schedule}
use nx_iio_t_gateway_max_gat.Forwarder.Wire.{Message, build_message}
use nx_iio_t_gateway_max_gat.Forwarder.Sender.{
  Source, Adapter, Config, error, Forwarder, transmit, dispatch_once, run,
}

-- The waits from the n-th failure on.
abbrev pub schedule_from : ℕ → List ℕ → List ℕ
schedule_from n [] = []
schedule_from n (now ∷ nows) = schedule n ∷ schedule_from (suc n) nows

module _ (src : Source) (ad : Adapter) (format : ℕ → List ℕ) where
  transmit_fails :
      (now : ℕ) (msg : Message) (f : Forwarder src ad format)
      → ((a : ad.A) → (ad.send msg a).1 ≢ none)
      → (transmit src ad format now msg f).1 ≡ error
  unfolding transmit
  transmit_fails now msg f down = elim (Option-cases (ad.send msg f.adapter).1) [
    | inl up ↦ absurd (down f.adapter up)
    | inr (e, broken) ↦ rw (broken, transmit) refl
  ]

  dispatch_once_fails :
      (cfg : Config) (now : ℕ) (f : Forwarder src ad format)
      → ((m : Message) (a : ad.A) → (ad.send m a).1 ≢ none)
      → ((n : ℕ) (s : src.S) → (src.read_batch n s).1 ≢ some [])
      → (dispatch_once src ad format cfg now f).1 ≡ error
  unfolding dispatch_once
  dispatch_once_fails cfg now f down busy =
      elim (Option-cases (src.read_batch cfg.max_readings f.source).1) [
        | inl broken ↦ rw (broken, dispatch_once) refl
        | inr ([], empty) ↦ absurd (busy cfg.max_readings f.source empty)
        | inr (c ∷ cs, batch) ↦
            rw (batch, dispatch_once)
              (transmit_fails now (build_message format cfg.gateway_id src.stream_id c cs)
                (record f { source = (src.read_batch cfg.max_readings f.source).0 })
                (down (build_message format cfg.gateway_id src.stream_id c cs)))
      ]

  -- While a backlog waits and no message is acknowledged, the waits follow the schedule from the
  -- number of failures so far on, however long that lasts.
  pub run_waits :
      (cfg : Config) (nows : List ℕ) (failures : ℕ) (f : Forwarder src ad format)
      → ((m : Message) (a : ad.A) → (ad.send m a).1 ≢ none)
      → ((n : ℕ) (s : src.S) → (src.read_batch n s).1 ≢ some [])
      → (run src ad format cfg nows failures f).1 ≡ schedule_from failures nows
  unfolding run
  run_waits cfg [] failures f down busy = refl
  run_waits cfg (now ∷ nows) failures f down busy =
      rw
        (
          dispatch_once_fails cfg now f down busy,
          backoff_duration-schedule failures,
          run_waits cfg nows (suc failures) (dispatch_once src ad format cfg now f).0 down busy,
        )
        refl
