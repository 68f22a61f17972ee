-- ===== src/Forwarder/Sender/Recorded.antt =====
-- The adapter of internal/forwarder/forwarder.go, any that there is, with a record beside it of the
-- chunks of the messages whose Send has returned no error. The record changes nothing of what the
-- loop does.
use nx_iio_t_gateway_max_gat.Shared.{
  ℕ, ◌≡◌, refl, inl, inr, List, [], ◌∷◌, ◌++◌, Option, none, some, Option-cases, All, All-map, In,
  In-append_left, In-append_right,
}
use nx_iio_t_gateway_max_gat.Forwarder.Wire.{WireChunk, Message, build_message}
use nx_iio_t_gateway_max_gat.Forwarder.Sender.{
  Source, Adapter, Config, Forwarder, transmit, dispatch_once, after_dispatch, run,
}
use nx_iio_t_gateway_max_gat.Forwarder.Sender.Delivery.{IsTransport}

abbrev pub noted_after {ℓ} : {E : Type ℓ} → Option E → Message → List WireChunk → List WireChunk
noted_after none m ws = ws ++ m.chunks
noted_after (some e) m ws = ws

abbrev pub recorded : Adapter → Adapter
recorded ad = record {
  A = ad.A × List WireChunk;
  Error = ad.Error;
  send = λ m a. (((ad.send m a.0).0, noted_after (ad.send m a.0).1 m a.1), (ad.send m a.0).1);
}

abbrev pub accepted : (ad : Adapter) → ad.A × List WireChunk → List WireChunk
accepted ad a = a.1

All-In : (ws : List WireChunk) → All (λ w. In w ws) ws
All-In [] = tt
All-In (w ∷ ws) = (inl refl, All-map ws (λ x h. inr h) (All-In ws))

pub recorded-IsTransport : (ad : Adapter) → IsTransport (recorded ad) (accepted ad)
recorded-IsTransport ad = record {
  send_keeps = λ m a w h. elim (Option-cases (ad.send m a.0).1) [
    | inl good ↦ rw good (In-append_left w a.1 m.chunks h)
    | inr (e, bad) ↦ rw bad h
  ];
  send_arrives =
      λ m a e. rw e (All-map m.chunks (λ w h. In-append_right w a.1 m.chunks h) (All-In m.chunks));
}

module _ (src : Source) (ad : Adapter) (format : ℕ → List ℕ) where
  -- The loop without the record.
  abbrev pub erase : Forwarder src (recorded ad) format → Forwarder src ad format
  erase f = record { source = f.source; adapter = f.adapter.0; status = f.status }

  transmit-recorded :
      (now : ℕ) (msg : Message) (f : Forwarder src (recorded ad) format)
      → (erase (transmit src (recorded ad) format now msg f).0
          ≡ (transmit src ad format now msg (erase f)).0)
        × ((transmit src (recorded ad) format now msg f).1
            ≡ (transmit src ad format now msg (erase f)).1)
  unfolding transmit
  transmit-recorded now msg f = elim (Option-cases (ad.send msg f.adapter.0).1) [
    | inl good ↦ rw (good, transmit) (refl, refl)
    | inr (e, bad) ↦ rw (bad, transmit) (refl, refl)
  ]

  dispatch_once-recorded :
      (cfg : Config) (now : ℕ) (f : Forwarder src (recorded ad) format)
      → (erase (dispatch_once src (recorded ad) format cfg now f).0
          ≡ (dispatch_once src ad format cfg now (erase f)).0)
        × ((dispatch_once src (recorded ad) format cfg now f).1
            ≡ (dispatch_once src ad format cfg now (erase f)).1)
  unfolding dispatch_once
  dispatch_once-recorded cfg now f =
      let batch = src.read_batch cfg.max_readings f.source in
      elim (Option-cases batch.1) [
        | inl broken ↦ rw (broken, dispatch_once) (refl, refl)
        | inr ([], empty) ↦ rw (empty, dispatch_once) (refl, refl)
        | inr (c ∷ cs, taken) ↦
            rw (taken, dispatch_once)
              (transmit-recorded now (build_message format cfg.gateway_id src.stream_id c cs)
                (record f { source = batch.0 }))
      ]

  -- The loop with the record does what it does without it.
  pub run-recorded :
      (cfg : Config) (nows : List ℕ) (failures : ℕ) (f : Forwarder src (recorded ad) format)
      → erase (run src (recorded ad) format cfg nows failures f).0
        ≡ (run src ad format cfg nows failures (erase f)).0
  unfolding run after_dispatch
  run-recorded cfg [] failures f = refl
  run-recorded cfg (now ∷ nows) failures f =
      let (same, result) = dispatch_once-recorded cfg now f in
      rw (← same, ← result) (run-recorded cfg nows _ _)
