-- ===== src/Forwarder/Sender.antt =====
-- internal/forwarder/forwarder.go and status.go: the loop that reads the queue, sends a message,
-- and acknowledges it. The queue and the adapter are the interfaces of the code.
pub mod Delivery
pub mod Recorded
pub mod Waits
use nx_iio_t_gateway_max_gat.Shared.{
  ℕ, zero, suc, ◌+◌, ◌*◌, ◌≡◌, Bool, true, false, ◌||◌, List, [], ◌∷◌, Option, none, some, ◌==◌,
  if◌then◌else◌, is_neg64,
}
use nx_iio_t_gateway_max_gat.Queue.Types.{Chunk}
use nx_iio_t_gateway_max_gat.Forwarder.Backoff.{backoff_duration, second}
use nx_iio_t_gateway_max_gat.Forwarder.Wire.{Message, build_message}

-- Source: `none` and `false` are errors.
pub record Source : Type 1 where
  pub S : Type 0
  pub stream_id : List ℕ
  pub read_batch : ℕ → S → S × Option (List Chunk)
  pub ack : ℕ → S → S × Bool

-- Adapter: `send` returns the error, or `none` for an acknowledged message.
pub record Adapter : Type 1 where
  pub A : Type 0
  pub Error : Type 0
  pub send : Message → A → A × Option Error

pub record Config : Type 0 where
  pub gateway_id : List ℕ
  pub max_readings : ℕ
  pub poll_interval : ℕ

-- New, with its defaults; both numbers are int64 bit patterns.
unfoldable pub new_config : Config → Config
new_config cfg = record cfg {
  max_readings =
      if cfg.max_readings == 0 || is_neg64 cfg.max_readings then 2000 else cfg.max_readings;
  poll_interval =
      if cfg.poll_interval == 0 || is_neg64 cfg.poll_interval then second else cfg.poll_interval;
}

-- `last_error` is `none` for the empty text.
pub record Status (Error : Type 0) : Type 0 where
  pub connected : Bool
  pub last_error : Option Error
  pub last_success_at : Option ℕ
  pub last_attempt_at : Option ℕ

unfoldable pub record_success : {Error : Type 0} → ℕ → Status Error → Status Error
record_success now st = record {
  connected = true;
  last_error = none;
  last_success_at = some now;
  last_attempt_at = some now;
}

unfoldable pub record_failure : {Error : Type 0} → ℕ → Error → Status Error → Status Error
record_failure now e st = record st {
  connected = false;
  last_error = some e;
  last_attempt_at = some now;
}

-- What dispatchOnce returns: (true, nil), (false, nil) or an error.
pub data Dispatched : Type 0 where
  sent idle error : Dispatched

module _ (src : Source) (ad : Adapter) (format : ℕ → List ℕ) where
  pub record Forwarder : Type 0 where
    pub source : src.S
    pub adapter : ad.A
    pub status : Status ad.Error

  acknowledge : ℕ → Forwarder → Forwarder × Dispatched
  acknowledge to_seq f =
      let acked = src.ack to_seq f.source in
      (record f { source = acked.0 }, elim acked.1 [ true ↦ sent | false ↦ error ])

  transmit : ℕ → Message → Forwarder → Forwarder × Dispatched
  unfolding acknowledge record_success record_failure
  transmit now msg f =
      let answered = ad.send msg f.adapter in
      elim answered.1 [
        | some e ↦
            (record f { adapter = answered.0; status = record_failure now e f.status }, error)
        | none ↦
            acknowledge msg.to_seq
              (record f { adapter = answered.0; status = record_success now f.status })
      ]

  -- `now` is the time at the end of the send.
  unfoldable pub dispatch_once : Config → ℕ → Forwarder → Forwarder × Dispatched
  unfolding transmit
  dispatch_once cfg now f =
      let batch = src.read_batch cfg.max_readings f.source in
      elim batch.1 [
        | none ↦ (record f { source = batch.0 }, error)
        | some [] ↦ (record f { source = batch.0 }, idle)
        | some (c ∷ cs) ↦
            transmit now (build_message format cfg.gateway_id src.stream_id c cs)
              (record f { source = batch.0 })
      ]

  -- The switch of `Run`: the failures in a row, and the wait.
  unfoldable pub after_dispatch : Config → ℕ → Dispatched → ℕ × ℕ
  after_dispatch cfg failures error = (suc failures, backoff_duration (suc failures))
  after_dispatch cfg failures sent = (0, 0)
  after_dispatch cfg failures idle = (0, cfg.poll_interval)

  -- The rounds of `Run` until the context ends, one for each time, with the waits between them.
  unfoldable pub run : Config → List ℕ → ℕ → Forwarder → Forwarder × List ℕ
  unfolding dispatch_once after_dispatch
  run cfg [] failures f = (f, [])
  run cfg (now ∷ nows) failures f =
      let step = dispatch_once cfg now f in
      let next = after_dispatch cfg failures step.1 in
      let rest = run cfg nows next.0 step.0 in (rest.0, next.1 ∷ rest.1)
