-- ===== src/Forwarder/MqttAdapter.antt =====
-- internal/forwarder/mqttadapter.go: the acknowledgements that a Send waits for, and the watchdog of
-- the connection. The MQTT client is a parameter: what it does to a Send is a sequence of events, in
-- any order, and so is what the runtime lets happen between them.
pub mod Table
pub mod Sends
pub mod Ends
pub mod Delivered
pub mod Watchdog
use nx_iio_t_gateway_max_gat.Shared.{
  ℕ, ◌+◌, ◌-◌, ◌*◌, ◌≡◌, Bool, true, false, not, ◌&&◌, ◌||◌, List, [], ◌∷◌, ◌++◌, Option, none,
  some, ltb, ◌==◌, if◌then◌else◌, length, get_elem?, set, lookup, insert, remove, is_neg64,
}
use nx_iio_t_gateway_max_gat.Queue.Codec.Names.{same_bytes}
use nx_iio_t_gateway_max_gat.Forwarder.Backoff.{second}
use nx_iio_t_gateway_max_gat.Forwarder.Wire.{Message, Ack}

-- The durations of the watchdog, int64 bit patterns, and their defaults.
pub record WatchdogConfig : Type 0 where
  pub watchdog_interval : ℕ
  pub reconnect_stuck_after : ℕ

unfoldable pub with_defaults : WatchdogConfig → WatchdogConfig
with_defaults cfg = record {
  watchdog_interval =
      if cfg.watchdog_interval == 0 || is_neg64 cfg.watchdog_interval
      then 15 * second
      else cfg.watchdog_interval;
  reconnect_stuck_after =
      if cfg.reconnect_stuck_after == 0 || is_neg64 cfg.reconnect_stuck_after
      then 45 * second
      else cfg.reconnect_stuck_after;
}

-- The channels, each with room for one acknowledgement, are made one after the other, and a map
-- holds the place of one. The zero time of `disconnectedAt` is `none`.
pub record MqttAdapter : Type 0 where
  pub pending : List (ℕ × ℕ)
  pub pending_stream : List (ℕ × List ℕ)
  pub channels : List (Option Ack)
  pub disconnected_at : Option ℕ

unfoldable pub new_adapter : ℕ → MqttAdapter
new_adapter now = record {
  pending = [];
  pending_stream = [];
  channels = [];
  disconnected_at = some now;
}

abbrev pub text_or_empty : Option (List ℕ) → List ℕ
text_or_empty none = []
text_or_empty (some t) = t

-- The select of `handleAck`: a full channel stays as it is.
unfoldable pub offer : ℕ → Ack → List (Option Ack) → List (Option Ack)
offer ch ack channels = elim (get_elem? channels ch) [
  | some none ↦ set channels ch (some ack)
  | some (some first) ↦ channels
  | none ↦ channels
]

unfoldable pub is_for : Ack → List ℕ → Bool
is_for ack stream = same_bytes ack.stream_id [] || same_bytes ack.stream_id stream

-- The payload is decoded by encoding/json: `none` is no acknowledgement.
unfoldable pub handle_ack : Option Ack → MqttAdapter → MqttAdapter
unfolding offer is_for
handle_ack none a = a
handle_ack (some ack) a = elim (lookup ack.to_seq a.pending) [
  | none ↦ a
  | some ch ↦
      if is_for ack (text_or_empty (lookup ack.to_seq a.pending_stream))
      then record a { channels = offer ch ack a.channels }
      else a
]

-- The errors of Send; `ctx.Err()` is `cancelled`.
pub data SendError : Type 0 where
  not_connected not_encoded publish_failed publish_timed_out cancelled ack_timed_out : SendError
  rejected : List ℕ → SendError

-- Where a Send stands: in `waitToken`, in its select, or at its end.
pub data Phase : Type 0 where
  publishing : Phase
  waiting : Phase
  returned : Option SendError → Phase

-- What happens meanwhile: a payload comes in on the topic of the acknowledgements; the token of the
-- publish completes; the context ends; one of the timers fires; the select takes from the channel.
pub data Event : Type 0 where
  payload : Option Ack → Event
  token_done : Bool → Event
  context_done publish_timer ack_timer receive : Event

module _ (to_seq : ℕ) (stream : List ℕ) where
  pub record Sending : Type 0 where
    pub adapter : MqttAdapter
    pub channel : ℕ
    pub phase : Phase

  unfoldable pub begin_send : MqttAdapter → Sending
  begin_send a = record {
    adapter = record a {
      pending = insert to_seq (length a.channels) a.pending;
      pending_stream = insert to_seq stream a.pending_stream;
      channels = a.channels ++ none ∷ [];
    };
    channel = length a.channels;
    phase = publishing;
  }

  -- The deferred function.
  unfoldable pub end_send : Option SendError → Sending → Sending
  end_send r x = record x {
    adapter = record x.adapter {
      pending = remove to_seq x.adapter.pending;
      pending_stream = remove to_seq x.adapter.pending_stream;
    };
    phase = returned r;
  }

  unfoldable pub on_token : Bool → Sending → Sending
  unfolding end_send
  on_token true x = record x { phase = waiting }
  on_token false x = end_send (some publish_failed) x

  unfoldable pub on_receive : Option (Option Ack) → Sending → Sending
  unfolding end_send
  on_receive (some (some ack)) x =
      if same_bytes ack.error [] then end_send none x else end_send (some (rejected ack.error)) x
  on_receive (some none) x = x
  on_receive none x = x

  -- What does not concern the phase passes by.
  unfoldable pub step : Event → Phase → Sending → Sending
  unfolding handle_ack on_token on_receive end_send
  step (payload p) phase x = record x { adapter = handle_ack p x.adapter }
  step (token_done good) publishing x = on_token good x
  step context_done publishing x = end_send (some cancelled) x
  step publish_timer publishing x = end_send (some publish_timed_out) x
  step receive waiting x = on_receive (get_elem? x.adapter.channels x.channel) x
  step context_done waiting x = end_send (some cancelled) x
  step ack_timer waiting x = end_send (some ack_timed_out) x
  step event phase x = x

  unfoldable pub steps : List Event → Sending → Sending
  unfolding step
  steps [] x = x
  steps (e ∷ es) x = steps es (step e x.phase x)

-- `connected` is the client's IsConnectionOpen, `encodes` whether json.Marshal takes the message.
module _ (encodes : Message → Bool) where
  unfoldable pub send : Bool → Message → List Event → MqttAdapter → MqttAdapter × Phase
  unfolding steps begin_send
  send connected m es a =
      if not connected
      then (a, returned (some not_connected))
      else if not (encodes m)
      then (a, returned (some not_encoded))
      else let x = steps m.to_seq m.stream_id es (begin_send m.to_seq m.stream_id a) in
        (x.adapter, x.phase)

unfoldable pub on_connect : MqttAdapter → MqttAdapter
on_connect a = record a { disconnected_at = none }

unfoldable pub on_connection_lost : ℕ → MqttAdapter → MqttAdapter
on_connection_lost now a = record a { disconnected_at = some now }

-- Whether the watchdog asks the client to connect.
unfoldable pub is_stuck : ℕ → ℕ → Bool → Option ℕ → Bool
is_stuck after now is_open none = false
is_stuck after now true (some since) = false
is_stuck after now false (some since) = not (ltb (now - since) after)

-- `now` is the time of the check, `later` the one behind the attempt to connect; `is_open` and
-- `reopened` are what the client answers at the two times. The attempt's error is only logged.
unfoldable pub check_and_force_reconnect :
    ℕ → ℕ → ℕ → Bool → Bool → MqttAdapter → MqttAdapter × Bool
unfolding is_stuck
check_and_force_reconnect after now later is_open reopened a =
    if is_stuck after now is_open a.disconnected_at
    then (if reopened then (a, true) else (record a { disconnected_at = some later }, true))
    else (a, false)
