-- ===== src/Tests/Adapter.antt =====
-- The MQTT adapter of internal/forwarder and the handlers of cmd/server-demo on concrete messages.
use nx_iio_t_gateway_max_gat.Shared.{
  ℕ, zero, suc, ◌≡◌, ◌≢◌, ◌⊎◌, inl, inr, refl, Bool, true, false, List, [], ◌∷◌, Option, none, some,
  arith, lookup, ◌==◌, if◌then◌else◌, All, In,
}
use nx_iio_t_gateway_max_gat.Queue.Codec.Names.{bytes_of, same_bytes}
use nx_iio_t_gateway_max_gat.Forwarder.Wire.{Message, Ack}
use nx_iio_t_gateway_max_gat.Forwarder.MqttAdapter.{
  MqttAdapter, offer, is_for, SendError, Event, payload, token_done, publish_timer, ack_timer,
  receive, returned, send, check_and_force_reconnect,
}
use nx_iio_t_gateway_max_gat.Forwarder.MqttAdapter.Table.{IsPointing}
use nx_iio_t_gateway_max_gat.Forwarder.MqttAdapter.Sends.{send_acked, send_forgets}
use nx_iio_t_gateway_max_gat.Forwarder.MqttAdapter.Ends.{send_ends}
use nx_iio_t_gateway_max_gat.Forwarder.MqttAdapter.Delivered.{
  Delivery, serve, IsDelivered, send-IsDelivered,
}
use nx_iio_t_gateway_max_gat.Forwarder.MqttAdapter.Watchdog.{lost, tick, watch, watch_spaced}
use nx_iio_t_gateway_max_gat.Server.{Store, is_seen, fresh_of, ingest}
use nx_iio_t_gateway_max_gat.Server.Ingest.{NamesErrors, IsUnchanged, IsTried}
use nx_iio_t_gateway_max_gat.Server.Settings.{
  Settings, SettingsStore, holds, fault_none, fault_drop_ack, fault_error_ack, gateway_name,
}
use nx_iio_t_gateway_max_gat.Server.Process.{handle_mqtt}
use nx_iio_t_gateway_max_gat.Server.Process.Acks.{
  IsStored, IsWorking, stream_of, handle_mqtt_acked, handle_mqtt_refused, handle_mqtt_resent,
}
use nx_iio_t_gateway_max_gat.Tests.Server.{database, delivery}

abbrev with_fault : List ℕ → Settings
with_fault mode = record {
  fault = record { mode = mode; ack_delay_ms = 0 };
  reject_unknown_gateways = false;
  gateways = [];
  datapoints = [];
  mqtt = record { broker_url = []; data_topic = bytes_of "gateway/+/data" };
  influx = record { bucket = bytes_of "readings"; retention_days = 0 };
}

abbrev empty : Store database
empty = record {
  out = some 5;
  seen = [];
  last_seq = [];
  received = [];
  stats = [];
  datapoints = [];
  gaps = [];
}

abbrev working : Settings
working = with_fault fault_none

database_names : NamesErrors database
database_names k cs zero e = cc e
database_names k cs (suc n) e = cc e

abbrev ack : Ack
ack = record { stream_id = bytes_of "s"; to_seq = 9; error = [] }

acked : (handle_mqtt database 100 working (some delivery) empty).1 ≡ some ack
unfolding handle_mqtt ingest is_seen fresh_of same_bytes gateway_name
acked = refl

handle_mqtt_acked_example :
    (ack.to_seq ≡ delivery.to_seq)
    × (ack.stream_id ≡ delivery.stream_id)
    × IsStored database delivery (handle_mqtt database 100 working (some delivery) empty).0
handle_mqtt_acked_example =
    handle_mqtt_acked database 100 working delivery empty ack database_names acked refl

abbrev refusal_ack : Ack
refusal_ack = record ack { error = bytes_of "simulated server error" }

refused :
    (handle_mqtt database 100 (with_fault fault_error_ack) (some delivery) empty).1
    ≡ some refusal_ack
unfolding handle_mqtt same_bytes gateway_name
refused = refl

error_there : refusal_ack.error ≢ []
error_there e = cc e

handle_mqtt_refused_example :
    let after = (handle_mqtt database 100 (with_fault fault_error_ack) (some delivery) empty).0 in
    IsUnchanged database empty after
    × IsTried database
        (stream_of database delivery)
        (fresh_of database (stream_of database delivery) [] delivery.chunks)
        empty.out
        after.out
handle_mqtt_refused_example =
    handle_mqtt_refused database 100 (with_fault fault_error_ack) delivery empty refusal_ack refused
      error_there

abbrev dropping : Settings
dropping = with_fault fault_drop_ack

heard_all : same_bytes dropping.fault.mode (bytes_of "ignore") ≡ false
unfolding same_bytes
heard_all = refl

silent : (handle_mqtt database 100 dropping (some delivery) empty).1 ≡ none
unfolding handle_mqtt ingest is_seen fresh_of same_bytes gateway_name
silent = refl

working-IsWorking : IsWorking database working
unfolding same_bytes
working-IsWorking = record { hears = refl; accepts = refl; answers = refl; open_to_all = refl }

handle_mqtt_resent_example :
    let first = (handle_mqtt database 100 dropping (some delivery) empty).0 in
    let again = handle_mqtt database 200 working (some delivery) first in
    (again.1 ≡ some ack) × IsStored database delivery first × IsUnchanged database first again.0
handle_mqtt_resent_example =
    handle_mqtt_resent database 100 200 dropping working delivery empty heard_all silent
      working-IsWorking

-- An adapter that waits for nothing.
abbrev idle : MqttAdapter
idle = record { pending = []; pending_stream = []; channels = []; disconnected_at = none }

idle-IsPointing : IsPointing idle
idle-IsPointing k ch h = cc h

abbrev always : Message → Bool
always m = true

abbrev good_events : List Event
good_events = payload (some ack) ∷ token_done true ∷ receive ∷ []

sent : (send always true delivery good_events idle).1 ≡ returned none
unfolding send same_bytes offer is_for
sent = refl

send_acked_example :
    (a : Ack) × In (payload (some a)) good_events
    × (a.to_seq ≡ 9)
    × ((a.stream_id ≡ []) ⊎ (a.stream_id ≡ bytes_of "s"))
    × (a.error ≡ [])
send_acked_example = send_acked always true delivery good_events idle idle-IsPointing sent

send_forgets_example :
    let after = (send always true delivery good_events idle).0 in
    IsPointing after
    × ((k : ℕ)
        → (lookup k after.pending ≡ (if k == 9 then none else none))
          × (lookup k after.pending_stream ≡ (if k == 9 then none else none)))
send_forgets_example = send_forgets always delivery good_events idle none refl idle-IsPointing sent

send_ends_example :
    (r : Option SendError) × ((send always true delivery
        (publish_timer ∷ (receive ∷ ack_timer ∷ []))
        idle).1
      ≡ returned r)
send_ends_example = send_ends always true delivery [] (receive ∷ []) [] idle

abbrev deliveries : List Delivery
deliveries = record { now = 100; settings = working; body = some delivery } ∷ []

served : (serve database deliveries empty).1 ≡ some ack ∷ []
unfolding serve
served = cc acked

answered :
    (a : Ack) → In (payload (some a)) good_events → In (some a) (serve database deliveries empty).1
answered a (inl e) = rw served (inl (cc e))
answered a (inr (inl e)) = cc e
answered a (inr (inr (inl e))) = cc e
answered a (inr (inr (inr h))) = elim h [ ]

send-IsDelivered_example :
    (a : Ack) × (a.to_seq ≡ 9)
    × ((a.stream_id ≡ []) ⊎ (a.stream_id ≡ bytes_of "s"))
    × IsDelivered database deliveries a (serve database deliveries empty).0
send-IsDelivered_example =
    send-IsDelivered database always true delivery good_events idle deliveries empty idle-IsPointing
      database_names answered sent

abbrev down : MqttAdapter
down = record idle { disconnected_at = some 100 }

forced : (check_and_force_reconnect 45 200 205 false false down).1 ≡ true
unfolding check_and_force_reconnect
forced = refl

watch_spaced_example :
    All
      (λ f. f ≡ false)
      (watch 45
        (tick 215 215 false false ∷ lost 230 ∷ tick 240 240 false false ∷ [])
        (check_and_force_reconnect 45 200 205 false false down).0).1
watch_spaced_example =
    watch_spaced 45 200 205 false
      (tick 215 215 false false ∷ lost 230 ∷ tick 240 240 false false ∷ []) down (omega arith)
      forced (omega arith, (omega arith, (omega arith, tt)))

abbrev any_host : List ℕ → Bool
any_host t = true

abbrev writes : Settings → Bool
writes s = true

abbrev saved : SettingsStore
saved = record { has_path = true; file = holds working; cur = working }
