-- ===== src/Forwarder/MqttAdapter/Delivered.antt =====
-- The gateway's Send (internal/forwarder/mqttadapter.go) against the demo server's handler
-- (cmd/server-demo/server.go): the broker between them may lose, delay and repeat what it carries.
use nx_iio_t_gateway_max_gat.Shared.{
  ℕ, ◌≡◌, ◌⊎◌, refl, sym, inl, inr, Bool, true, List, [], ◌∷◌, Option, none, some, All-map, In,
}
use nx_iio_t_gateway_max_gat.Forwarder.Wire.{Message, Ack}
use nx_iio_t_gateway_max_gat.Forwarder.MqttAdapter.{MqttAdapter, Event, payload, returned, send}
use nx_iio_t_gateway_max_gat.Forwarder.MqttAdapter.Table.{IsPointing}
use nx_iio_t_gateway_max_gat.Forwarder.MqttAdapter.Sends.{send_acked}
use nx_iio_t_gateway_max_gat.Server.{ChunkKey, is_seen, Writer, Store}
use nx_iio_t_gateway_max_gat.Server.Ingest.{NamesErrors}
use nx_iio_t_gateway_max_gat.Server.Settings.{Settings}
use nx_iio_t_gateway_max_gat.Server.Process.{handle_mqtt}
use nx_iio_t_gateway_max_gat.Server.Process.Acks.{IsStored, handle_mqtt_acked, handle_mqtt_older}

-- What the server is given: at a time, with the settings of that moment, a payload.
pub record Delivery : Type 0 where
  pub now : ℕ
  pub settings : Settings
  pub body : Option Message

module _ (wr : Writer) where
  -- The messages that the server handles, one after the other, and its answers.
  unfoldable pub serve : List Delivery → Store wr → Store wr × List (Option Ack)
  unfolding handle_mqtt
  serve [] s = (s, [])
  serve (d ∷ ds) s =
      let done = handle_mqtt wr d.now d.settings d.body s in
      let rest = serve ds done.0 in (rest.0, done.1 ∷ rest.1)

  serve_older :
      (ds : List Delivery) (s : Store wr) (x : ChunkKey)
      → is_seen x s.seen ≡ true
      → is_seen x (serve ds s).0.seen ≡ true
  unfolding serve
  serve_older [] s x h = h
  serve_older (d ∷ ds) s x h =
      serve_older ds _ x (handle_mqtt_older wr d.now d.settings d.body s x h)

  -- A message of those that were delivered, which an acknowledgement names, and which is stored.
  pub record IsDelivered (ds : List Delivery) (ack : Ack) (s : Store wr) : Type 0 where
    pub delivery : Delivery
    pub message : Message
    pub given : In delivery ds
    pub is_body : delivery.body ≡ some message
    pub same_seq : ack.to_seq ≡ message.to_seq
    pub same_stream : ack.stream_id ≡ message.stream_id
    pub stored : IsStored wr message s

  acked_now :
      (d : Delivery) (body : Option Message) (ds : List Delivery) (s : Store wr) (ack : Ack)
      → NamesErrors wr
      → d.body ≡ body
      → some ack ≡ (handle_mqtt wr d.now d.settings body s).1
      → ack.error ≡ []
      → IsDelivered (d ∷ ds) ack (serve ds (handle_mqtt wr d.now d.settings body s).0).0
  unfolding handle_mqtt
  acked_now d none ds s ack names e h clean = cc h
  acked_now d (some m) ds s ack names e h clean =
      let (seq, stream, stored) =
        handle_mqtt_acked wr d.now d.settings m s ack names (sym h) clean in
      record {
        delivery = d;
        message = m;
        given = inl refl;
        is_body = e;
        same_seq = seq;
        same_stream = stream;
        stored = All-map m.chunks (λ c. serve_older ds _ _) stored;
      }

  later :
      {d : Delivery} {ds : List Delivery} {ack : Ack} {s : Store wr}
      → IsDelivered ds ack s
      → IsDelivered (d ∷ ds) ack s
  later v = record {
    delivery = v.delivery;
    message = v.message;
    given = inr v.given;
    is_body = v.is_body;
    same_seq = v.same_seq;
    same_stream = v.same_stream;
    stored = v.stored;
  }

  served-IsDelivered :
      (ds : List Delivery) (s : Store wr) (ack : Ack)
      → NamesErrors wr
      → In (some ack) (serve ds s).1
      → ack.error ≡ []
      → IsDelivered ds ack (serve ds s).0
  unfolding serve
  served-IsDelivered [] s ack names i clean = absurd i
  served-IsDelivered (d ∷ ds) s ack names (inl now) clean =
      acked_now d d.body ds s ack names refl now clean
  served-IsDelivered (d ∷ ds) s ack names (inr i) clean =
      later (served-IsDelivered ds _ ack names i clean)

  -- When a Send reports success, and every acknowledgement that came in was an answer of the server
  -- to something that it was given, then a message with the same last seq, of the same stream or of
  -- none, has been given to the server, and the server's store knows all of its chunks. It holds
  -- whatever faults the server simulates, and whatever the broker loses, delays or repeats.
  pub send-IsDelivered :
      (encodes : Message → Bool) (connected : Bool) (m : Message) (es : List Event)
      (a : MqttAdapter) (ds : List Delivery) (s : Store wr)
      → IsPointing a
      → NamesErrors wr
      → ((ack : Ack) → In (payload (some ack)) es → In (some ack) (serve ds s).1)
      → (send encodes connected m es a).1 ≡ returned none
      → (ack : Ack) × (ack.to_seq ≡ m.to_seq)
        × ((ack.stream_id ≡ []) ⊎ (ack.stream_id ≡ m.stream_id))
        × IsDelivered ds ack (serve ds s).0
  send-IsDelivered encodes connected m es a ds s pointing names answers h =
      let (ack, heard, seq, stream, clean) = send_acked encodes connected m es a pointing h in
      (ack, seq, stream, served-IsDelivered ds s ack names (answers ack heard) clean)
