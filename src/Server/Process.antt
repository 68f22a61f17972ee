-- ===== src/Server/Process.antt =====
-- `process`, `handleMQTT` and `handleIngest` of cmd/server-demo/server.go: the registry of gateways,
-- the simulated faults and the answer to the sender. The wait before the answer takes time and
-- changes nothing, however it ends.
pub mod Acks
use nx_iio_t_gateway_max_gat.Shared.{
  ℕ, ◌+◌, ◌≡◌, ◌⊎◌, inl, inr, Bool, true, false, not, ◌&&◌, List, [], ◌∷◌, ◌++◌, Option, none, some,
  if◌then◌else◌,
}
use nx_iio_t_gateway_max_gat.Queue.Codec.Names.{bytes_of, same_bytes}
use nx_iio_t_gateway_max_gat.Forwarder.Wire.{Message, Ack}
use nx_iio_t_gateway_max_gat.Server.{Text, Writer, Store, note_message, note_rejected, ingest}
use nx_iio_t_gateway_max_gat.Server.Settings.{
  Settings, fault_drop_ack, fault_error_ack, fault_ignore, gateway_name,
}

-- What `process` decided: without `reply` no answer is sent; the empty `err` is no error.
pub record Result : Type 0 where
  pub reply : Bool
  pub err : Text
  pub status : ℕ
  pub accepted : ℕ
  pub dups : ℕ

abbrev pub silence : Result
silence = record { reply = false; err = []; status = 0; accepted = 0; dups = 0 }

abbrev pub refusal : Text → ℕ → Result
refusal e status = record { reply = true; err = e; status = status; accepted = 0; dups = 0 }

unfoldable pub is_registered : Settings → Text → Bool
unfolding gateway_name
is_registered set id = elim (gateway_name id set.gateways) [ none ↦ false | some name ↦ true ]

module _ (wr : Writer) where
  -- From `ingest` on.
  unfoldable pub store_message : ℕ → Settings → Message → Store wr → Store wr × Result
  unfolding ingest
  store_message now set m s =
      let r = ingest wr now m s in
      elim r.error [
        | some e ↦ (
          r.store,
          record { reply = true; err = e; status = 503; accepted = 0; dups = r.duplicates },
        )
        | none ↦ (
          r.store,
          if same_bytes set.fault.mode fault_drop_ack
              then record {
                reply = false;
                err = [];
                status = 0;
                accepted = r.accepted;
                dups = r.duplicates;
              }
              else record {
                reply = true;
                err = [];
                status = 200;
                accepted = r.accepted;
                dups = r.duplicates;
              },
        )
      ]

  unfoldable pub process : ℕ → Settings → Message → Store wr → Store wr × Result
  unfolding is_registered store_message note_message note_rejected
  process now set m s =
      let s' = note_message wr now m.gateway_id s in
      if same_bytes set.fault.mode fault_ignore
      then (note_rejected wr m.gateway_id (bytes_of "simulated: message ignored") s', silence)
      else if not (is_registered set m.gateway_id) && set.reject_unknown_gateways
      then (
        note_rejected wr m.gateway_id (bytes_of "gateway not registered") s',
        refusal
            (bytes_of "gateway " ++ m.gateway_id ++ bytes_of " is not registered on this server")
            403,
      )
      else if same_bytes set.fault.mode fault_error_ack
      then (
        note_rejected wr m.gateway_id (bytes_of "simulated: error ack") s',
        refusal (bytes_of "simulated server error") 503,
      )
      else store_message now set m s'

  -- The payload is decoded by encoding/json: `none` is no message.
  unfoldable pub handle_mqtt : ℕ → Settings → Option Message → Store wr → Store wr × Option Ack
  unfolding process
  handle_mqtt now set none s = (s, none)
  handle_mqtt now set (some m) s =
      let done = process now set m s in
      (
        done.0,
        if done.1.reply
            then some (record { stream_id = m.stream_id; to_seq = m.to_seq; error = done.1.err })
            else none,
      )

  -- The body is decoded by encoding/json, or gives the text of its error. The answer over HTTP: nothing at all (the connection is dropped, or ends with 504 where it
  -- cannot be), an error, or the counts.
  pub data Answer : Type 0 where
    dropped : Answer
    failed : ℕ → Text → Answer
    stored : ℕ → ℕ → Answer

  unfoldable pub handle_ingest : ℕ → Settings → Message ⊎ Text → Store wr → Store wr × Answer
  unfolding process
  handle_ingest now set (inr e) s = (s, failed 400 (bytes_of "invalid JSON: " ++ e))
  handle_ingest now set (inl m) s =
      let done = process now set m s in
      (
        done.0,
        if not done.1.reply
            then dropped
            else if same_bytes done.1.err []
            then stored done.1.accepted done.1.dups
            else failed done.1.status done.1.err,
      )
