-- ===== src/Server/Process/Acks.antt =====
-- What the answers of cmd/server-demo/server.go say about the store, under every fault.
use nx_iio_t_gateway_max_gat.Shared.{
  ℕ, ◌≤◌, ◌≡◌, ◌≢◌, refl, ◌∙◌, sym, ap, inl, inr, true, false, not, ◌&&◌, [], ◌++◌, Option, none,
  some, length, All, Bool-cases, Option-cases, if◌then◌else◌,
}
use nx_iio_t_gateway_max_gat.Queue.Codec.Names.{bytes_of, same_bytes}
use nx_iio_t_gateway_max_gat.Forwarder.Wire.{Message, Ack}
use nx_iio_t_gateway_max_gat.Server.{
  Text, StreamKey, ChunkKey, is_seen, fresh_of, Writer, Store, change_stats, note_message,
  note_rejected, ingest,
}
use nx_iio_t_gateway_max_gat.Server.Ingest.{
  IsSeen, IsUnchanged, IsTried, untouched, ingest-IsTried, NamesErrors, ingest-IsSettled,
  ingest_known, ingest_failed, ingest_names,
}
use nx_iio_t_gateway_max_gat.Server.Settings.{
  Settings, fault_drop_ack, fault_error_ack, fault_ignore,
}
use nx_iio_t_gateway_max_gat.Server.Process.{
  Result, silence, refusal, is_registered, store_message, process, handle_mqtt,
}

module _ (wr : Writer) where
  -- The store knows every chunk of a message.
  abbrev pub IsStored : Message → Store wr → Type 0
  IsStored m s =
      All (IsSeen wr (record { gateway_id = m.gateway_id; stream_id = m.stream_id }) s.seen)
        m.chunks

  abbrev noted : ℕ → Message → Store wr → Store wr
  noted now m s = note_message wr now m.gateway_id s

  abbrev answer : Settings → ℕ → ℕ → Result
  answer set accepted dups =
      if same_bytes set.fault.mode fault_drop_ack
      then record { reply = false; err = []; status = 0; accepted = accepted; dups = dups }
      else record { reply = true; err = []; status = 200; accepted = accepted; dups = dups }

  -- The ways through `process`.
  data Outcome (now : ℕ) (set : Settings) (m : Message) (s : Store wr) (out : Store wr × Result)
      : Type 0 where
    ignored :
        same_bytes set.fault.mode fault_ignore ≡ true
        → out.1 ≡ silence
        → IsUnchanged wr s out.0
        → out.0.out ≡ s.out
        → Outcome now set m s out
    refused :
        (e : Text) (status : ℕ)
        → e ≢ []
        → out.1 ≡ refusal e status
        → IsUnchanged wr s out.0
        → out.0.out ≡ s.out
        → Outcome now set m s out
    failed :
        (e : Text)
        → (ingest wr now m (noted now m s)).error ≡ some e
        → out.1.reply ≡ true
        → out.1.err ≡ e
        → out.0 ≡ (ingest wr now m (noted now m s)).store
        → Outcome now set m s out
    kept :
        (ingest wr now m (noted now m s)).error ≡ none
        → out.1
          ≡ answer set
              (ingest wr now m (noted now m s)).accepted
              (ingest wr now m (noted now m s)).duplicates
        → out.0 ≡ (ingest wr now m (noted now m s)).store
        → Outcome now set m s out

  rejected-IsUnchanged :
      (now : ℕ) (m : Message) (reason : Text) (s : Store wr)
      → IsUnchanged wr s (note_rejected wr m.gateway_id reason (noted now m s))
  unfolding note_rejected note_message change_stats
  rejected-IsUnchanged now m reason s = record {
    same_received = refl;
    same_seen = refl;
    same_last_seq = refl;
    same_gaps = refl;
    same_datapoints = refl;
  }

  rejected_out :
      (now : ℕ) (m : Message) (reason : Text) (s : Store wr)
      → (note_rejected wr m.gateway_id reason (noted now m s)).out ≡ s.out
  unfolding note_rejected note_message change_stats
  rejected_out now m reason s = refl

  store_message-Outcome :
      (now : ℕ) (set : Settings) (m : Message) (s : Store wr)
      → Outcome now set m s (store_message wr now set m (noted now m s))
  unfolding store_message
  store_message-Outcome now set m s = elim (Option-cases (ingest wr now m (noted now m s)).error) [
    | inl good ↦ rw (good, store_message) (kept good refl refl)
    | inr (e, bad) ↦ rw (bad, store_message) (failed e bad refl refl refl)
  ]

  process-Outcome :
      (now : ℕ) (set : Settings) (m : Message) (s : Store wr)
      → Outcome now set m s (process wr now set m s)
  unfolding process
  process-Outcome now set m s = elim (Bool-cases (same_bytes set.fault.mode fault_ignore)) [
    | inl ignore ↦
        rw (ignore, process)
          (ignored ignore refl (rejected-IsUnchanged now m _ s) (rejected_out now m [] s))
    | inr heard ↦
        elim (Bool-cases (not (is_registered set m.gateway_id) && set.reject_unknown_gateways)) [
          | inl unknown ↦
              rw (heard, unknown, process)
                (refused
                  (bytes_of "gateway "
                    ++ m.gateway_id
                    ++ bytes_of " is not registered on this server")
                  403 (λ e. cc e) refl (rejected-IsUnchanged now m _ s) (rejected_out now m [] s))
          | inr known ↦ elim (Bool-cases (same_bytes set.fault.mode fault_error_ack)) [
            | inl error ↦
                rw (heard, known, error, process)
                  (refused (bytes_of "simulated server error") 503 (λ e. cc e) refl
                    (rejected-IsUnchanged now m _ s) (rejected_out now m [] s))
            | inr working ↦ rw (heard, known, working, process) (store_message-Outcome now set m s)
          ]
        ]
  ]

  noted_seen :
      (now : ℕ) (m : Message) (s : Store wr)
      → ((noted now m s).seen ≡ s.seen) × ((noted now m s).received ≡ s.received)
  unfolding note_message change_stats
  noted_seen now m s = (refl, refl)

  noted-IsUnchanged :
      (now : ℕ) (m : Message) (s x : Store wr)
      → IsUnchanged wr (noted now m s) x
      → IsUnchanged wr s x
  unfolding note_message change_stats
  noted-IsUnchanged now m s x v = record {
    same_received = v.same_received;
    same_seen = v.same_seen;
    same_last_seq = v.same_last_seq;
    same_gaps = v.same_gaps;
    same_datapoints = v.same_datapoints;
  }

  abbrev ack_of : Message → Text → Ack
  ack_of m e = record { stream_id = m.stream_id; to_seq = m.to_seq; error = e }

  -- An answer comes from a reply of `process`.
  answered :
      (now : ℕ) (set : Settings) (m : Message) (s : Store wr) (a : Ack)
      → (handle_mqtt wr now set (some m) s).1 ≡ some a
      → ((process wr now set m s).1.reply ≡ true) × (a ≡ ack_of m (process wr now set m s).1.err)
  unfolding handle_mqtt
  answered now set m s a h = elim (Bool-cases (process wr now set m s).1.reply) [
    | inl replied ↦ (replied, cc (rw (replied, handle_mqtt) at h))
    | inr silent ↦ cc (rw (silent, handle_mqtt) at h)
  ]

  -- A message that the server acknowledges without an error, whatever fault is simulated, is stored
  -- when it does so: the store knows every chunk of it, and the acknowledgement carries its stream
  -- and its last seq. It needs a database whose errors have a text, since the acknowledgement of an
  -- error without one reads as a success.
  pub handle_mqtt_acked :
      (now : ℕ) (set : Settings) (m : Message) (s : Store wr) (a : Ack)
      → NamesErrors wr
      → (handle_mqtt wr now set (some m) s).1 ≡ some a
      → a.error ≡ []
      → (a.to_seq ≡ m.to_seq)
        × (a.stream_id ≡ m.stream_id)
        × IsStored m (handle_mqtt wr now set (some m) s).0
  unfolding handle_mqtt
  handle_mqtt_acked now set m s a names h clean =
      let (replied, is_ack) = answered now set m s a h in
      let blank : (process wr now set m s).1.err ≡ [] =
        ap (λ (b : Ack). b.error) (sym is_ack) ∙ clean in
      (
        ap (λ (b : Ack). b.to_seq) is_ack,
        ap (λ (b : Ack). b.stream_id) is_ack,
        elim (process-Outcome now set m s) [
          | ignored i silent same untouched_ ↦
              cc (sym replied ∙ ap (λ (r : Result). r.reply) silent)
          | refused e status texted r same untouched_ ↦
              absurd (texted (sym (ap (λ (r : Result). r.err) r) ∙ blank))
          | failed e bad r named store ↦
              absurd
                (ingest_names wr now m (noted now m s) names (bad ∙ ap some (sym named ∙ blank)))
          | kept good r store ↦ rw store (ingest-IsSettled wr now m (noted now m s) good).known
        ],
      )

  no_error : (set : Settings) (accepted dups : ℕ) → (answer set accepted dups).err ≡ []
  no_error set accepted dups = elim (Bool-cases (same_bytes set.fault.mode fault_drop_ack)) [
    | inl drop ↦ rw drop refl
    | inr deliver ↦ rw deliver refl
  ]

  abbrev pub stream_of : Message → StreamKey
  stream_of m = record { gateway_id = m.gateway_id; stream_id = m.stream_id }

  noted-IsTried :
      (now : ℕ) (m : Message) (s : Store wr) (e : Text)
      → (ingest wr now m (noted now m s)).error ≡ some e
      → IsTried wr
          (stream_of m)
          (fresh_of wr (stream_of m) s.seen m.chunks)
          s.out
          (ingest wr now m (noted now m s)).store.out
  unfolding note_message change_stats
  noted-IsTried now m s e bad = ingest-IsTried wr now m (noted now m s) e bad

  -- An acknowledgement with an error means that the server counts nothing of the message as stored:
  -- what it has received, the chunks that it knows, the last seqs, the gaps and the datapoints are as
  -- before, so that a message sent again is new to it. The database is untouched, unless the error
  -- is the database's own: then it was given the chunks that the server does not know, in one write,
  -- and that write has failed.
  pub handle_mqtt_refused :
      (now : ℕ) (set : Settings) (m : Message) (s : Store wr) (a : Ack)
      → (handle_mqtt wr now set (some m) s).1 ≡ some a
      → a.error ≢ []
      → let after = (handle_mqtt wr now set (some m) s).0 in
        IsUnchanged wr s after
        × IsTried wr (stream_of m) (fresh_of wr (stream_of m) s.seen m.chunks) s.out after.out
  unfolding handle_mqtt
  handle_mqtt_refused now set m s a h wrong =
      let (replied, is_ack) = answered now set m s a h in
      elim (process-Outcome now set m s) [
        | ignored i silent same out_ ↦ (same, untouched out_)
        | refused e status texted r same out_ ↦ (same, untouched out_)
        | failed e bad r named store ↦ rw store (
          noted-IsUnchanged now m s _ (ingest_failed wr now m (noted now m s) e bad).1,
          noted-IsTried now m s e bad,
        )
        | kept good r store ↦ absurd (
            wrong (
              ap (λ (b : Ack). b.error) is_ack ∙ (ap (λ (r : Result). r.err) r ∙ no_error set _ _)))
      ]

  -- The settings of a server that works: no fault is simulated, and every gateway may send.
  pub record IsWorking (set : Settings) : Type 0 where
    pub hears : same_bytes set.fault.mode fault_ignore ≡ false
    pub accepts : same_bytes set.fault.mode fault_error_ack ≡ false
    pub answers : same_bytes set.fault.mode fault_drop_ack ≡ false
    pub open_to_all : set.reject_unknown_gateways ≡ false

  process_working :
      (now : ℕ) (set : Settings) (m : Message) (s : Store wr)
      → IsWorking set
      → process wr now set m s ≡ store_message wr now set m (noted now m s)
  unfolding process
  process_working now set m s w = elim (Bool-cases (is_registered set m.gateway_id)) [
    | inl known ↦ rw (w.hears, known, w.accepts, process) refl
    | inr unknown ↦ rw (w.hears, unknown, w.open_to_all, w.accepts, process) refl
  ]

  -- A message that the store knows is acknowledged by a server that works, and changes nothing.
  handle_mqtt_known :
      (now : ℕ) (set : Settings) (m : Message) (s : Store wr)
      → IsWorking set
      → IsStored m s
      → length s.received ≤ 10000
      → ((handle_mqtt wr now set (some m) s).1 ≡ some (ack_of m []))
        × IsUnchanged wr s (handle_mqtt wr now set (some m) s).0
  unfolding handle_mqtt store_message note_message change_stats
  handle_mqtt_known now set m s w known bounded =
      let (accepted, dups, error, same) = ingest_known wr now m (noted now m s) known bounded in
      rw (process_working now set m s w, error, w.answers, store_message)
        (refl, noted-IsUnchanged now m s _ same)

  -- When a server that hears a message gives no answer, the data is stored and only the
  -- acknowledgement is lost: when the gateway sends the message again and the server works by then,
  -- the message is acknowledged, and nothing is stored twice.
  pub handle_mqtt_resent :
      (now later : ℕ) (set set' : Settings) (m : Message) (s : Store wr)
      → same_bytes set.fault.mode fault_ignore ≡ false
      → (handle_mqtt wr now set (some m) s).1 ≡ none
      → IsWorking set'
      → let first = (handle_mqtt wr now set (some m) s).0 in
        let again = handle_mqtt wr later set' (some m) first in
        (again.1 ≡ some (ack_of m [])) × IsStored m first × IsUnchanged wr first again.0
  unfolding handle_mqtt
  handle_mqtt_resent now later set set' m s heard silent w = elim (process-Outcome now set m s) [
    | ignored i r same untouched_ ↦ cc (sym i ∙ heard)
    | refused e status texted r same untouched_ ↦
        cc (rw (ap (λ (x : Result). x.reply) r, handle_mqtt) at silent)
    | failed e bad replied named store ↦ cc (rw (replied, handle_mqtt) at silent)
    | kept good r store ↦
        let settled = ingest-IsSettled wr now m (noted now m s) good in
        let again =
          handle_mqtt_known later set' m (ingest wr now m (noted now m s)).store w settled.known
            settled.bounded in
        rw store (again.0, settled.known, again.1)
  ]

  -- What the store knows, it knows on.
  pub handle_mqtt_older :
      (now : ℕ) (set : Settings) (body : Option Message) (s : Store wr) (x : ChunkKey)
      → is_seen x s.seen ≡ true
      → is_seen x (handle_mqtt wr now set body s).0.seen ≡ true
  unfolding handle_mqtt
  handle_mqtt_older now set none s x h = h
  handle_mqtt_older now set (some m) s x h = elim (process-Outcome now set m s) [
    | ignored i silent same untouched_ ↦ rw same.same_seen h
    | refused e status texted r same untouched_ ↦ rw same.same_seen h
    | failed e bad replied named store ↦
        let same = noted-IsUnchanged now m s _ (ingest_failed wr now m (noted now m s) e bad).1 in
        rw (store, same.same_seen) h
    | kept good r store ↦ rw store ((ingest-IsSettled wr now m (noted now m s) good).older x h)
  ]
