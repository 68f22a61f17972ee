-- ===== src/Forwarder/MqttAdapter/Sends.antt =====
-- What a Send of internal/forwarder/mqttadapter.go returns and leaves behind, whatever happens to it.
use nx_iio_t_gateway_max_gat.Shared.{
  ℕ, ◌≡◌, ◌⊎◌, refl, sym, ap, subst, ◌∙◌, inl, inr, Bool, true, false, List, [], ◌∷◌, Option, none,
  some, arith, ◌==◌, if◌then◌else◌, length, length-append, get_elem?, get_elem?-length, In, lookup,
  lookup-insert, Bool-cases,
}
use nx_iio_t_gateway_max_gat.Queue.Codec.Names.{same_bytes, same_bytes→eq}
use nx_iio_t_gateway_max_gat.Forwarder.Wire.{Message, Ack}
use nx_iio_t_gateway_max_gat.Forwarder.MqttAdapter.Table.{
  IsPointing, IsOpen, IsOver, IsAt, IsListed, Genuine, Brings, handled-IsListed,
  handled-HoldsGenuine, ended-IsOver,
}
use nx_iio_t_gateway_max_gat.Forwarder.MqttAdapter.{
  MqttAdapter, is_for, handle_ack, SendError, rejected, cancelled, publish_failed,
  publish_timed_out, ack_timed_out, Phase, publishing, waiting, returned, Event, payload,
  token_done, context_done, publish_timer, ack_timer, receive, Sending, begin_send, end_send,
  on_token, on_receive, step, steps, send,
}

module _ (to_seq : ℕ) (stream : List ℕ) (base : MqttAdapter) (P : Ack → Type 0) where
  abbrev Lets : Event → Type 0
  Lets e = (p : Option Ack) → e ≡ payload p → Brings to_seq stream base P p

  handled-IsOpen :
      (p : Option Ack) (x : Sending to_seq stream)
      → IsPointing base
      → Brings to_seq stream base P p
      → IsOpen to_seq stream base P x
      → IsOpen to_seq stream base P (record x { adapter = handle_ack p x.adapter })
  handled-IsOpen p x pointing brings v =
      let (content, holds, genuine) =
        handled-HoldsGenuine to_seq stream base P p x.adapter pointing brings v.listed
          (v.content, v.holds, v.genuine) in
      record {
        listed =
            handled-IsListed to_seq stream base P (some (length base.channels)) (some stream) p
              x.adapter v.listed;
        own = v.own;
        content = content;
        holds = holds;
        genuine = genuine;
      }

  handled-IsAt :
      (p : Option Ack) (phase : Phase) (x : Sending to_seq stream)
      → IsPointing base
      → Brings to_seq stream base P p
      → IsAt to_seq stream base P phase x
      → IsAt to_seq stream base P phase (record x { adapter = handle_ack p x.adapter })
  handled-IsAt p (returned r) x pointing brings v = record {
    unlisted = handled-IsListed to_seq stream base P none none p x.adapter v.unlisted;
    honest = v.honest;
  }
  handled-IsAt p publishing x pointing brings v = handled-IsOpen p x pointing brings v
  handled-IsAt p waiting x pointing brings v = handled-IsOpen p x pointing brings v

  still :
      (phase : Phase) (x : Sending to_seq stream)
      → x.phase ≡ phase
      → IsAt to_seq stream base P phase x
      → IsAt to_seq stream base P x.phase x
  still phase x e v = subst (λ ph. IsAt to_seq stream base P ph x) (sym e) v

  on_token-IsAt :
      (good : Bool) (x : Sending to_seq stream)
      → IsOpen to_seq stream base P x
      → IsAt to_seq stream base P
          (on_token to_seq stream good x).phase
          (on_token to_seq stream good x)
  unfolding on_token end_send
  on_token-IsAt true x v = record {
    listed = v.listed;
    own = v.own;
    content = v.content;
    holds = v.holds;
    genuine = v.genuine;
  }
  on_token-IsAt false x v = ended-IsOver to_seq stream base P (some publish_failed) x (λ e. cc e) v

  on_receive-IsAt :
      (taken : Option (Option Ack)) (x : Sending to_seq stream)
      → x.phase ≡ waiting
      → get_elem? x.adapter.channels x.channel ≡ taken
      → IsOpen to_seq stream base P x
      → IsAt to_seq stream base P
          (on_receive to_seq stream taken x).phase
          (on_receive to_seq stream taken x)
  unfolding on_receive end_send
  on_receive-IsAt none x e h v = still waiting x e v
  on_receive-IsAt (some none) x e h v = still waiting x e v
  on_receive-IsAt (some (some ack)) x e h v =
      let found : some v.content ≡ some (some ack) =
        sym v.holds ∙ (ap (get_elem? x.adapter.channels) (sym v.own) ∙ h) in
      let same : v.content ≡ some ack = cc found in
      let good : P ack = subst (Genuine to_seq stream base P) same v.genuine in
      elim (Bool-cases (same_bytes ack.error [])) [
        | inl clean ↦
            rw (clean, on_receive)
              (ended-IsOver to_seq stream base P none x
                (λ e'. (ack, good, same_bytes→eq ack.error [] clean)) v)
        | inr wrong ↦
            rw (wrong, on_receive)
              (ended-IsOver to_seq stream base P (some (rejected ack.error)) x (λ e'. cc e') v)
      ]

  step-IsAt :
      (e : Event) (phase : Phase) (x : Sending to_seq stream)
      → x.phase ≡ phase
      → IsPointing base
      → Lets e
      → IsAt to_seq stream base P phase x
      → IsAt to_seq stream base P
          (step to_seq stream e phase x).phase
          (step to_seq stream e phase x)
  unfolding step end_send
  step-IsAt (payload p) phase x at pointing lets v =
      still phase _ at (handled-IsAt p phase x pointing (lets p refl) v)
  step-IsAt (token_done good) publishing x at pointing lets v = on_token-IsAt good x v
  step-IsAt context_done publishing x at pointing lets v =
      ended-IsOver to_seq stream base P (some cancelled) x (λ e. cc e) v
  step-IsAt publish_timer publishing x at pointing lets v =
      ended-IsOver to_seq stream base P (some publish_timed_out) x (λ e. cc e) v
  step-IsAt receive waiting x at pointing lets v = on_receive-IsAt _ x at refl v
  step-IsAt context_done waiting x at pointing lets v =
      ended-IsOver to_seq stream base P (some cancelled) x (λ e. cc e) v
  step-IsAt ack_timer waiting x at pointing lets v =
      ended-IsOver to_seq stream base P (some ack_timed_out) x (λ e. cc e) v
  step-IsAt ack_timer publishing x at pointing lets v = still publishing x at v
  step-IsAt receive publishing x at pointing lets v = still publishing x at v
  step-IsAt (token_done good) waiting x at pointing lets v = still waiting x at v
  step-IsAt publish_timer waiting x at pointing lets v = still waiting x at v
  step-IsAt (token_done good) (returned r) x at pointing lets v = still (returned r) x at v
  step-IsAt context_done (returned r) x at pointing lets v = still (returned r) x at v
  step-IsAt publish_timer (returned r) x at pointing lets v = still (returned r) x at v
  step-IsAt ack_timer (returned r) x at pointing lets v = still (returned r) x at v
  step-IsAt receive (returned r) x at pointing lets v = still (returned r) x at v

  steps-IsAt :
      (es : List Event) (x : Sending to_seq stream)
      → IsPointing base
      → ((e : Event) → In e es → Lets e)
      → IsAt to_seq stream base P x.phase x
      → IsAt to_seq stream base P (steps to_seq stream es x).phase (steps to_seq stream es x)
  unfolding steps
  steps-IsAt [] x pointing lets v = v
  steps-IsAt (e ∷ es) x pointing lets v =
      steps-IsAt es (step to_seq stream e x.phase x) pointing (λ e' i. lets e' (inr i))
        (step-IsAt e x.phase x refl pointing (lets e (inl refl)) v)

  begun-IsAt : IsAt to_seq stream base P publishing (begin_send to_seq stream base)
  unfolding begin_send
  begun-IsAt = record {
    listed = record {
      places = λ k. lookup-insert k to_seq (length base.channels) base.pending;
      streams = λ k. lookup-insert k to_seq stream base.pending_stream;
      size = length-append base.channels (none ∷ []) ∙ omega arith;
    };
    own = refl;
    content = none;
    holds = get_elem?-length base.channels none;
    genuine = tt;
  }

  -- Fewer entries, and more channels.
  IsListed-IsPointing :
      (b : MqttAdapter) → IsPointing base → IsListed to_seq stream base P none none b → IsPointing b
  IsListed-IsPointing b pointing v k ch found = elim (Bool-cases (k == to_seq)) [
    | inl same ↦ cc (sym found ∙ (rw same at (v.places k)))
    | inr apart ↦
        let old : lookup k base.pending ≡ some ch = sym (rw apart at (v.places k)) ∙ found in
        omega (arith, pointing k ch old, v.size)
  ]

-- An acknowledgement of the message that came in, by its stream and its last seq.
abbrev Heard : Message → List Event → Ack → Type 0
Heard m es ack =
    In (payload (some ack)) es × (ack.to_seq ≡ m.to_seq) × (is_for ack m.stream_id ≡ true)

Heard-all :
    (m : Message) (es : List Event) (a : MqttAdapter) (e : Event)
    → In e es
    → Lets m.to_seq m.stream_id a (Heard m es) e
Heard-all m es a e i p is_payload ack is_ack seq mine =
    let eq : e ≡ payload (some ack) = cc (is_payload, is_ack) in
    (subst (λ e. In e es) eq i, seq, mine)

is_for→eq :
    (ack : Ack) (stream : List ℕ)
    → is_for ack stream ≡ true
    → (ack.stream_id ≡ []) ⊎ (ack.stream_id ≡ stream)
unfolding is_for
is_for→eq ack stream h = elim (Bool-cases (same_bytes ack.stream_id [])) [
  | inl blank ↦ inl (same_bytes→eq ack.stream_id [] blank)
  | inr named ↦ inr (same_bytes→eq ack.stream_id stream (rw (named, is_for) at h))
]

over :
    (m : Message) (es : List Event) (a : MqttAdapter) (r : Option SendError)
    → IsPointing a
    → let x = steps m.to_seq m.stream_id es (begin_send m.to_seq m.stream_id a) in
      x.phase ≡ returned r → IsOver m.to_seq m.stream_id a (Heard m es) r x
unfolding begin_send
over m es a r pointing at =
    let x = steps m.to_seq m.stream_id es (begin_send m.to_seq m.stream_id a) in
    subst (λ ph. IsAt m.to_seq m.stream_id a (Heard m es) ph x) at
      (steps-IsAt m.to_seq m.stream_id a (Heard m es) es (begin_send m.to_seq m.stream_id a)
        pointing (Heard-all m es a) (begun-IsAt m.to_seq m.stream_id a (Heard m es)))

module _ (encodes : Message → Bool) where
  -- A Send that reports success has heard, among what came in meanwhile, an acknowledgement without
  -- an error that names the last seq of its message, and its stream or none: however the events
  -- fall, also beside late or repeated acknowledgements of other messages.
  pub send_acked :
      (connected : Bool) (m : Message) (es : List Event) (a : MqttAdapter)
      → IsPointing a
      → (send encodes connected m es a).1 ≡ returned none
      → (ack : Ack) × In (payload (some ack)) es
        × (ack.to_seq ≡ m.to_seq)
        × ((ack.stream_id ≡ []) ⊎ (ack.stream_id ≡ m.stream_id))
        × (ack.error ≡ [])
  unfolding send
  send_acked false m es a pointing h = cc h
  send_acked true m es a pointing h = elim (Bool-cases (encodes m)) [
    | inr broken ↦ cc (rw (broken, send) at h)
    | inl good ↦
        let (ack, (heard, seq, mine), clean) =
          (over m es a none pointing (rw (good, send) at h)).honest refl in
        (ack, heard, seq, is_for→eq ack m.stream_id mine, clean)
  ]

  -- A Send that has returned, with whatever result, leaves nothing of itself in the tables: they say
  -- what they said before, without the entries of its seq, and still point to channels that exist.
  pub send_forgets :
      (m : Message) (es : List Event) (a : MqttAdapter) (r : Option SendError)
      → encodes m ≡ true
      → IsPointing a
      → (send encodes true m es a).1 ≡ returned r
      → let after = (send encodes true m es a).0 in
        IsPointing after
        × ((k : ℕ)
            → (lookup k after.pending ≡ (if k == m.to_seq then none else lookup k a.pending))
              × (lookup k after.pending_stream
                  ≡ (if k == m.to_seq then none else lookup k a.pending_stream)))
  unfolding send
  send_forgets m es a r good pointing h =
      let v = (over m es a r pointing (rw (good, send) at h)).unlisted in
      rw (good, send)
        (
          IsListed-IsPointing m.to_seq m.stream_id a (Heard m es) _ pointing v,
          λ k. (v.places k, v.streams k),
        )
