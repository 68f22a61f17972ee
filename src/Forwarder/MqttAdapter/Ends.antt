-- ===== src/Forwarder/MqttAdapter/Ends.antt =====
-- A Send of internal/forwarder/mqttadapter.go comes to an end.
use nx_iio_t_gateway_max_gat.Shared.{
  ℕ, ◌≡◌, refl, ap, ◌∙◌, inl, inr, Bool, true, false, List, [], ◌∷◌, ◌++◌, Option, none, some,
  Bool-cases,
}
use nx_iio_t_gateway_max_gat.Queue.Codec.Names.{same_bytes}
use nx_iio_t_gateway_max_gat.Forwarder.Wire.{Message, Ack}
use nx_iio_t_gateway_max_gat.Forwarder.MqttAdapter.{
  MqttAdapter, SendError, Phase, publishing, waiting, returned, Event, payload, token_done,
  context_done, publish_timer, ack_timer, receive, Sending, begin_send, end_send, on_receive, step,
  steps, send,
}

-- Phases behind the publish.
data IsPast : Phase → Type 0 where
  at_select : IsPast waiting
  at_end : (r : Option SendError) → IsPast (returned r)

module _ (to_seq : ℕ) (stream : List ℕ) where
  on_receive-IsPast :
      (taken : Option (Option Ack)) (x : Sending to_seq stream)
      → IsPast x.phase
      → IsPast (on_receive to_seq stream taken x).phase
  unfolding on_receive end_send
  on_receive-IsPast none x v = v
  on_receive-IsPast (some none) x v = v
  on_receive-IsPast (some (some ack)) x v = elim (Bool-cases (same_bytes ack.error [])) [
    | inl clean ↦ rw (clean, on_receive) (at_end _)
    | inr wrong ↦ rw (wrong, on_receive) (at_end _)
  ]

  step-IsPast :
      (e : Event) (phase : Phase) (x : Sending to_seq stream)
      → x.phase ≡ phase
      → IsPast phase
      → IsPast (step to_seq stream e phase x).phase
  unfolding step end_send
  step-IsPast (payload p) phase x at v = rw at v
  step-IsPast (token_done good) publishing x at v = elim v [ ]
  step-IsPast context_done publishing x at v = elim v [ ]
  step-IsPast publish_timer publishing x at v = elim v [ ]
  step-IsPast ack_timer publishing x at v = elim v [ ]
  step-IsPast receive publishing x at v = elim v [ ]
  step-IsPast receive waiting x at v = on_receive-IsPast _ x (rw at v)
  step-IsPast context_done waiting x at v = at_end _
  step-IsPast ack_timer waiting x at v = at_end _
  step-IsPast (token_done good) waiting x at v = rw at v
  step-IsPast publish_timer waiting x at v = rw at v
  step-IsPast (token_done good) (returned r) x at v = rw at v
  step-IsPast context_done (returned r) x at v = rw at v
  step-IsPast publish_timer (returned r) x at v = rw at v
  step-IsPast ack_timer (returned r) x at v = rw at v
  step-IsPast receive (returned r) x at v = rw at v

  steps-IsPast :
      (es : List Event) (x : Sending to_seq stream)
      → IsPast x.phase
      → IsPast (steps to_seq stream es x).phase
  unfolding steps
  steps-IsPast [] x v = v
  steps-IsPast (e ∷ es) x v =
      steps-IsPast es (step to_seq stream e x.phase x) (step-IsPast e x.phase x refl v)

  publish_timer-IsPast :
      (phase : Phase) (x : Sending to_seq stream)
      → x.phase ≡ phase
      → IsPast (step to_seq stream publish_timer phase x).phase
  unfolding step end_send
  publish_timer-IsPast publishing x at = at_end _
  publish_timer-IsPast waiting x at = rw at at_select
  publish_timer-IsPast (returned r) x at = rw at (at_end r)

  abbrev IsReturned : Phase → Type 0
  IsReturned phase = (r : Option SendError) × (phase ≡ returned r)

  ack_timer-IsReturned :
      (phase : Phase) (x : Sending to_seq stream)
      → x.phase ≡ phase
      → IsPast phase
      → IsReturned (step to_seq stream ack_timer phase x).phase
  unfolding step end_send
  ack_timer-IsReturned publishing x at v = elim v [ ]
  ack_timer-IsReturned waiting x at v = (_, refl)
  ack_timer-IsReturned (returned r) x at v = (r, at)

  step_returned :
      (e : Event) (x : Sending to_seq stream) (r : Option SendError)
      → (step to_seq stream e (returned r) x).phase ≡ x.phase
  unfolding step
  step_returned (payload p) x r = refl
  step_returned (token_done good) x r = refl
  step_returned context_done x r = refl
  step_returned publish_timer x r = refl
  step_returned ack_timer x r = refl
  step_returned receive x r = refl

  steps-IsReturned :
      (es : List Event) (x : Sending to_seq stream)
      → IsReturned x.phase
      → IsReturned (steps to_seq stream es x).phase
  unfolding steps
  steps-IsReturned [] x v = v
  steps-IsReturned (e ∷ es) x (r, at) =
      steps-IsReturned es (step to_seq stream e x.phase x)
        (r, ap (λ ph. (step to_seq stream e ph x).phase) at ∙ (step_returned e x r ∙ at))

  steps-append :
      (es fs : List Event) (x : Sending to_seq stream)
      → steps to_seq stream (es ++ fs) x ≡ steps to_seq stream fs (steps to_seq stream es x)
  unfolding steps
  steps-append [] fs x = refl
  steps-append (e ∷ es) fs x = steps-append es fs _

  timed-IsReturned :
      (es fs gs : List Event) (x : Sending to_seq stream)
      → IsReturned (steps to_seq stream (es ++ publish_timer ∷ (fs ++ ack_timer ∷ gs)) x).phase
  unfolding steps
  timed-IsReturned es fs gs x =
      let y = steps to_seq stream es x in
      let z = step to_seq stream publish_timer y.phase y in
      let w = steps to_seq stream fs z in
      let v = step to_seq stream ack_timer w.phase w in
      let past = steps-IsPast fs z (publish_timer-IsPast y.phase y refl) in
      rw
        (
          steps-append es (publish_timer ∷ (fs ++ ack_timer ∷ gs)) x,
          steps-append fs (ack_timer ∷ gs) z,
        )
        (steps-IsReturned gs v (ack_timer-IsReturned w.phase w refl past))

-- Whatever else happens, a Send is over once the timer of the publish and after it the timer of the
-- acknowledgement have fired: it has returned a result.
pub send_ends :
    (encodes : Message → Bool) (connected : Bool) (m : Message) (es fs gs : List Event)
    (a : MqttAdapter)
    → (r : Option SendError) × ((send encodes connected m
          (es ++ publish_timer ∷ (fs ++ ack_timer ∷ gs))
          a).1
        ≡ returned r)
unfolding send
send_ends encodes false m es fs gs a = (_, refl)
send_ends encodes true m es fs gs a = elim (Bool-cases (encodes m)) [
  | inr broken ↦ rw (broken, send) (_, refl)
  | inl good ↦
      rw (good, send)
        (timed-IsReturned m.to_seq m.stream_id es fs gs (begin_send m.to_seq m.stream_id a))
]
