-- ===== src/Forwarder/Sender/Delivery.antt =====
-- Delivery by internal/forwarder/forwarder.go: no chunk leaves the queue before the server has it.
use nx_iio_t_gateway_max_gat.Shared.{
  ℕ, ◌≡◌, ◌∙◌, ◌⊎◌, inl, inr, List, [], ◌∷◌, ◌++◌, append_assoc, map, none, some, Option-cases, All,
  All-append, All-map, In,
}
use nx_iio_t_gateway_max_gat.Queue.Types.{Chunk}
use nx_iio_t_gateway_max_gat.Forwarder.Wire.{
  WireChunk, Message, wire_chunk, last_seq, build_message,
}
use nx_iio_t_gateway_max_gat.Forwarder.Sender.{
  Source, Adapter, Config, Forwarder, transmit, dispatch_once, after_dispatch, run,
}

-- What the loop relies on: `pending` is the content of a valid queue, oldest chunk first. A batch is
-- a front of it, and an acknowledgement of the last seq of a front removes that front or fails.
pub record IsQueue (src : Source) (IsValid : src.S → Type 0) (pending : src.S → List Chunk)
    : Type 0 where
  pub read_valid : (n : ℕ) (s : src.S) → IsValid s → IsValid (src.read_batch n s).0
  pub read_keeps : (n : ℕ) (s : src.S) → IsValid s → pending (src.read_batch n s).0 ≡ pending s
  pub read_front :
      (n : ℕ) (s : src.S) (chunks : List Chunk)
      → IsValid s
      → (src.read_batch n s).1 ≡ some chunks
      → (rest : List Chunk) × (pending s ≡ chunks ++ rest)
  pub ack_valid : (t : ℕ) (s : src.S) → IsValid s → IsValid (src.ack t s).0
  pub ack_front :
      (s : src.S) (c : Chunk) (cs rest : List Chunk)
      → IsValid s
      → pending s ≡ (c ∷ cs) ++ rest
      → (pending (src.ack (last_seq c cs) s).0 ≡ pending s)
        ⊎ (pending (src.ack (last_seq c cs) s).0 ≡ rest)

-- An acknowledged message has arrived, and what has arrived stays; a message whose send fails may
-- have arrived all the same.
pub record IsTransport (ad : Adapter) (arrived : ad.A → List WireChunk) : Type 0 where
  pub send_keeps :
      (m : Message) (a : ad.A) (w : WireChunk) → In w (arrived a) → In w (arrived (ad.send m a).0)
  pub send_arrives :
      (m : Message) (a : ad.A)
      → (ad.send m a).1 ≡ none
      → All (λ w. In w (arrived (ad.send m a).0)) m.chunks

module _ (src : Source) (ad : Adapter) (format : ℕ → List ℕ) (IsValid : src.S → Type 0)
    (pending : src.S → List Chunk) (arrived : ad.A → List WireChunk) where
  -- All chunks that were there: those that left the queue, which have all arrived, and the rest.
  pub record IsDelivering (all : List Chunk) (f : Forwarder src ad format) : Type 0 where
    pub valid : IsValid f.source
    pub gone : List Chunk
    pub accounted : all ≡ gone ++ pending f.source
    pub have_arrived : All (λ c. In (wire_chunk format c) (arrived f.adapter)) gone

  module _ (q : IsQueue src IsValid pending) (t : IsTransport ad arrived) where
    All-wire :
        (cs : List Chunk) (ws : List WireChunk)
        → All (λ w. In w ws) (map (wire_chunk format) cs)
        → All (λ c. In (wire_chunk format c) ws) cs
    All-wire [] ws h = tt
    All-wire (c ∷ cs) ws h = (h.0, All-wire cs ws h.1)

    transmit-IsDelivering :
        (all : List Chunk) (id : List ℕ) (now : ℕ) (c : Chunk) (cs rest : List Chunk)
        (f : Forwarder src ad format)
        → IsDelivering all f
        → pending f.source ≡ (c ∷ cs) ++ rest
        → IsDelivering all
            (transmit src ad format now (build_message format id src.stream_id c cs) f).0
    unfolding transmit build_message
    transmit-IsDelivering all id now c cs rest f v front =
        let msg : Message = build_message format id src.stream_id c cs in
        let kept =
          All-map v.gone (λ c. t.send_keeps msg f.adapter (wire_chunk format c)) v.have_arrived in
        let stays = q.ack_valid (last_seq c cs) f.source v.valid in
        elim (Option-cases (ad.send msg f.adapter).1) [
          | inr (e, broken) ↦
              rw (broken, transmit)
                (record {
                  valid = v.valid;
                  gone = v.gone;
                  accounted = v.accounted;
                  have_arrived = kept;
                })
          | inl good ↦ elim (q.ack_front f.source c cs rest v.valid front) [
            | inl same ↦
                rw (good, transmit)
                  (record {
                    valid = stays;
                    gone = v.gone;
                    accounted = rw same v.accounted;
                    have_arrived = kept;
                  })
            | inr removed ↦
                rw (good, transmit)
                  (record {
                    valid = stays;
                    gone = v.gone ++ (c ∷ cs);
                    accounted =
                        rw (removed, append_assoc v.gone (c ∷ cs) rest, ← front) v.accounted;
                    have_arrived =
                        All-append _ v.gone (c ∷ cs) kept
                          (All-wire (c ∷ cs) _ (t.send_arrives msg f.adapter good));
                  })
          ]
        ]

    dispatch_once-IsDelivering :
        (all : List Chunk) (cfg : Config) (now : ℕ) (f : Forwarder src ad format)
        → IsDelivering all f
        → IsDelivering all (dispatch_once src ad format cfg now f).0
    unfolding dispatch_once
    dispatch_once-IsDelivering all cfg now f v =
        let batch = src.read_batch cfg.max_readings f.source in
        let g : Forwarder src ad format = record f { source = batch.0 } in
        let w : IsDelivering all g = record {
          valid = q.read_valid cfg.max_readings f.source v.valid;
          gone = v.gone;
          accounted = rw (q.read_keeps cfg.max_readings f.source v.valid) v.accounted;
          have_arrived = v.have_arrived;
        } in
        elim (Option-cases batch.1) [
          | inl broken ↦ rw (broken, dispatch_once) w
          | inr ([], empty) ↦ rw (empty, dispatch_once) w
          | inr (c ∷ cs, taken) ↦
              let (rest, front) = q.read_front cfg.max_readings f.source (c ∷ cs) v.valid taken in
              rw (taken, dispatch_once)
                (transmit-IsDelivering all cfg.gateway_id now c cs rest g w
                  (q.read_keeps cfg.max_readings f.source v.valid ∙ front))
        ]

    -- However often the loop goes round, and whatever fails on the way, the chunks that have left
    -- the queue are a front of what it held at first, all of them have arrived, and the rest is
    -- still there in order.
    pub run-IsDelivering :
        (all : List Chunk) (cfg : Config) (nows : List ℕ) (failures : ℕ)
        (f : Forwarder src ad format)
        → IsDelivering all f
        → IsDelivering all (run src ad format cfg nows failures f).0
    unfolding run
    run-IsDelivering all cfg [] failures f v = v
    run-IsDelivering all cfg (now ∷ nows) failures f v =
        run-IsDelivering all cfg nows
          (after_dispatch src ad format cfg failures (dispatch_once src ad format cfg now f).1).0
          (dispatch_once src ad format cfg now f).0 (dispatch_once-IsDelivering all cfg now f v)
