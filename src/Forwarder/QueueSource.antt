-- ===== src/Forwarder/QueueSource.antt =====
-- The queue of internal/queue/store.go as the Source of internal/forwarder/forwarder.go. What the
-- driver answers to each call is told from outside, in two lists; behind their end nothing fails.
use nx_iio_t_gateway_max_gat.Shared.{
  ℕ, ◌≡◌, refl, ◌∙◌, ap, ◌⊎◌, inl, inr, Bool, true, List, [], ◌∷◌, ◌++◌, Option,
}
use nx_iio_t_gateway_max_gat.Queue.Types.{Chunk}
use nx_iio_t_gateway_max_gat.Queue.Db.{Answers}
use nx_iio_t_gateway_max_gat.Queue.Store.{Codec, Store, DiscardAnswers, read_batch, ack}
use nx_iio_t_gateway_max_gat.Queue.Store.Counters.{IsConsistent, ack-IsConsistent}
use nx_iio_t_gateway_max_gat.Queue.Store.Batch.{read_batch-IsConsistent}
use nx_iio_t_gateway_max_gat.Queue.Store.Batch.Oldest.{decodable}
use nx_iio_t_gateway_max_gat.Queue.Store.Batch.Pending.{
  read_batch_keeps, read_batch_front, ack_rows, rows_after_front,
}
use nx_iio_t_gateway_max_gat.Forwarder.Wire.{last_seq}
use nx_iio_t_gateway_max_gat.Forwarder.Sender.{Source, Adapter, Config, Forwarder, run}
use nx_iio_t_gateway_max_gat.Forwarder.Sender.Delivery.{IsQueue, IsDelivering, run-IsDelivering}
use nx_iio_t_gateway_max_gat.Forwarder.Sender.Recorded.{
  recorded, accepted, recorded-IsTransport, erase, run-recorded,
}

pub record Feed : Type 0 where
  pub store : Store
  pub reads : List (Bool × List DiscardAnswers)
  pub acks : List (Answers × Answers)

abbrev next_read : List (Bool × List DiscardAnswers) → Bool × List DiscardAnswers
next_read [] = (true, [])
next_read (x ∷ xs) = x

abbrev next_ack : List (Answers × Answers) → Answers × Answers
next_ack [] = ([], [])
next_ack (x ∷ xs) = x

abbrev later {ℓ} : {A : Type ℓ} → List A → List A
later [] = []
later (x ∷ xs) = xs

module _ (c : Codec) where
  unfoldable pub read_feed : ℕ → Feed → Feed × Option (List Chunk)
  unfolding read_batch
  read_feed limit f =
      let r = read_batch c (next_read f.reads).0 (next_read f.reads).1 limit f.store in
      (record f { store = r.0; reads = later f.reads }, r.1)

  unfoldable pub ack_feed : ℕ → Feed → Feed × Bool
  unfolding ack
  ack_feed t f =
      let r = ack (next_ack f.acks).0 (next_ack f.acks).1 t f.store in
      (record f { store = r.0; acks = later f.acks }, r.1)

  abbrev pub queue_source : List ℕ → Source
  queue_source stream = record {
    S = Feed;
    stream_id = stream;
    read_batch = read_feed;
    ack = ack_feed;
  }

  abbrev pub IsSoundFeed : Feed → Type 0
  IsSoundFeed f = IsConsistent f.store

  -- The chunks that wait in the file.
  abbrev pub waiting : Feed → List Chunk
  waiting f = decodable c f.store.db.rows

  -- The queue keeps what the forwarder relies on, whatever the driver answers.
  pub queue_source-IsQueue : (stream : List ℕ) → IsQueue (queue_source stream) IsSoundFeed waiting
  unfolding read_feed ack_feed
  queue_source-IsQueue stream = record {
    read_valid =
        λ n f v. read_batch-IsConsistent c (next_read f.reads).0 (next_read f.reads).1 n f.store v;
    read_keeps =
        λ n f v. read_batch_keeps c (next_read f.reads).0 (next_read f.reads).1 n f.store v;
    read_front = λ n f chunks v h.
        read_batch_front c (next_read f.reads).0 (next_read f.reads).1 n f.store chunks h;
    ack_valid = λ t f v. ack-IsConsistent (next_ack f.acks).0 (next_ack f.acks).1 t f.store v;
    ack_front = λ f ch chs rest v h. acked f ch chs rest v h;
  }
    where
      acked :
          (f : Feed) (ch : Chunk) (chs rest : List Chunk)
          → IsSoundFeed f
          → waiting f ≡ (ch ∷ chs) ++ rest
          → (waiting (ack_feed (last_seq ch chs) f).0 ≡ waiting f)
            ⊎ (waiting (ack_feed (last_seq ch chs) f).0 ≡ rest)
      acked f ch chs rest v h =
          elim (ack_rows c (next_ack f.acks).0 (next_ack f.acks).1 (last_seq ch chs) f.store) [
            | inl same ↦ inl (ap (decodable c) same)
            | inr gone ↦ inr (
                ap (decodable c) gone
                ∙ rows_after_front c 0 f.store.db.next_seq f.store.db.rows ch chs rest v.file.order
                    h)
          ]

  module _ (ad : Adapter) (format : ℕ → List ℕ) where
    -- The forwarder over the queue on disk, with any adapter: through any number of rounds, with errors
    -- of the driver, corrupt chunks, failed sends and failed acknowledgements, the decodable chunks
    -- that were in the file are those that have left it followed by those that are still there, in
    -- their order, and each chunk that has left was in a message whose Send has returned without an
    -- error. The record of these messages changes nothing of what the loop does.
    pub run-queue_source :
        (stream : List ℕ) (cfg : Config) (nows : List ℕ) (failures : ℕ)
        (f : Forwarder (queue_source stream) (recorded ad) format)
        → IsConsistent f.source.store
        → let after = (run (queue_source stream) (recorded ad) format cfg nows failures f).0 in
          IsDelivering
            (queue_source stream)
            (recorded ad)
            format
            IsSoundFeed
            waiting
            (accepted ad)
            (waiting f.source)
            after
          × (erase (queue_source stream) ad format after
              ≡ (run
                  (queue_source stream)
                  ad
                  format
                  cfg
                  nows
                  failures
                  (erase (queue_source stream) ad format f)).0)
    run-queue_source stream cfg nows failures f v = (
      run-IsDelivering (queue_source stream) (recorded ad) format IsSoundFeed waiting (accepted ad)
          (queue_source-IsQueue stream) (recorded-IsTransport ad) (waiting f.source) cfg nows
          failures f (record { valid = v; gone = []; accounted = refl; have_arrived = tt }),
      run-recorded (queue_source stream) ad format cfg nows failures f,
    )
