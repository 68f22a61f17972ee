-- ===== src/Queue/ChunkCodec.antt =====
-- The chunk format of internal/queue/codec.go as the codec that internal/queue/store.go asks for.
use nx_iio_t_gateway_max_gat.Shared.{
  ℕ, ◌<◌, ◌≡◌, ◌≢◌, ◌⊎◌, refl, true, List, ◌++◌, ◌≤◌, Option, none, some, length, All, two64,
}
use nx_iio_t_gateway_max_gat.Queue.Types.{Reading}
use nx_iio_t_gateway_max_gat.Queue.Codec.{Result, ok, err, Flate, encode_chunk, decode_chunk}
use nx_iio_t_gateway_max_gat.Queue.Codec.RoundTrip.{
  IsReading, HasNegativeId, decode_chunk-encode_chunk, encode_chunk-none_iff,
}
use nx_iio_t_gateway_max_gat.Queue.Db.{Answers}
use nx_iio_t_gateway_max_gat.Queue.Store.{Codec, Store, drain, flush}
use nx_iio_t_gateway_max_gat.Queue.Store.Contents.{contents, contents-flush}

abbrev pub to_option {ℓ} : {A : Type ℓ} → Result A → Option A
to_option (ok a) = some a
to_option (err e) = none

pub decode-encode :
    (f : Flate) (rs : List Reading) (blob : List ℕ)
    → All IsReading rs × (length rs < two64)
    → encode_chunk f rs ≡ some blob
    → to_option (decode_chunk f blob) ≡ some rs
decode-encode f rs blob b e = rw (decode_chunk-encode_chunk f rs blob b.0 b.1 e) refl

abbrev pub chunk_codec : Flate → Codec
chunk_codec f = record {
  encode = encode_chunk f;
  decode = λ blob. to_option (decode_chunk f blob);
  IsBatch = λ rs. All IsReading rs × (length rs < two64);
  decode-encode = decode-encode f;
}

-- With the gateway's chunk format, and readings whose ids are not negative, a flush that succeeds
-- or that fails within the in-memory limit loses no reading and keeps their order.
pub flush_keeps_readings :
    (f : Flate) (answers : Answers) (meanwhile : List Reading) (s : Store)
    → ((raw : List ℕ) → f.deflate raw ≢ none)
    → All IsReading s.buf
    → length s.buf < two64
    → ¬ HasNegativeId s.buf
    → ((flush (chunk_codec f) answers meanwhile s).1 ≡ true)
      ⊎ (length (drain (chunk_codec f) s).unflushed ≤ s.opts.max_unflushed)
    → contents (chunk_codec f) (flush (chunk_codec f) answers meanwhile s).0
      ≡ contents (chunk_codec f) s ++ meanwhile
flush_keeps_readings f answers meanwhile s total words short ids h =
    contents-flush (chunk_codec f) answers meanwhile s (words, short)
      (λ e. ids ((encode_chunk-none_iff f s.buf total).0 e)) h
