-- ===== src/Server.antt =====
-- cmd/server-demo/store.go: the store of the demo server, which removes duplicate chunks and finds
-- the gaps that evictions left. The writer behind it is a parameter; maps are association lists, and
-- seqs are int64 bit patterns.
pub mod Ingest
pub mod Settings
pub mod Process
use nx_iio_t_gateway_max_gat.Shared.{
  ℕ, suc, ◌+◌, ◌-◌, ◌≡◌, Bool, true, false, not, ◌&&◌, List, [], ◌∷◌, ◌++◌, Option, none, some, ltb,
  leb, ◌==◌, if◌then◌else◌, length, take, drop, wrap64, add64, sub64, lt64,
}
use nx_iio_t_gateway_max_gat.Queue.Codec.Names.{same_bytes}
use nx_iio_t_gateway_max_gat.Forwarder.Wire.{WireReading, WireChunk, Message}

abbrev pub Text : Type 0
Text = List ℕ

pub record StreamKey : Type 0 where
  pub gateway_id : Text
  pub stream_id : Text

pub record ChunkKey : Type 0 where
  pub stream : StreamKey
  pub seq : ℕ

-- One value that was received.
pub record Received : Type 0 where
  pub key : ChunkKey
  pub reading : WireReading

pub record Gap : Type 0 where
  pub stream : StreamKey
  pub from_seq : ℕ
  pub to_seq : ℕ
  pub at : ℕ

-- The key of a datapoint and what was last seen of it.
pub record DatapointSeen : Type 0 where
  pub gateway_id : Text
  pub device_id : ℕ
  pub datapoint_id : ℕ
  pub last_ts : Text
  pub last_value : Option ℕ
  pub last_quality : Text

pub record GatewayStats : Type 0 where
  pub id : Text
  pub last_seen : Option ℕ
  pub messages : ℕ
  pub readings : ℕ
  pub duplicate_chunks : ℕ
  pub gap_count : ℕ
  pub missing_chunks : ℕ
  pub rejected : ℕ
  pub last_error : Text
  pub streams : List (Text × ℕ)

-- `writeChunks` and `writeGap`: the error's text, or `none`.
pub record Writer : Type 1 where
  pub W : Type 0
  pub write_chunks : StreamKey → List WireChunk → W → W × Option Text
  pub write_gap : Gap → W → W × Option Text

unfoldable pub same_stream : StreamKey → StreamKey → Bool
same_stream a b = same_bytes a.gateway_id b.gateway_id && same_bytes a.stream_id b.stream_id

unfoldable pub same_chunk : ChunkKey → ChunkKey → Bool
unfolding same_stream
same_chunk a b = same_stream a.stream b.stream && a.seq == b.seq

-- s.seen[k].
unfoldable pub is_seen : ChunkKey → List ChunkKey → Bool
unfolding same_chunk
is_seen k [] = false
is_seen k (k' ∷ seen) = if same_chunk k k' then true else is_seen k seen

-- s.lastSeq[k], and the write to it.
unfoldable pub last_of : StreamKey → List (StreamKey × ℕ) → Option ℕ
unfolding same_stream
last_of k [] = none
last_of k ((k', n) ∷ last) = if same_stream k k' then some n else last_of k last

unfoldable pub or_zero : Option ℕ → ℕ
or_zero none = 0
or_zero (some n) = n

abbrev put_stream : Text → ℕ → List (Text × ℕ) → List (Text × ℕ)
put_stream t n streams = (t, n) ∷ streams

-- Texts in the order of their bytes.
unfoldable pub at_least : Text → Text → Bool
at_least [] [] = true
at_least [] (b ∷ bs) = false
at_least (a ∷ as') [] = true
at_least (a ∷ as') (b ∷ bs) = if a == b then at_least as' bs else ltb b a

module _ (wr : Writer) where
  pub record Store : Type 0 where
    pub out : Option wr.W
    pub seen : List ChunkKey
    pub last_seq : List (StreamKey × ℕ)
    pub received : List Received
    pub stats : List GatewayStats
    pub datapoints : List DatapointSeen
    pub gaps : List Gap

  abbrev pub max_received : ℕ
  max_received = 10000

  unfoldable pub new_store : Option wr.W → Store
  new_store out = record {
    out = out;
    seen = [];
    last_seq = [];
    received = [];
    stats = [];
    datapoints = [];
    gaps = [];
  }

  new_gateway : Text → GatewayStats
  new_gateway id = record {
    id = id;
    last_seen = none;
    messages = 0;
    readings = 0;
    duplicate_chunks = 0;
    gap_count = 0;
    missing_chunks = 0;
    rejected = 0;
    last_error = [];
    streams = [];
  }

  -- `gw` and a change of the entry that it returns.
  change_gateway : Text → (GatewayStats → GatewayStats) → List GatewayStats → List GatewayStats
  unfolding new_gateway
  change_gateway id f [] = f (new_gateway id) ∷ []
  change_gateway id f (g ∷ gs) = if same_bytes id g.id then f g ∷ gs else g ∷ change_gateway id f gs

  change_stats : Text → (GatewayStats → GatewayStats) → Store → Store
  unfolding change_gateway
  change_stats id f s = record s { stats = change_gateway id f s.stats }

  unfoldable pub note_message : ℕ → Text → Store → Store
  unfolding change_stats
  note_message now id s =
      change_stats id (λ g. record g { messages = add64 g.messages 1; last_seen = some now }) s

  unfoldable pub note_rejected : Text → Text → Store → Store
  unfolding change_stats
  note_rejected id reason s =
      change_stats id (λ g. record g { rejected = add64 g.rejected 1; last_error = reason }) s

  -- The first loop: the chunks not seen before.
  unfoldable pub fresh_of : StreamKey → List ChunkKey → List WireChunk → List WireChunk
  fresh_of k seen [] = []
  fresh_of k seen (c ∷ cs) =
      if is_seen (record { stream = k; seq = c.seq }) seen
      then fresh_of k seen cs
      else c ∷ fresh_of k seen cs

  found_gap : Gap → Store → Store
  unfolding change_stats
  found_gap gp s =
      change_stats gp.stream.gateway_id
        (λ g. record g {
          gap_count = add64 g.gap_count 1;
          missing_chunks = add64 g.missing_chunks (add64 (sub64 gp.to_seq gp.from_seq) 1);
        })
        (record s {
          gaps = take 100 (gp ∷ s.gaps);
          out = elim s.out [ none ↦ none | some w ↦ some (wr.write_gap gp w).0 ];
        })

  look_for_gap : ℕ → StreamKey → ℕ → Option ℕ → Store → Store
  unfolding found_gap
  look_for_gap now k seq none s = s
  look_for_gap now k seq (some last) s =
      if lt64 (add64 last 1) seq
      then found_gap
          (record { stream = k; from_seq = add64 last 1; to_seq = sub64 seq 1; at = now }) s
      else s

  advance : StreamKey → ℕ → Store → Store
  unfolding change_stats
  advance k seq s =
      if lt64 (or_zero (last_of k s.last_seq)) seq
      then change_stats k.gateway_id
          (λ g. record g { streams = put_stream k.stream_id seq g.streams })
          (record s { last_seq = (k, seq) ∷ s.last_seq })
      else s

  seen_now : WireReading → DatapointSeen → DatapointSeen
  seen_now r d =
      if at_least r.timestamp d.last_ts
      then record d { last_ts = r.timestamp; last_value = r.value; last_quality = r.quality }
      else d

  note_datapoint : Text → WireReading → List DatapointSeen → List DatapointSeen
  unfolding seen_now
  note_datapoint id r [] =
      seen_now r (record {
        gateway_id = id;
        device_id = r.device_id;
        datapoint_id = r.datapoint_id;
        last_ts = [];
        last_value = none;
        last_quality = [];
      })
      ∷ []
  note_datapoint id r (d ∷ ds) =
      if same_bytes id d.gateway_id
        && (r.device_id == d.device_id && r.datapoint_id == d.datapoint_id)
      then seen_now r d ∷ ds
      else d ∷ note_datapoint id r ds

  -- The loop over the readings of a chunk.
  keep_readings : ChunkKey → List WireReading → Store → Store
  unfolding note_datapoint
  keep_readings k [] s = s
  keep_readings k (r ∷ rs) s = keep_readings k rs (record s {
    received = s.received ++ record { key = k; reading = r } ∷ [];
    datapoints = note_datapoint k.stream.gateway_id r s.datapoints;
  })

  keep_chunk : ℕ → StreamKey → WireChunk → Store → Store
  unfolding look_for_gap advance keep_readings
  keep_chunk now k c s =
      let key : ChunkKey = record { stream = k; seq = c.seq } in
      let noted =
        look_for_gap now k c.seq (last_of k s.last_seq) (record s { seen = key ∷ s.seen }) in
      keep_readings key c.readings (advance k c.seq noted)

  -- The loop over the fresh chunks, with `accepted`.
  keep_all : ℕ → StreamKey → List WireChunk → ℕ → Store → Store × ℕ
  unfolding keep_chunk
  keep_all now k [] accepted s = (s, accepted)
  keep_all now k (c ∷ cs) accepted s =
      keep_all now k cs (accepted + length c.readings) (keep_chunk now k c s)

  trim : Store → Store
  trim s =
      if ltb max_received (length s.received)
      then record s { received = drop (length s.received - max_received) s.received }
      else s

  pub record Ingested : Type 0 where
    pub store : Store
    pub accepted : ℕ
    pub duplicates : ℕ
    pub error : Option Text

  keep_fresh : ℕ → StreamKey → List WireChunk → ℕ → Store → Ingested
  unfolding keep_all trim change_stats
  keep_fresh now k fresh dups s =
      let kept = keep_all now k fresh 0 s in
      record {
        store = trim (
            change_stats k.gateway_id
              (λ g. record g { readings = add64 g.readings (wrap64 kept.1); last_error = [] })
              kept.0);
        accepted = kept.1;
        duplicates = dups;
        error = none;
      }

  -- Without a writer, or without fresh chunks, nothing is written.
  write_fresh : ℕ → StreamKey → List WireChunk → ℕ → Option wr.W → Store → Ingested
  unfolding keep_fresh
  write_fresh now k fresh dups none s = keep_fresh now k fresh dups s
  write_fresh now k [] dups (some w) s = keep_fresh now k [] dups s
  write_fresh now k (c ∷ cs) dups (some w) s =
      let written = wr.write_chunks k (c ∷ cs) w in
      let s' : Store = record s { out = some written.0 } in
      elim written.1 [
        | none ↦ keep_fresh now k (c ∷ cs) dups s'
        | some e ↦ record {
          store = note_rejected k.gateway_id e s';
          accepted = 0;
          duplicates = dups;
          error = some e;
        }
      ]

  -- The whole `ingest`; `now` is its time.
  unfoldable pub ingest : ℕ → Message → Store → Ingested
  unfolding write_fresh change_stats
  ingest now m s =
      let k : StreamKey = record { gateway_id = m.gateway_id; stream_id = m.stream_id } in
      let fresh = fresh_of k s.seen m.chunks in
      let dups = length m.chunks - length fresh in
      write_fresh now k fresh dups s.out (
        change_stats k.gateway_id
          (λ g. record g { duplicate_chunks = add64 g.duplicate_chunks (wrap64 dups) }) s)
