-- ===== src/Queue/Store.antt =====
-- internal/queue/store.go: the store over queue.db. A method takes the store and the driver's
-- answers, and returns the store with its result. The lock `mu` makes each step below atomic.
pub mod Counters
pub mod Batch
pub mod Contents
use nx_iio_t_gateway_max_gat.Shared.{
  ℕ, zero, suc, ◌+◌, ◌-◌, ◌≡◌, refl, Bool, true, false, not, List, [], ◌∷◌, ◌++◌, Option, none,
  some, ltb, leb, ◌==◌, if◌then◌else◌, length, take, drop, wrap64, add64, sub64, lt64, min64, max64,
  is_neg64, ◌||◌,
}
use nx_iio_t_gateway_max_gat.Queue.Types.{Reading, Chunk}
use nx_iio_t_gateway_max_gat.Queue.Db.{
  PendingChunk, Row, Db, Answers, Outcome, done, failed, statement, query, insert_chunks,
  acknowledged, delete_through, discard_row,
}

-- What the store asks of codec.go: `Queue.Codec` fills it.
pub record Codec : Type 1 where
  pub encode : List Reading → Option (List ℕ)
  pub decode : List ℕ → Option (List Reading)
  pub IsBatch : List Reading → Type 0
  pub decode-encode :
      (rs : List Reading) (blob : List ℕ)
      → IsBatch rs
      → encode rs ≡ some blob
      → decode blob ≡ some rs

-- The options that the operations read, after the defaults of `Open`.
pub record Options : Type 0 where
  pub max_bytes : ℕ
  pub flush_interval : ℕ
  pub maintenance_interval : ℕ
  pub max_unflushed : ℕ

-- `if v <= 0 { v = default }` on an int64.
abbrev pub default64 : ℕ → ℕ → ℕ
default64 d v = if v == 0 || is_neg64 v then d else v

-- 1 GiB, 2 s, 30 s and 150 chunks; durations are nanoseconds.
unfoldable pub with_defaults : Options → Options
with_defaults o = record {
  max_bytes = default64 1073741824 o.max_bytes;
  flush_interval = default64 2000000000 o.flush_interval;
  maintenance_interval = default64 30000000000 o.maintenance_interval;
  max_unflushed = default64 150 o.max_unflushed;
}

pub record RateSample : Type 0 where
  pub taken_at : ℕ
  pub total : ℕ

pub record Store : Type 0 where
  pub db : Db
  pub opts : Options
  pub appended : ℕ
  pub buf : List Reading
  pub unflushed : List PendingChunk
  pub pending_chunks : ℕ
  pub pending_readings : ℕ
  pub oldest_ts : ℕ
  pub newest_ts : ℕ
  pub db_bytes : ℕ
  pub evicted : ℕ
  pub dropped : ℕ
  pub rates : List RateSample
  pub written_bytes : ℕ
  pub written_readings : ℕ

abbrev first_ts_of : List Row → ℕ
first_ts_of [] = 0
first_ts_of (r ∷ rs) = r.first_ts

abbrev last_ts_of : List Row → ℕ
last_ts_of [] = 0
last_ts_of (r ∷ []) = r.last_ts
last_ts_of (r ∷ r' ∷ rs) = last_ts_of (r' ∷ rs)

-- Both lookups, or an early return that keeps the old bounds. No row reads as 0.
unfoldable pub refresh_bounds : Answers → Store → Store
refresh_bounds [] s = record s {
  oldest_ts = first_ts_of s.db.rows;
  newest_ts = last_ts_of s.db.rows;
}
refresh_bounds (false ∷ answers) s = s
refresh_bounds (true ∷ false ∷ answers) s = s
refresh_bounds (true ∷ answers) s = record s {
  oldest_ts = first_ts_of s.db.rows;
  newest_ts = last_ts_of s.db.rows;
}

-- Which counters of the file the driver can read when the store is opened.
pub record CounterReads : Type 0 where
  pub chunks : Bool
  pub readings : Bool
  pub evictions : Bool

-- metaInt: a counter that cannot be read is logged, and counts 0.
unfoldable pub meta_int : Bool → ℕ → ℕ
meta_int read value = if read then value else 0

-- The part of `init` that reads the counters of the file.
unfoldable pub open_store : Options → Db → ℕ → CounterReads → Answers → Store
unfolding with_defaults refresh_bounds meta_int
open_store o db bytes reads answers = refresh_bounds answers (record {
  db = db;
  opts = with_defaults o;
  appended = 0;
  buf = [];
  unflushed = [];
  pending_chunks = meta_int reads.chunks db.meta_chunks;
  pending_readings = meta_int reads.readings db.meta_readings;
  oldest_ts = 0;
  newest_ts = 0;
  db_bytes = bytes;
  evicted = meta_int reads.evictions db.meta_evicted;
  dropped = 0;
  rates = [];
  written_bytes = 0;
  written_readings = 0;
})

unfoldable pub append : Reading → Store → Store
append r s = record s { buf = s.buf ++ r ∷ []; appended = add64 s.appended 1 }

-- The loop over `readings[1:]`, from the time of the first.
span : ℕ → ℕ → List Reading → ℕ × ℕ
span first last [] = (first, last)
span first last (r ∷ rs) = span (min64 first r.time) (max64 last r.time) rs

pending_of : Reading → List Reading → List ℕ → PendingChunk
unfolding span
pending_of r rs blob =
    let (first, last) = span r.time r.time rs in
    record { first_ts = first; last_ts = last; n = wrap64 (suc (length rs)); blob = blob }

-- The first critical section of `Flush`: the buffer becomes one more chunk, or is dropped.
add_encoded : Reading → List Reading → Option (List ℕ) → Store → Store
unfolding pending_of
add_encoded r rs none s = record s {
  buf = [];
  dropped = add64 s.dropped (wrap64 (suc (length rs)));
}
add_encoded r rs (some blob) s = record s {
  buf = [];
  unflushed = s.unflushed ++ pending_of r rs blob ∷ [];
}

unfoldable pub drain : Codec → Store → Store
unfolding add_encoded
drain c s = elim s.buf [ [] ↦ s | r ∷ rs ↦ add_encoded r rs (c.encode (r ∷ rs)) s ]

-- The loop over the batch that was written.
count_written : List PendingChunk → Store → Store
count_written [] s = s
count_written (c ∷ cs) s = count_written cs (record s {
  pending_chunks = add64 s.pending_chunks 1;
  pending_readings = add64 s.pending_readings c.n;
  written_bytes = add64 s.written_bytes (wrap64 (length c.blob));
  written_readings = add64 s.written_readings c.n;
  oldest_ts = if s.oldest_ts == 0 then c.first_ts else s.oldest_ts;
  newest_ts = max64 s.newest_ts c.last_ts;
})

-- The loop over the chunks that do not fit.
count_dropped : ℕ → List PendingChunk → ℕ
count_dropped dropped [] = dropped
count_dropped dropped (c ∷ cs) = count_dropped (add64 dropped c.n) cs

-- The second critical section, after a write that failed or succeeded.
unfoldable pub write_failed : Store → Store
unfolding count_dropped
write_failed s =
    let over = length s.unflushed - s.opts.max_unflushed in
    if ltb 0 over
    then record s {
      dropped = count_dropped s.dropped (take over s.unflushed);
      unflushed = drop over s.unflushed;
    }
    else s

unfoldable pub write_succeeded : List PendingChunk → Db → Store → Store
unfolding count_written
write_succeeded batch db s =
    count_written batch (record s { db = db; unflushed = drop (length batch) s.unflushed })

-- What was appended while the batch was being written.
unfoldable pub append_all : List Reading → Store → Store
unfolding append
append_all [] s = s
append_all (r ∷ rs) s = append_all rs (append r s)

settle : List PendingChunk → Outcome (Unit {0}) → Store → Store × Bool
unfolding write_failed write_succeeded
settle batch (done _ answers db) s = (write_succeeded batch db s, true)
settle batch (failed answers) s = (write_failed s, false)

write : Answers → List Reading → List PendingChunk → Store → Store × Bool
unfolding settle append_all
write answers meanwhile [] s = (append_all meanwhile s, true)
write answers meanwhile (c ∷ cs) s =
    settle (c ∷ cs) (insert_chunks (c ∷ cs) answers s.db) (append_all meanwhile s)

-- `Flush`, with the readings that other goroutines append during the write. `flushMu` keeps any
-- other flush out.
unfoldable pub flush : Codec → Answers → List Reading → Store → Store × Bool
unfolding drain write
flush c answers meanwhile s = write answers meanwhile (drain c s).unflushed (drain c s)

abbrev pub rate_window : ℕ
rate_window = 16

unfoldable pub sample_rate : ℕ → Store → Store
sample_rate now s =
    let rates = s.rates ++ record { taken_at = now; total = s.appended } ∷ [] in
    record s {
      rates =
          if ltb rate_window (length rates) then drop (length rates - rate_window) rates else rates;
    }

ack_done : Answers → Outcome (ℕ × ℕ) → Store → Store × Bool
unfolding refresh_bounds
ack_done bounds (failed answers) s = (s, false)
ack_done bounds (done (chunks, readings) answers db) s = (
  refresh_bounds bounds (record s {
    db = db;
    pending_chunks = sub64 s.pending_chunks chunks;
    pending_readings = sub64 s.pending_readings readings;
  }),
  true,
)

-- `Ack`; `bounds` are the answers to `refreshBounds`.
unfoldable pub ack : Answers → Answers → ℕ → Store → Store × Bool
unfolding ack_done
ack answers bounds through s = ack_done bounds (delete_through acknowledged through answers s.db) s

discard_done : ℕ → Answers → Outcome Bool → Store → Store × Bool
unfolding refresh_bounds
discard_done n bounds (failed answers) s = (s, false)
discard_done n bounds (done false answers db) s = (record s { db = db }, true)
discard_done n bounds (done true answers db) s = (
  refresh_bounds bounds (record s {
    db = db;
    pending_chunks = sub64 s.pending_chunks 1;
    pending_readings = sub64 s.pending_readings n;
    dropped = add64 s.dropped n;
  }),
  true,
)

unfoldable pub discard : Answers → Answers → ℕ → ℕ → Store → Store × Bool
unfolding discard_done
discard answers bounds seq n s = discard_done n bounds (discard_row seq n answers s.db) s

abbrev pub read_batch_scan_limit : ℕ
read_batch_scan_limit = 500

-- The loop over the rows of the query: it stops after the row that reaches `limit`.
unfoldable pub scan_rows : ℕ → ℕ → List Row → List Row
scan_rows limit total [] = []
scan_rows limit total (r ∷ rs) =
    let rest = scan_rows limit (add64 total r.n) rs in
    r ∷ (if lt64 (add64 total r.n) limit then rest else [])

-- The answers to one `discard` and to its `refreshBounds`.
abbrev pub DiscardAnswers : Type 0
DiscardAnswers = Answers × Answers

abbrev next_answers : List DiscardAnswers → DiscardAnswers
next_answers [] = ([], [])
next_answers (a ∷ as') = a

abbrev later_answers : List DiscardAnswers → List DiscardAnswers
later_answers [] = []
later_answers (a ∷ as') = as'

-- The second loop of `ReadBatch`: `none` is the error of a discard.
unfoldable pub decode_rows :
    Codec → List DiscardAnswers → List Chunk → List Row → Store → Store × Option (List Chunk)
decode_rows c answers chunks [] s = (s, some chunks)
decode_rows c answers chunks (r ∷ rs) s = elim (c.decode r.blob) [
  | some readings ↦
      decode_rows c answers (chunks ++ record { seq = r.seq; readings = readings } ∷ []) rs s
  | none ↦
      let step = discard (next_answers answers).0 (next_answers answers).1 r.seq r.n s in
      elim step.1 [
        | true ↦ decode_rows c (later_answers answers) chunks rs step.0
        | false ↦ (step.0, none)
      ]
]

-- `ReadBatch`; the first answer is the query's, its rows included.
unfoldable pub read_batch :
    Codec → Bool → List DiscardAnswers → ℕ → Store → Store × Option (List Chunk)
unfolding scan_rows decode_rows
read_batch c false answers limit s = (s, none)
read_batch c true answers limit s =
    decode_rows c answers [] (scan_rows limit 0 (take read_batch_scan_limit s.db.rows)) s
