-- ===== src/Queue/Store/Counters.antt =====
-- The counters of internal/queue/store.go, in memory and in the table `meta`, against the rows.
use nx_iio_t_gateway_max_gat.Shared.{
  ℕ, ◌+◌, ◌%◌, ◌<◌, ◌≡◌, refl, sym, ap, ◌∙◌, inl, inr, Bool, true, false, List, [], ◌∷◌, arith,
  ◌==◌, if◌then◌else◌, max64, length, drop, wrap64, add64, two64,
}
use nx_iio_t_gateway_max_gat.Queue.Types.{Reading}
use nx_iio_t_gateway_max_gat.Queue.Db.{
  PendingChunk, Row, Db, Answers, Outcome, done, failed, Reason, acknowledged, evicted_for_space,
  total_pending, total_rows, rows_at,
}
use nx_iio_t_gateway_max_gat.Queue.Db.Rules.{
  Yields, stored, insert_chunks-Yields, deleted, DeletedThrough, delete_through-Yields, Discarded,
  without_row, discard_row-Yields,
}
use nx_iio_t_gateway_max_gat.Queue.Db.Rows.{
  Ordered, rows_after-Ordered, rows_but-Ordered, insert_all-Ordered, length-insert_all,
  total-insert_all, insert_all_counters, length-rows_through, total_rows_through, length-rows_at,
  total_rows_at,
}
use nx_iio_t_gateway_max_gat.Queue.Store.{
  Codec, Options, Store, CounterReads, meta_int, open_store, refresh_bounds, append, append_all,
  drain, count_written, write_failed, write_succeeded, settle, write, flush, ack_done, ack,
  discard_done, discard,
}

-- The file by itself: seqs rise, and `meta` counts the rows and their readings.
pub record IsSound (db : Db) : Type 0 where
  pub order : Ordered 0 db.next_seq db.rows
  pub meta_chunks : db.meta_chunks ≡ wrap64 (length db.rows)
  pub meta_readings : db.meta_readings ≡ wrap64 (total_rows db.rows)
  pub evicted_word : db.meta_evicted < two64

-- The counters in memory agree with the file.
pub record IsConsistent (s : Store) : Type 0 where
  pub file : IsSound s.db
  pub chunks : s.pending_chunks ≡ wrap64 (length s.db.rows)
  pub readings : s.pending_readings ≡ wrap64 (total_rows s.db.rows)
  pub evictions : s.evicted ≡ s.db.meta_evicted

pub stored-IsSound : (batch : List PendingChunk) (db : Db) → IsSound db → IsSound (stored batch db)
stored-IsSound batch db v = record {
  order = insert_all-Ordered batch db v.order;
  meta_chunks =
      omega (arith, v.meta_chunks, length-insert_all batch db, insert_all_counters batch db);
  meta_readings =
      omega (arith, v.meta_readings, total-insert_all batch db, insert_all_counters batch db);
  evicted_word = omega (arith, v.evicted_word, insert_all_counters batch db);
}

pub deleted-IsSound : (why : Reason) (t : ℕ) (db : Db) → IsSound db → IsSound (deleted why t db)
deleted-IsSound acknowledged t db v = record {
  order = rows_after-Ordered t 0 db.next_seq db.rows v.order;
  meta_chunks = omega (arith, v.meta_chunks, length-rows_through t db.rows);
  meta_readings = omega (arith, v.meta_readings, total_rows_through t db.rows);
  evicted_word = omega (arith, v.evicted_word);
}
deleted-IsSound evicted_for_space t db v = record {
  order = rows_after-Ordered t 0 db.next_seq db.rows v.order;
  meta_chunks = omega (arith, v.meta_chunks, length-rows_through t db.rows);
  meta_readings = omega (arith, v.meta_readings, total_rows_through t db.rows);
  evicted_word = omega (arith, v.evicted_word);
}

pub refresh_bounds-IsConsistent :
    (answers : Answers) (s : Store) → IsConsistent s → IsConsistent (refresh_bounds answers s)
unfolding refresh_bounds
refresh_bounds-IsConsistent [] s v = ground arith
refresh_bounds-IsConsistent (false ∷ answers) s v = v
refresh_bounds-IsConsistent (true ∷ []) s v = ground arith
refresh_bounds-IsConsistent (true ∷ false ∷ answers) s v = v
refresh_bounds-IsConsistent (true ∷ true ∷ answers) s v = ground arith

-- Every counter is read.
pub record IsRead (reads : CounterReads) : Type 0 where
  pub chunks : reads.chunks ≡ true
  pub readings : reads.readings ≡ true
  pub evictions : reads.evictions ≡ true

-- A store opened on a sound file agrees with it, when it can read the counters.
pub open_store-IsConsistent :
    (o : Options) (db : Db) (bytes : ℕ) (reads : CounterReads) (answers : Answers)
    → IsSound db
    → IsRead reads
    → IsConsistent (open_store o db bytes reads answers)
unfolding open_store meta_int
open_store-IsConsistent o db bytes reads answers v r =
    rw (r.chunks, r.readings, r.evictions)
      (refresh_bounds-IsConsistent answers _
        (record { file = v; chunks = v.meta_chunks; readings = v.meta_readings; evictions = refl }))

-- Appending keeps the counters in step with the file.
pub append-IsConsistent : (r : Reading) (s : Store) → IsConsistent s → IsConsistent (append r s)
unfolding append
append-IsConsistent r s v = ground arith

append_all-IsConsistent :
    (rs : List Reading) (s : Store) → IsConsistent s → IsConsistent (append_all rs s)
unfolding append_all
append_all-IsConsistent [] s v = v
append_all-IsConsistent (r ∷ rs) s v =
    append_all-IsConsistent rs (append r s) (append-IsConsistent r s v)

-- Appending touches neither the file nor the chunks that wait.
pub append_all_keeps :
    (rs : List Reading) (s : Store)
    → ((append_all rs s).db ≡ s.db) × ((append_all rs s).unflushed ≡ s.unflushed)
unfolding append_all
append_all_keeps [] s = (refl, refl)
append_all_keeps (r ∷ rs) s = append_all_keeps rs (append r s)

drain-IsConsistent : (c : Codec) (s : Store) → IsConsistent s → IsConsistent (drain c s)
unfolding drain
drain-IsConsistent c s v = ground arith

count_written_counters :
    (cs : List PendingChunk) (s : Store)
    → s.pending_chunks < two64
    → s.pending_readings < two64
    → ((count_written cs s).pending_chunks ≡ (s.pending_chunks + length cs) % two64)
      × ((count_written cs s).pending_readings ≡ (s.pending_readings + total_pending cs) % two64)
      × ((count_written cs s).db ≡ s.db)
      × ((count_written cs s).evicted ≡ s.evicted)
unfolding count_written
count_written_counters [] s h k = (omega arith, omega arith, refl, refl)
count_written_counters (c ∷ cs) s h k =
    let s' = record s {
      pending_chunks = add64 s.pending_chunks 1;
      pending_readings = add64 s.pending_readings c.n;
      written_bytes = add64 s.written_bytes (wrap64 (length c.blob));
      written_readings = add64 s.written_readings c.n;
      oldest_ts = if s.oldest_ts == 0 then c.first_ts else s.oldest_ts;
      newest_ts = max64 s.newest_ts c.last_ts;
    } in
    let ih = count_written_counters cs s' (omega arith) (omega arith) in
    (omega (arith, ih.0), omega (arith, ih.1), ih.2, ih.3)

write_succeeded-IsConsistent :
    (batch : List PendingChunk) (s : Store)
    → IsConsistent s
    → IsConsistent (write_succeeded batch (stored batch s.db) s)
unfolding write_succeeded
write_succeeded-IsConsistent batch s v =
    let after = record s { db = stored batch s.db; unflushed = drop (length batch) s.unflushed } in
    let counted =
      count_written_counters batch after (omega (arith, v.chunks)) (omega (arith, v.readings)) in
    record {
      file = rw (counted.2) (stored-IsSound batch s.db v.file);
      chunks = rw (counted.2) (omega (arith, counted.0, v.chunks, length-insert_all batch s.db));
      readings = rw (counted.2) (omega (arith, counted.1, v.readings, total-insert_all batch s.db));
      evictions = rw (counted.2, counted.3) (v.evictions ∙ sym (insert_all_counters batch s.db).2);
    }

write_failed-IsConsistent : (s : Store) → IsConsistent s → IsConsistent (write_failed s)
unfolding write_failed
write_failed-IsConsistent s v = ground arith

settle-IsConsistent :
    (batch : List PendingChunk) (o : Outcome (Unit {0})) (s : Store)
    → IsConsistent s
    → Yields (λ _ db'. db' ≡ stored batch s.db) o
    → IsConsistent (settle batch o s).0
unfolding settle
settle-IsConsistent batch (done _ answers db) s v h = rw h (write_succeeded-IsConsistent batch s v)
settle-IsConsistent batch (failed answers) s v h = write_failed-IsConsistent s v

write-IsConsistent :
    (answers : Answers) (meanwhile : List Reading) (batch : List PendingChunk) (s : Store)
    → IsConsistent s
    → IsConsistent (write answers meanwhile batch s).0
unfolding write
write-IsConsistent answers meanwhile [] s v = append_all-IsConsistent meanwhile s v
write-IsConsistent answers meanwhile (c ∷ cs) s v =
    settle-IsConsistent (c ∷ cs) _ (append_all meanwhile s) (append_all-IsConsistent meanwhile s v)
      (rw ((append_all_keeps meanwhile s).0) (insert_chunks-Yields (c ∷ cs) answers s.db))

-- A flush keeps the counters in step with the file, whether its write succeeds or fails.
pub flush-IsConsistent :
    (c : Codec) (answers : Answers) (meanwhile : List Reading) (s : Store)
    → IsConsistent s
    → IsConsistent (flush c answers meanwhile s).0
unfolding flush
flush-IsConsistent c answers meanwhile s v =
    write-IsConsistent answers meanwhile (drain c s).unflushed (drain c s)
      (drain-IsConsistent c s v)

ack_done-IsConsistent :
    (bounds : Answers) (t : ℕ) (o : Outcome (ℕ × ℕ)) (s : Store)
    → IsConsistent s
    → Yields (DeletedThrough acknowledged t s.db) o
    → IsConsistent (ack_done bounds o s).0
unfolding ack_done
ack_done-IsConsistent bounds t (failed answers) s v h = v
ack_done-IsConsistent bounds t (done (chunks, readings) answers db) s v (inl (e, c, r, d)) =
    rw (c, r, d)
      (refresh_bounds-IsConsistent bounds _ (record {
        file = v.file;
        chunks = omega (arith, v.chunks);
        readings = omega (arith, v.readings);
        evictions = v.evictions;
      }))
ack_done-IsConsistent bounds t (done (chunks, readings) answers db) s v (inr (c, r, d)) =
    rw (c, r, d)
      (refresh_bounds-IsConsistent bounds _ (record {
        file = deleted-IsSound acknowledged t s.db v.file;
        chunks = omega (arith, v.chunks, length-rows_through t s.db.rows);
        readings = omega (arith, v.readings, total_rows_through t s.db.rows);
        evictions = v.evictions;
      }))

-- An acknowledgement keeps the counters in step with the file, whether or not the driver fails.
pub ack-IsConsistent :
    (answers bounds : Answers) (t : ℕ) (s : Store)
    → IsConsistent s
    → IsConsistent (ack answers bounds t s).0
unfolding ack
ack-IsConsistent answers bounds t s v =
    ack_done-IsConsistent bounds t _ s v (delete_through-Yields acknowledged t answers s.db)

-- A row that stands in the table once.
abbrev pub IsRow : List Row → Row → Type 0
IsRow rows r = rows_at r.seq rows ≡ r ∷ []

without_row-IsSound :
    (r : Row) (db : Db) → IsSound db → IsRow db.rows r → IsSound (without_row r.seq r.n db)
without_row-IsSound r db v there = record {
  order = rows_but-Ordered r.seq 0 db.next_seq db.rows v.order;
  meta_chunks = omega (arith, v.meta_chunks, length-rows_at r.seq db.rows, ap length there);
  meta_readings = omega (arith, v.meta_readings, total_rows_at r.seq db.rows, ap total_rows there);
  evicted_word = v.evicted_word;
}

discard_done-IsConsistent :
    (bounds : Answers) (r : Row) (o : Outcome Bool) (s : Store)
    → IsConsistent s
    → IsRow s.db.rows r
    → Yields (Discarded r.seq r.n s.db) o
    → IsConsistent (discard_done r.n bounds o s).0
unfolding discard_done
discard_done-IsConsistent bounds r (failed answers) s v there h = v
discard_done-IsConsistent bounds r (done false answers db) s v there (inl (e, c, d)) = rw d v
discard_done-IsConsistent bounds r (done false answers db) s v there (inr (c, d)) = cc
discard_done-IsConsistent bounds r (done true answers db) s v there (inl (e, c, d)) = cc
discard_done-IsConsistent bounds r (done true answers db) s v there (inr (c, d)) = rw d (
    refresh_bounds-IsConsistent bounds _ (record {
      file = without_row-IsSound r s.db v.file there;
      chunks = omega (arith, v.chunks, length-rows_at r.seq s.db.rows, ap length there);
      readings = omega (arith, v.readings, total_rows_at r.seq s.db.rows, ap total_rows there);
      evictions = v.evictions;
    }))

-- Discarding a row of the table, with the count it has there, keeps the counters in step.
pub discard-IsConsistent :
    (answers bounds : Answers) (r : Row) (s : Store)
    → IsConsistent s
    → IsRow s.db.rows r
    → IsConsistent (discard answers bounds r.seq r.n s).0
unfolding discard
discard-IsConsistent answers bounds r s v there =
    discard_done-IsConsistent bounds r _ s v there (discard_row-Yields r.seq r.n answers s.db)
