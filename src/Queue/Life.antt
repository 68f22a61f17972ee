-- ===== src/Queue/Life.antt =====
-- The life of a store of internal/queue: its operations, in any order and with any answers of the
-- driver but to the reading of the counters, the flushes with what comes in meanwhile, and restarts of the program.
use nx_iio_t_gateway_max_gat.Shared.{ℕ, Bool, List, Option}
use nx_iio_t_gateway_max_gat.Queue.Types.{Reading}
use nx_iio_t_gateway_max_gat.Queue.Db.{Db, Answers}
use nx_iio_t_gateway_max_gat.Queue.Store.{
  Codec, Options, Store, DiscardAnswers, CounterReads, open_store, append, flush, read_batch, ack,
}
use nx_iio_t_gateway_max_gat.Queue.Store.Counters.{
  IsSound, IsConsistent, IsRead, open_store-IsConsistent, append-IsConsistent, flush-IsConsistent,
  ack-IsConsistent,
}
use nx_iio_t_gateway_max_gat.Queue.Store.Batch.{read_batch-IsConsistent}
use nx_iio_t_gateway_max_gat.Queue.Capacity.{Floats, Pass, maintain}
use nx_iio_t_gateway_max_gat.Queue.Capacity.Evict.{maintain-IsConsistent}

module _ (c : Codec) (f : Floats) where
  -- A restart keeps the file and loses the rest. It is one that can read the counters.
  pub data Step : Store → Store → Type 0 where
    appended : (s : Store) (r : Reading) → Step s (append r s)
    flushed :
        (s : Store) (answers : Answers) (meanwhile : List Reading)
        → Step s (flush c answers meanwhile s).0
    read :
        (s : Store) (queried : Bool) (answers : List DiscardAnswers) (limit : ℕ)
        → Step s (read_batch c queried answers limit s).0
    acknowledged :
        (s : Store) (answers bounds : Answers) (t : ℕ) → Step s (ack answers bounds t s).0
    maintained :
        (s : Store) (pages : Option (ℕ × ℕ)) (passes : ℕ → Pass)
        → Step s (maintain f pages passes s)
    restarted :
        (s : Store) (o : Options) (bytes : ℕ) (reads : CounterReads) (answers : Answers)
        → IsRead reads
        → Step s (open_store o s.db bytes reads answers)

  pub data Reach (s : Store) : Store → Type 0 where
    here : Reach s s
    next : {t u : Store} → Reach s t → Step t u → Reach s u

  Step-IsConsistent : {s t : Store} → Step s t → IsConsistent s → IsConsistent t
  Step-IsConsistent (appended s r) v = append-IsConsistent r s v
  Step-IsConsistent (flushed s answers meanwhile) v = flush-IsConsistent c answers meanwhile s v
  Step-IsConsistent (read s queried answers limit) v =
      read_batch-IsConsistent c queried answers limit s v
  Step-IsConsistent (acknowledged s answers bounds t) v = ack-IsConsistent answers bounds t s v
  Step-IsConsistent (maintained s pages passes) v = maintain-IsConsistent f pages passes s v
  Step-IsConsistent (restarted s o bytes reads answers r) v =
      open_store-IsConsistent o s.db bytes reads answers v.file r

  reached-IsConsistent : {s t : Store} → IsConsistent s → Reach s t → IsConsistent t
  reached-IsConsistent v here = v
  reached-IsConsistent v (next way step) = Step-IsConsistent step (reached-IsConsistent v way)

  -- Whatever the store does since it was opened on a sound file, in any order, with errors of the
  -- driver at any statement, corrupt chunks, evictions and restarts, and as long as each opening can
  -- read the three counters of the file: the seqs of the rows rise, the counters of the file count
  -- its rows and readings, and those in memory agree with them.
  pub Reach-IsConsistent :
      (o : Options) (db : Db) (bytes : ℕ) (reads : CounterReads) (answers : Answers) (s : Store)
      → IsSound db
      → IsRead reads
      → Reach (open_store o db bytes reads answers) s
      → IsConsistent s
  Reach-IsConsistent o db bytes reads answers s v r way =
      reached-IsConsistent (open_store-IsConsistent o db bytes reads answers v r) way
