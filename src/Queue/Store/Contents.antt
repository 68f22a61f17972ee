-- ===== src/Queue/Store/Contents.antt =====
-- internal/queue/store.go as a first-in first-out queue of readings: what is in the file, then what
-- waits to be written, then what is buffered.
use nx_iio_t_gateway_max_gat.Shared.{
  ℕ, ◌≤◌, ◌<◌, ◌≡◌, ◌≢◌, refl, sym, ap, ◌∙◌, ◌⊎◌, inl, inr, true, false, List, [], ◌∷◌, ◌++◌,
  append_assoc, append-nil, Option, none, some, arith, Option-cases, length, drop, two64,
}
use nx_iio_t_gateway_max_gat.Queue.Types.{Reading}
use nx_iio_t_gateway_max_gat.Queue.Db.{
  PendingChunk, Row, Db, Answers, Outcome, done, failed, acknowledged, rows_through, rows_after,
  insert_row,
}
use nx_iio_t_gateway_max_gat.Queue.Db.Rules.{
  Yields, stored, insert_all, insert_chunks-Yields, DeletedThrough, delete_through-Yields,
}
use nx_iio_t_gateway_max_gat.Queue.Db.Rows.{rows_split, length-rows_through}
use nx_iio_t_gateway_max_gat.Queue.Store.{
  Codec, Store, append, append_all, drain, add_encoded, pending_of, count_written, write_failed,
  write_succeeded, settle, write, flush, refresh_bounds, ack_done, ack,
}
use nx_iio_t_gateway_max_gat.Queue.Store.Counters.{append_all_keeps, IsConsistent}

length_zero {ℓ} : {A : Type ℓ} (xs : List A) → length xs ≡ 0 → xs ≡ []
length_zero [] h = refl
length_zero (x ∷ xs) h = absurd (omega arith)

module _ (c : Codec) where
  pub decoded : Option (List Reading) → List Reading
  decoded none = []
  decoded (some rs) = rs

  pub of_pending : List PendingChunk → List Reading
  unfolding decoded
  of_pending [] = []
  of_pending (p ∷ ps) = decoded (c.decode p.blob) ++ of_pending ps

  pub of_rows : List Row → List Reading
  unfolding decoded
  of_rows [] = []
  of_rows (r ∷ rs) = decoded (c.decode r.blob) ++ of_rows rs

  pub contents : Store → List Reading
  unfolding of_rows of_pending
  contents s = of_rows s.db.rows ++ (of_pending s.unflushed ++ s.buf)

  of_pending-append :
      (ps qs : List PendingChunk) → of_pending (ps ++ qs) ≡ of_pending ps ++ of_pending qs
  unfolding of_pending
  of_pending-append [] qs = refl
  of_pending-append (p ∷ ps) qs = simp (of_pending-append ps qs, append_assoc)

  of_rows-append : (ps qs : List Row) → of_rows (ps ++ qs) ≡ of_rows ps ++ of_rows qs
  unfolding of_rows
  of_rows-append [] qs = refl
  of_rows-append (p ∷ ps) qs = simp (of_rows-append ps qs, append_assoc)

  of_rows-insert_all :
      (ps : List PendingChunk) (db : Db)
      → of_rows (insert_all ps db).rows ≡ of_rows db.rows ++ of_pending ps
  unfolding insert_all of_pending
  of_rows-insert_all [] db = sym (append-nil _)
  of_rows-insert_all (p ∷ ps) db =
      of_rows-insert_all ps (insert_row p db)
      ∙ rw (of_rows-append db.rows _, append_assoc) (unfold of_rows in rw append-nil refl)

  -- A reading that is appended comes last.
  pub contents-append : (r : Reading) (s : Store) → contents (append r s) ≡ contents s ++ r ∷ []
  unfolding contents append
  contents-append r s = simp append_assoc

  contents-append_all :
      (rs : List Reading) (s : Store) → contents (append_all rs s) ≡ contents s ++ rs
  unfolding append_all
  contents-append_all [] s = sym (append-nil _)
  contents-append_all (r ∷ rs) s =
      contents-append_all rs (append r s)
      ∙ rw (contents-append r s) (append_assoc (contents s) (r ∷ []) rs)

  drained :
      (rs : List Reading) (s : Store)
      → s.buf ≡ rs
      → c.IsBatch rs
      → c.encode rs ≢ none
      → contents (elim rs [ [] ↦ s | q ∷ qs ↦ add_encoded q qs (c.encode (q ∷ qs)) s ]) ≡ contents s
  unfolding contents add_encoded
  drained [] s e b h = refl
  drained (q ∷ qs) s e b h = elim (Option-cases (c.encode (q ∷ qs))) [
    | inl refused ↦ absurd (h refused)
    | inr (blob, good) ↦
        rw (good, add_encoded)
          (rw (of_pending-append s.unflushed (pending_of q qs blob ∷ [])) (
            rw e (
              rw (c.decode-encode (q ∷ qs) blob b good, of_pending)
                (simp (append_assoc, append-nil)))))
  ]

  contents-drain :
      (s : Store) → c.IsBatch s.buf → c.encode s.buf ≢ none → contents (drain c s) ≡ contents s
  unfolding drain
  contents-drain s b h = drained s.buf s refl b h

  count_written_keeps :
      (ps : List PendingChunk) (s : Store)
      → ((count_written ps s).db ≡ s.db)
        × ((count_written ps s).unflushed ≡ s.unflushed)
        × ((count_written ps s).buf ≡ s.buf)
  unfolding count_written
  count_written_keeps [] s = (refl, refl, refl)
  count_written_keeps (p ∷ ps) s = count_written_keeps ps _

  drop_all : (ps : List PendingChunk) → drop (length ps) ps ≡ []
  drop_all [] = refl
  drop_all (p ∷ ps) = drop_all ps

  contents-write_succeeded :
      (s : Store) → contents (write_succeeded s.unflushed (stored s.unflushed s.db) s) ≡ contents s
  unfolding contents write_succeeded
  contents-write_succeeded s =
      let after = record s {
        db = stored s.unflushed s.db;
        unflushed = drop (length s.unflushed) s.unflushed;
      } in
      let (d, u, b) = count_written_keeps s.unflushed after in
      rw (d, u, b)
        (rw (drop_all s.unflushed, of_rows-insert_all s.unflushed s.db)
          (unfold of_pending in append_assoc (of_rows s.db.rows) (of_pending s.unflushed) s.buf))

  -- The chunks that wait are within the limit, so a failed write drops none.
  contents-write_failed :
      (s : Store) → length s.unflushed ≤ s.opts.max_unflushed → write_failed s ≡ s
  unfolding write_failed
  contents-write_failed s h = ground arith

  contents-settle :
      (batch : List PendingChunk) (o : Outcome (Unit {0})) (s : Store)
      → batch ≡ s.unflushed
      → Yields (λ _ db'. db' ≡ stored batch s.db) o
      → ((settle batch o s).1 ≡ true) ⊎ (length s.unflushed ≤ s.opts.max_unflushed)
      → contents (settle batch o s).0 ≡ contents s
  unfolding settle
  contents-settle batch (done _ answers db) s e h k = rw (h, e) (contents-write_succeeded s)
  contents-settle batch (failed answers) s e h (inl k) = cc
  contents-settle batch (failed answers) s e h (inr k) = ap contents (contents-write_failed s k)

  append_all-opts : (rs : List Reading) (s : Store) → (append_all rs s).opts ≡ s.opts
  unfolding append_all
  append_all-opts [] s = refl
  append_all-opts (r ∷ rs) s = append_all-opts rs (append r s)

  contents-write :
      (answers : Answers) (meanwhile : List Reading) (batch : List PendingChunk) (s : Store)
      → batch ≡ s.unflushed
      → ((write answers meanwhile batch s).1 ≡ true) ⊎ (length s.unflushed ≤ s.opts.max_unflushed)
      → contents (write answers meanwhile batch s).0 ≡ contents s ++ meanwhile
  unfolding write
  contents-write answers meanwhile [] s e h = contents-append_all meanwhile s
  contents-write answers meanwhile (p ∷ ps) s e h =
      let (db, waiting) = append_all_keeps meanwhile s in
      contents-settle (p ∷ ps) _ (append_all meanwhile s) (e ∙ sym waiting)
        (rw db (insert_chunks-Yields (p ∷ ps) answers s.db))
        (rw (waiting, append_all-opts meanwhile s) h)
      ∙ contents-append_all meanwhile s

  drain-opts : (s : Store) → (drain c s).opts ≡ s.opts
  unfolding drain
  drain-opts s = ground arith

  -- A flush loses no reading and changes no order, when the buffer can be encoded and either the
  -- write succeeds or the chunks that wait are within the limit: what the queue holds afterwards is
  -- what it held, followed by what was appended during the write.
  pub contents-flush :
      (answers : Answers) (meanwhile : List Reading) (s : Store)
      → c.IsBatch s.buf
      → c.encode s.buf ≢ none
      → ((flush c answers meanwhile s).1 ≡ true)
        ⊎ (length (drain c s).unflushed ≤ s.opts.max_unflushed)
      → contents (flush c answers meanwhile s).0 ≡ contents s ++ meanwhile
  unfolding flush
  contents-flush answers meanwhile s b e h =
      contents-write answers meanwhile (drain c s).unflushed (drain c s) refl (rw (drain-opts s) h)
      ∙ ap (λ l. l ++ meanwhile) (contents-drain s b e)

  contents-refresh_bounds :
      (answers : Answers) (s : Store) → contents (refresh_bounds answers s) ≡ contents s
  unfolding contents refresh_bounds
  contents-refresh_bounds [] s = refl
  contents-refresh_bounds (false ∷ answers) s = refl
  contents-refresh_bounds (true ∷ []) s = refl
  contents-refresh_bounds (true ∷ false ∷ answers) s = refl
  contents-refresh_bounds (true ∷ true ∷ answers) s = refl

  contents_split :
      (t : ℕ) (s s' : Store)
      → IsConsistent s
      → s'.db.rows ≡ rows_after t s.db.rows
      → s'.unflushed ≡ s.unflushed
      → s'.buf ≡ s.buf
      → contents s ≡ of_rows (rows_through t s.db.rows) ++ contents s'
  unfolding contents
  contents_split t s s' v rows waiting buffered =
      rw (rows, waiting, buffered)
        (ap (λ l. l ++ (of_pending s.unflushed ++ s.buf))
            (ap of_rows (rows_split t 0 s.db.next_seq s.db.rows v.file.order)
              ∙ of_rows-append (rows_through t s.db.rows) (rows_after t s.db.rows))
          ∙ append_assoc (of_rows (rows_through t s.db.rows)) (of_rows (rows_after t s.db.rows))
              (of_pending s.unflushed ++ s.buf))

  contents-ack_done :
      (bounds : Answers) (t : ℕ) (o : Outcome (ℕ × ℕ)) (s : Store)
      → IsConsistent s
      → length s.db.rows < two64
      → Yields (DeletedThrough acknowledged t s.db) o
      → (((ack_done bounds o s).1 ≡ false) × ((ack_done bounds o s).0 ≡ s))
        ⊎ (((ack_done bounds o s).1 ≡ true)
            × (contents s ≡ of_rows (rows_through t s.db.rows) ++ contents (ack_done bounds o s).0))
  unfolding ack_done
  contents-ack_done bounds t (failed answers) s v l h = inl (refl, refl)
  contents-ack_done bounds t (done (chunks, readings) answers db) s v l (inl (z, a, b, d)) = inr (
    refl,
    rw (contents-refresh_bounds bounds _, d)
        (rw
          (length_zero (rows_through t s.db.rows) (omega (arith, length-rows_through t s.db.rows)))
          (unfold contents of_rows in refl)),
  )
  contents-ack_done bounds t (done (chunks, readings) answers db) s v l (inr (a, b, d)) =
      inr (refl, rw (contents-refresh_bounds bounds _, d) (contents_split t s _ v refl refl refl))

  -- An acknowledgement takes the chunks up to its seq off the front and nothing else; when the
  -- driver fails, it changes nothing.
  pub contents-ack :
      (answers bounds : Answers) (t : ℕ) (s : Store)
      → IsConsistent s
      → length s.db.rows < two64
      → (((ack answers bounds t s).1 ≡ false) × ((ack answers bounds t s).0 ≡ s))
        ⊎ (((ack answers bounds t s).1 ≡ true)
            × (contents s
                ≡ of_rows (rows_through t s.db.rows) ++ contents (ack answers bounds t s).0))
  unfolding ack
  contents-ack answers bounds t s v l =
      contents-ack_done bounds t _ s v l (delete_through-Yields acknowledged t answers s.db)
