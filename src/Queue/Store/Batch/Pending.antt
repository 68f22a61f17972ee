-- ===== src/Queue/Store/Batch/Pending.antt =====
-- The chunks that wait in internal/queue/store.go, as the forwarder sees them: those that can be
-- decoded, under ReadBatch and Ack.
use nx_iio_t_gateway_max_gat.Shared.{
  ℕ, suc, ◌≤◌, ◌≡◌, ◌⊎◌, refl, sym, ap, ◌∙◌, inl, inr, Bool, true, false, List, [], ◌∷◌, ◌++◌,
  append_assoc, none, some, arith, leb, ◌==◌, Bool-cases, Option-cases, take, drop,
  take-append-drop, All, All-take,
}
use nx_iio_t_gateway_max_gat.Queue.Types.{Chunk}
use nx_iio_t_gateway_max_gat.Queue.Db.{
  Row, Answers, Outcome, done, failed, acknowledged, rows_at, rows_but, rows_after,
}
use nx_iio_t_gateway_max_gat.Queue.Db.Rules.{Yields, DeletedThrough, delete_through-Yields}
use nx_iio_t_gateway_max_gat.Queue.Db.Rows.{Ordered, all_after}
use nx_iio_t_gateway_max_gat.Queue.Store.{
  Codec, Store, discard, DiscardAnswers, next_answers, later_answers, decode_rows, read_batch,
  read_batch_scan_limit, ack_done, ack,
}
use nx_iio_t_gateway_max_gat.Queue.Store.Counters.{IsConsistent, IsRow}
use nx_iio_t_gateway_max_gat.Queue.Store.Batch.{
  scan_rows-take, rows_IsRow, take-Ordered, discard_rows, discard-IsRow, refresh_bounds-db,
}
use nx_iio_t_gateway_max_gat.Queue.Store.Batch.Oldest.{decodable, decode_rows-decodable}
use nx_iio_t_gateway_max_gat.Forwarder.Wire.{last_seq}

module _ (c : Codec) where
  abbrev IsCorrupt : Row → Type 0
  IsCorrupt r = c.decode r.blob ≡ none

  decodable-append : (xs ys : List Row) → decodable c (xs ++ ys) ≡ decodable c xs ++ decodable c ys
  unfolding decodable
  decodable-append [] ys = refl
  decodable-append (x ∷ xs) ys = elim (Option-cases (c.decode x.blob)) [
    | inl corrupt ↦ rw (corrupt, decodable) (decodable-append xs ys)
    | inr (readings, good) ↦
        let here : Chunk = record { seq = x.seq; readings = readings } in
        rw (good, decodable) (ap (λ l. here ∷ l) (decodable-append xs ys))
  ]

  -- Without a corrupt row the rest is the same.
  decodable-rows_but :
      (seq : ℕ) (rs : List Row)
      → All IsCorrupt (rows_at seq rs)
      → decodable c (rows_but seq rs) ≡ decodable c rs
  unfolding decodable
  decodable-rows_but seq [] h = refl
  decodable-rows_but seq (r ∷ rs) h = elim (Bool-cases (r.seq == seq)) [
    | inl here ↦
        let both = rw here at h in rw (here, both.0, decodable) (decodable-rows_but seq rs both.1)
    | inr other ↦
        let later = decodable-rows_but seq rs (rw other at h) in
        elim (Option-cases (c.decode r.blob)) [
          | inl corrupt ↦ rw (other, corrupt, decodable) later
          | inr (readings, good) ↦
              let here : Chunk = record { seq = r.seq; readings = readings } in
              rw (other, good, decodable) (ap (λ l. here ∷ l) later)
        ]
  ]

  discard_keeps :
      (answers bounds : Answers) (r : Row) (s : Store)
      → IsRow s.db.rows r
      → IsCorrupt r
      → decodable c (discard answers bounds r.seq r.n s).0.db.rows ≡ decodable c s.db.rows
  discard_keeps answers bounds r s there corrupt = elim (discard_rows answers bounds r.seq r.n s) [
    | inl same ↦ rw same refl
    | inr gone ↦
        let all : All IsCorrupt (rows_at r.seq s.db.rows) = rw there (corrupt, tt) in
        ap (decodable c) gone ∙ decodable-rows_but r.seq s.db.rows all
  ]

  decode_rows_keeps :
      (answers : List DiscardAnswers) (chunks : List Chunk) (rs : List Row) (lo hi : ℕ) (s : Store)
      → Ordered lo hi rs
      → All (IsRow s.db.rows) rs
      → decodable c (decode_rows c answers chunks rs s).0.db.rows ≡ decodable c s.db.rows
  unfolding decode_rows
  decode_rows_keeps answers chunks [] lo hi s o h = refl
  decode_rows_keeps answers chunks (r ∷ rs) lo hi s o h = elim (Option-cases (c.decode r.blob)) [
    | inr (readings, good) ↦
        rw (good, decode_rows) (decode_rows_keeps answers _ rs (suc r.seq) hi s o.1 h.1)
    | inl corrupt ↦
        let step = discard (next_answers answers).0 (next_answers answers).1 r.seq r.n s in
        let kept =
          discard_keeps (next_answers answers).0 (next_answers answers).1 r s h.0 corrupt in
        elim (Bool-cases step.1) [
          | inl went ↦
              rw (corrupt, decode_rows)
                (rw (went, decode_rows)
                  (decode_rows_keeps (later_answers answers) chunks rs (suc r.seq) hi step.0 o.1
                      (discard-IsRow _ _ r.seq r.n (suc r.seq) hi s rs (omega arith) o.1 h.1)
                    ∙ kept))
          | inr broke ↦ rw (corrupt, decode_rows) (rw (broke, decode_rows) kept)
        ]
  ]

  -- Reading changes nothing of what waits, also when it discards rows or fails on the way.
  pub read_batch_keeps :
      (queried : Bool) (answers : List DiscardAnswers) (limit : ℕ) (s : Store)
      → IsConsistent s
      → decodable c (read_batch c queried answers limit s).0.db.rows ≡ decodable c s.db.rows
  unfolding read_batch
  read_batch_keeps false answers limit s v = refl
  read_batch_keeps true answers limit s v =
      let rows = take read_batch_scan_limit s.db.rows in
      let (n, first) = scan_rows-take limit 0 rows in
      rw first (
        decode_rows_keeps answers [] (take n rows) 0 s.db.next_seq s
          (take-Ordered n 0 _ rows (take-Ordered read_batch_scan_limit 0 _ s.db.rows v.file.order))
          (All-take (IsRow s.db.rows) n rows (
            All-take (IsRow s.db.rows) read_batch_scan_limit s.db.rows
              (rows_IsRow 0 s.db.next_seq s.db.rows v.file.order))))

  decodable-take :
      (n : ℕ) (rs : List Row) → decodable c rs ≡ decodable c (take n rs) ++ decodable c (drop n rs)
  decodable-take n rs =
      ap (decodable c) (sym (take-append-drop n rs)) ∙ decodable-append (take n rs) (drop n rs)

  -- A batch is a front of what waits.
  pub read_batch_front :
      (queried : Bool) (answers : List DiscardAnswers) (limit : ℕ) (s : Store) (chunks : List Chunk)
      → (read_batch c queried answers limit s).1 ≡ some chunks
      → (rest : List Chunk) × (decodable c s.db.rows ≡ chunks ++ rest)
  unfolding read_batch
  read_batch_front false answers limit s chunks h = cc h
  read_batch_front true answers limit s chunks h =
      let rows = take read_batch_scan_limit s.db.rows in
      let beyond = decodable c (drop read_batch_scan_limit s.db.rows) in
      let (n, first) = scan_rows-take limit 0 rows in
      let is_front = decode_rows-decodable c answers [] (take n rows) s chunks (rw first at h) in
      (
        decodable c (drop n rows) ++ beyond,
        rw is_front (
            decodable-take read_batch_scan_limit s.db.rows
            ∙ (ap (λ l. l ++ beyond) (decodable-take n rows)
                ∙ append_assoc (decodable c (take n rows)) (decodable c (drop n rows)) beyond)),
      )

  ack_done_rows :
      (bounds : Answers) (t : ℕ) (o : Outcome (ℕ × ℕ)) (s : Store)
      → Yields (DeletedThrough acknowledged t s.db) o
      → ((ack_done bounds o s).0.db.rows ≡ s.db.rows)
        ⊎ ((ack_done bounds o s).0.db.rows ≡ rows_after t s.db.rows)
  unfolding ack_done
  ack_done_rows bounds t (failed answers) s h = inl refl
  ack_done_rows bounds t (done (chunks, readings) answers db) s (inl (z, a, b, d)) =
      inl (rw (refresh_bounds-db bounds _) (rw d refl))
  ack_done_rows bounds t (done (chunks, readings) answers db) s (inr (a, b, d)) =
      inr (rw (refresh_bounds-db bounds _) (rw d refl))

  pub ack_rows :
      (answers bounds : Answers) (t : ℕ) (s : Store)
      → ((ack answers bounds t s).0.db.rows ≡ s.db.rows)
        ⊎ ((ack answers bounds t s).0.db.rows ≡ rows_after t s.db.rows)
  unfolding ack
  ack_rows answers bounds t s =
      ack_done_rows bounds t _ s (delete_through-Yields acknowledged t answers s.db)

  -- The last seq of a front is not below the rows.
  front_above :
      (lo hi : ℕ) (rs : List Row) (ch : Chunk) (chs rest : List Chunk)
      → Ordered lo hi rs
      → decodable c rs ≡ (ch ∷ chs) ++ rest
      → lo ≤ last_seq ch chs
  unfolding decodable
  front_above lo hi [] ch chs rest o h = cc h
  front_above lo hi (r ∷ rs) ch [] rest o h = elim (Option-cases (c.decode r.blob)) [
    | inl corrupt ↦
        omega
          (arith, front_above (suc r.seq) hi rs ch [] rest o.1 (rw (corrupt, decodable) at h), o.0)
    | inr (readings, good) ↦
        let here : Chunk = record { seq = r.seq; readings = readings } in
        let first : here ≡ ch = cc (rw (good, decodable) at h) in
        omega (arith, ap (λ (x : Chunk). x.seq) first, o.0)
  ]
  front_above lo hi (r ∷ rs) ch (ch' ∷ chs) rest o h = elim (Option-cases (c.decode r.blob)) [
    | inl corrupt ↦ omega (
      arith,
      front_above (suc r.seq) hi rs ch (ch' ∷ chs) rest o.1 (rw (corrupt, decodable) at h),
      o.0,
    )
    | inr (readings, good) ↦
        let later : decodable c rs ≡ (ch' ∷ chs) ++ rest = cc (rw (good, decodable) at h) in
        omega (arith, front_above (suc r.seq) hi rs ch' chs rest o.1 later, o.0)
  ]

  behind :
      (hi : ℕ) (r : Row) (rs : List Row) (ch : Chunk) (chs rest : List Chunk)
      → Ordered (suc r.seq) hi rs
      → ((ch' : Chunk) (chs' : List Chunk)
          → decodable c rs ≡ (ch' ∷ chs') ++ rest
          → decodable c (rows_after (last_seq ch' chs') rs) ≡ rest)
      → r.seq ≡ ch.seq
      → decodable c rs ≡ chs ++ rest
      → decodable c (rows_after (last_seq ch chs) (r ∷ rs)) ≡ rest
  behind hi r rs ch [] rest o later first h =
      let gone : leb r.seq ch.seq ≡ true = ground arith in
      rw gone (ap (decodable c) (all_after ch.seq (suc r.seq) hi rs o (omega arith)) ∙ h)
  behind hi r rs ch (ch' ∷ chs) rest o later first h =
      let above = front_above (suc r.seq) hi rs ch' chs rest o h in
      let gone : leb r.seq (last_seq ch' chs) ≡ true = ground arith in rw gone (later ch' chs h)

  -- Behind the last seq of a front stands the rest.
  pub rows_after_front :
      (lo hi : ℕ) (rs : List Row) (ch : Chunk) (chs rest : List Chunk)
      → Ordered lo hi rs
      → decodable c rs ≡ (ch ∷ chs) ++ rest
      → decodable c (rows_after (last_seq ch chs) rs) ≡ rest
  unfolding decodable
  rows_after_front lo hi [] ch chs rest o h = cc h
  rows_after_front lo hi (r ∷ rs) ch chs rest o h = elim (Option-cases (c.decode r.blob)) [
    | inl corrupt ↦
        let later =
          rows_after_front (suc r.seq) hi rs ch chs rest o.1 (rw (corrupt, decodable) at h) in
        elim (Bool-cases (leb r.seq (last_seq ch chs))) [
          | inl gone ↦ rw gone later
          | inr kept ↦ rw (kept, corrupt, decodable) later
        ]
    | inr (readings, good) ↦
        let here : Chunk = record { seq = r.seq; readings = readings } in
        let both : here ∷ decodable c rs ≡ (ch ∷ chs) ++ rest = rw (good, decodable) at h in
        let same : here ≡ ch = cc both in
        let first : r.seq ≡ ch.seq = ap (λ (x : Chunk). x.seq) same in
        behind hi r rs ch chs rest o.1
          (λ ch' chs'. rows_after_front (suc r.seq) hi rs ch' chs' rest o.1) first (cc both)
  ]
