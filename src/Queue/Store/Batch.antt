-- ===== src/Queue/Store/Batch.antt =====
-- `ReadBatch` of internal/queue/store.go.
pub mod Oldest
pub mod Pending
use nx_iio_t_gateway_max_gat.Shared.{
  ℕ, zero, suc, ◌<◌, ◌≡◌, ◌≢◌, refl, ◌∙◌, ◌⊎◌, inl, inr, Bool, true, false, List, [], ◌∷◌, arith,
  Bool-cases, Option-cases, take, All, All-take, add64, lt64,
}
use nx_iio_t_gateway_max_gat.Queue.Types.{Chunk}
use nx_iio_t_gateway_max_gat.Queue.Db.{Row, Answers, Outcome, done, failed, rows_at, rows_but}
use nx_iio_t_gateway_max_gat.Queue.Db.Rules.{Yields, Discarded, discard_row-Yields}
use nx_iio_t_gateway_max_gat.Queue.Db.Rows.{Ordered, Ordered-le}
use nx_iio_t_gateway_max_gat.Queue.Store.{
  Codec, Store, refresh_bounds, discard_done, discard, DiscardAnswers, next_answers, later_answers,
  scan_rows, decode_rows, read_batch, read_batch_scan_limit,
}
use nx_iio_t_gateway_max_gat.Queue.Store.Counters.{IsConsistent, IsRow, discard-IsConsistent}

rows_at_below : (s lo hi : ℕ) (rs : List Row) → Ordered lo hi rs → s < lo → rows_at s rs ≡ []
rows_at_below s lo hi [] h l = refl
rows_at_below s lo hi (r ∷ rs) h l = ground (arith, rows_at_below s (suc r.seq) hi rs h.1)

IsRow-cons :
    (r : Row) (hi lo : ℕ) (rs qs : List Row)
    → r.seq < lo
    → Ordered lo hi qs
    → All (IsRow rs) qs
    → All (IsRow (r ∷ rs)) qs
IsRow-cons r hi lo rs [] l o h = tt
IsRow-cons r hi lo rs (q ∷ qs) l o h =
    (ground arith, IsRow-cons r hi (suc q.seq) rs qs (omega arith) o.1 h.1)

-- With rising seqs every row stands in the table once.
pub rows_IsRow : (lo hi : ℕ) (rs : List Row) → Ordered lo hi rs → All (IsRow rs) rs
rows_IsRow lo hi [] o = tt
rows_IsRow lo hi (r ∷ rs) o = (
  ground (arith, rows_at_below r.seq (suc r.seq) hi rs o.1),
  IsRow-cons r hi (suc r.seq) rs rs (omega arith) o.1 (rows_IsRow (suc r.seq) hi rs o.1),
)

pub take-Ordered : (n lo hi : ℕ) (rs : List Row) → Ordered lo hi rs → Ordered lo hi (take n rs)
take-Ordered zero lo hi rs o = Ordered-le lo hi rs o
take-Ordered (suc n) lo hi [] o = o
take-Ordered (suc n) lo hi (r ∷ rs) o = (o.0, take-Ordered n (suc r.seq) hi rs o.1)

-- The scan stops somewhere: it returns the first rows.
pub scan_rows-take :
    (limit total : ℕ) (rs : List Row) → (n : ℕ) × (scan_rows limit total rs ≡ take n rs)
unfolding scan_rows
scan_rows-take limit total [] = (0, refl)
scan_rows-take limit total (r ∷ rs) =
    let (n, e) = scan_rows-take limit (add64 total r.n) rs in
    elim (Bool-cases (lt64 (add64 total r.n) limit)) [
      | inl more ↦ (suc n, rw (more, e) refl)
      | inr enough ↦ (1, rw enough refl)
    ]

rows_at-rows_but : (s t : ℕ) (rs : List Row) → s ≢ t → rows_at s (rows_but t rs) ≡ rows_at s rs
rows_at-rows_but s t [] h = refl
rows_at-rows_but s t (r ∷ rs) h = ground (arith, rows_at-rows_but s t rs h)

IsRow-rows_but :
    (t lo hi : ℕ) (rows qs : List Row)
    → t < lo
    → Ordered lo hi qs
    → All (IsRow rows) qs
    → All (IsRow (rows_but t rows)) qs
IsRow-rows_but t lo hi rows [] l o h = tt
IsRow-rows_but t lo hi rows (q ∷ qs) l o h = (
  rows_at-rows_but q.seq t rows (λ e. omega arith) ∙ h.0,
  IsRow-rows_but t (suc q.seq) hi rows qs (omega arith) o.1 h.1,
)

pub refresh_bounds-db : (answers : Answers) (s : Store) → (refresh_bounds answers s).db ≡ s.db
unfolding refresh_bounds
refresh_bounds-db [] s = refl
refresh_bounds-db (false ∷ answers) s = refl
refresh_bounds-db (true ∷ []) s = refl
refresh_bounds-db (true ∷ false ∷ answers) s = refl
refresh_bounds-db (true ∷ true ∷ answers) s = refl

discard_done_rows :
    (bounds : Answers) (seq n : ℕ) (o : Outcome Bool) (s : Store)
    → Yields (Discarded seq n s.db) o
    → ((discard_done n bounds o s).0.db.rows ≡ s.db.rows)
      ⊎ ((discard_done n bounds o s).0.db.rows ≡ rows_but seq s.db.rows)
unfolding discard_done
discard_done_rows bounds seq n (failed answers) s h = inl refl
discard_done_rows bounds seq n (done false answers db) s (inl (e, c, d)) = inl (rw d refl)
discard_done_rows bounds seq n (done false answers db) s (inr (c, d)) = cc
discard_done_rows bounds seq n (done true answers db) s (inl (e, c, d)) = cc
discard_done_rows bounds seq n (done true answers db) s (inr (c, d)) =
    inr (rw (refresh_bounds-db bounds _) (rw d refl))

pub discard_rows :
    (answers bounds : Answers) (seq n : ℕ) (s : Store)
    → ((discard answers bounds seq n s).0.db.rows ≡ s.db.rows)
      ⊎ ((discard answers bounds seq n s).0.db.rows ≡ rows_but seq s.db.rows)
unfolding discard
discard_rows answers bounds seq n s =
    discard_done_rows bounds seq n _ s (discard_row-Yields seq n answers s.db)

pub discard-IsRow :
    (answers bounds : Answers) (t n lo hi : ℕ) (s : Store) (qs : List Row)
    → t < lo
    → Ordered lo hi qs
    → All (IsRow s.db.rows) qs
    → All (IsRow (discard answers bounds t n s).0.db.rows) qs
discard-IsRow answers bounds t n lo hi s qs l o h = elim (discard_rows answers bounds t n s) [
  | inl same ↦ rw same h
  | inr gone ↦ rw gone (IsRow-rows_but t lo hi s.db.rows qs l o h)
]

decode_rows-IsConsistent :
    (c : Codec) (answers : List DiscardAnswers) (chunks : List Chunk) (rs : List Row) (lo hi : ℕ)
    (s : Store)
    → IsConsistent s
    → Ordered lo hi rs
    → All (IsRow s.db.rows) rs
    → IsConsistent (decode_rows c answers chunks rs s).0
unfolding decode_rows
decode_rows-IsConsistent c answers chunks [] lo hi s v o h = v
decode_rows-IsConsistent c answers chunks (r ∷ rs) lo hi s v o h =
    elim (Option-cases (c.decode r.blob)) [
      | inr (readings, good) ↦
          rw (good, decode_rows)
            (decode_rows-IsConsistent c answers _ rs (suc r.seq) hi s v o.1 h.1)
      | inl corrupt ↦
          let step = discard (next_answers answers).0 (next_answers answers).1 r.seq r.n s in
          let kept =
            discard-IsConsistent (next_answers answers).0 (next_answers answers).1 r s v h.0 in
          elim (Bool-cases step.1) [
            | inl went ↦
                rw (corrupt, decode_rows)
                  (rw (went, decode_rows)
                    (decode_rows-IsConsistent c (later_answers answers) chunks rs (suc r.seq) hi
                      step.0 kept o.1
                      (discard-IsRow _ _ r.seq r.n (suc r.seq) hi s rs (omega arith) o.1 h.1)))
            | inr broke ↦ rw (corrupt, decode_rows) (rw (broke, decode_rows) kept)
          ]
    ]

-- Reading keeps the counters in step, also when it discards corrupt chunks or fails on the way.
pub read_batch-IsConsistent :
    (c : Codec) (ok : Bool) (answers : List DiscardAnswers) (limit : ℕ) (s : Store)
    → IsConsistent s
    → IsConsistent (read_batch c ok answers limit s).0
unfolding read_batch
read_batch-IsConsistent c false answers limit s v = v
read_batch-IsConsistent c true answers limit s v =
    let rows = take read_batch_scan_limit s.db.rows in
    let (n, first) = scan_rows-take limit 0 rows in
    rw first (
      decode_rows-IsConsistent c answers [] (take n rows) 0 s.db.next_seq s v
        (take-Ordered n 0 _ rows (take-Ordered read_batch_scan_limit 0 _ s.db.rows v.file.order))
        (All-take (IsRow s.db.rows) n rows (
          All-take (IsRow s.db.rows) read_batch_scan_limit s.db.rows
            (rows_IsRow 0 s.db.next_seq s.db.rows v.file.order))))
