-- ===== src/Queue/Db/Rows.antt =====
-- The rows of the table `chunk`: their number, their readings and their order.
use nx_iio_t_gateway_max_gat.Shared.{
  ℕ, zero, suc, ◌+◌, ◌≤◌, ◌<◌, ◌≡◌, ap, inl, inr, refl, List, [], ◌∷◌, ◌++◌, arith, leb, ◌==◌,
  Bool-cases, length, length-append, take, drop,
}
use nx_iio_t_gateway_max_gat.Queue.Db.{
  PendingChunk, Row, Db, total_pending, total_rows, rows_through, rows_after, rows_at, rows_but,
  insert_row,
}
use nx_iio_t_gateway_max_gat.Queue.Db.Rules.{insert_all}

pub total_rows-append : (xs ys : List Row) → total_rows (xs ++ ys) ≡ total_rows xs + total_rows ys
total_rows-append [] ys = omega arith
total_rows-append (x ∷ xs) ys = omega (arith, total_rows-append xs ys)

pub total_pending-append :
    (xs ys : List PendingChunk) → total_pending (xs ++ ys) ≡ total_pending xs + total_pending ys
total_pending-append [] ys = omega arith
total_pending-append (x ∷ xs) ys = omega (arith, total_pending-append xs ys)

pub total_pending-take :
    (n : ℕ) (cs : List PendingChunk)
    → total_pending (take n cs) + total_pending (drop n cs) ≡ total_pending cs
total_pending-take zero cs = omega arith
total_pending-take (suc n) [] = omega arith
total_pending-take (suc n) (c ∷ cs) = omega (arith, total_pending-take n cs)

pub length-rows_through :
    (t : ℕ) (rs : List Row) → length (rows_through t rs) + length (rows_after t rs) ≡ length rs
length-rows_through t [] = omega arith
length-rows_through t (r ∷ rs) = ground (arith, length-rows_through t rs)

pub total_rows_through :
    (t : ℕ) (rs : List Row)
    → total_rows (rows_through t rs) + total_rows (rows_after t rs) ≡ total_rows rs
total_rows_through t [] = omega arith
total_rows_through t (r ∷ rs) = ground (arith, total_rows_through t rs)

pub length-rows_at :
    (s : ℕ) (rs : List Row) → length (rows_at s rs) + length (rows_but s rs) ≡ length rs
length-rows_at s [] = omega arith
length-rows_at s (r ∷ rs) = ground (arith, length-rows_at s rs)

pub total_rows_at :
    (s : ℕ) (rs : List Row) → total_rows (rows_at s rs) + total_rows (rows_but s rs) ≡ total_rows rs
total_rows_at s [] = omega arith
total_rows_at s (r ∷ rs) = ground (arith, total_rows_at s rs)

-- Seqs rise along the rows, from `lo`, and stay under `hi`.
abbrev pub Ordered : ℕ → ℕ → List Row → Type 0
Ordered lo hi [] = lo ≤ hi
Ordered lo hi (r ∷ rs) = (lo ≤ r.seq) × Ordered (suc r.seq) hi rs

pub Ordered-le : (lo hi : ℕ) (rs : List Row) → Ordered lo hi rs → lo ≤ hi
Ordered-le lo hi [] h = h
Ordered-le lo hi (r ∷ rs) h = omega (arith, h.0, Ordered-le (suc r.seq) hi rs h.1)

pub Ordered-lower :
    (lo lo' hi : ℕ) (rs : List Row) → lo ≤ lo' → Ordered lo' hi rs → Ordered lo hi rs
Ordered-lower lo lo' hi [] l h = omega arith
Ordered-lower lo lo' hi (r ∷ rs) l h = (omega arith, h.1)

pub Ordered-add :
    (lo hi : ℕ) (rs : List Row) (c : PendingChunk)
    → Ordered lo hi rs
    → Ordered lo (hi + 1) (rs ++ record { seq = hi; chunk = c } ∷ [])
Ordered-add lo hi [] c h = (h, omega arith)
Ordered-add lo hi (r ∷ rs) c h = (h.0, Ordered-add (suc r.seq) hi rs c h.1)

pub rows_after-Ordered :
    (t lo hi : ℕ) (rs : List Row) → Ordered lo hi rs → Ordered lo hi (rows_after t rs)
rows_after-Ordered t lo hi [] h = h
rows_after-Ordered t lo hi (r ∷ rs) h = elim (Bool-cases (leb r.seq t)) [
  | inl gone ↦ rw gone (
      Ordered-lower lo (suc r.seq) hi _ (omega (arith, h.0))
        (rows_after-Ordered t (suc r.seq) hi rs h.1))
  | inr kept ↦ rw kept (h.0, rows_after-Ordered t (suc r.seq) hi rs h.1)
]

pub rows_but-Ordered :
    (s lo hi : ℕ) (rs : List Row) → Ordered lo hi rs → Ordered lo hi (rows_but s rs)
rows_but-Ordered s lo hi [] h = h
rows_but-Ordered s lo hi (r ∷ rs) h = elim (Bool-cases (r.seq == s)) [
  | inl gone ↦ rw gone (
      Ordered-lower lo (suc r.seq) hi _ (omega (arith, h.0))
        (rows_but-Ordered s (suc r.seq) hi rs h.1))
  | inr kept ↦ rw kept (h.0, rows_but-Ordered s (suc r.seq) hi rs h.1)
]

pub none_through :
    (t lo hi : ℕ) (rs : List Row) → Ordered lo hi rs → t < lo → rows_through t rs ≡ []
none_through t lo hi [] h l = refl
none_through t lo hi (q ∷ qs) h l = ground (arith, none_through t (suc q.seq) hi qs h.1)

pub all_after : (t lo hi : ℕ) (rs : List Row) → Ordered lo hi rs → t < lo → rows_after t rs ≡ rs
all_after t lo hi [] h l = refl
all_after t lo hi (q ∷ qs) h l = ground (arith, all_after t (suc q.seq) hi qs h.1)

-- With rising seqs an acknowledgement takes a prefix.
pub rows_split :
    (t lo hi : ℕ) (rs : List Row) → Ordered lo hi rs → rs ≡ rows_through t rs ++ rows_after t rs
rows_split t lo hi [] h = refl
rows_split t lo hi (r ∷ rs) h = elim (Bool-cases (leb r.seq t)) [
  | inl gone ↦ rw gone (ap (◌∷◌ r) (rows_split t (suc r.seq) hi rs h.1))
  | inr kept ↦
      rw kept
        (ground (arith, none_through t (suc r.seq) hi rs h.1, rows_split t (suc r.seq) hi rs h.1))
]

pub insert_all-Ordered :
    (cs : List PendingChunk) (db : Db)
    → Ordered 0 db.next_seq db.rows
    → Ordered 0 (insert_all cs db).next_seq (insert_all cs db).rows
unfolding insert_all
insert_all-Ordered [] db h = h
insert_all-Ordered (c ∷ cs) db h =
    insert_all-Ordered cs (insert_row c db) (Ordered-add 0 db.next_seq db.rows c h)

pub length-insert_all :
    (cs : List PendingChunk) (db : Db) → length (insert_all cs db).rows ≡ length db.rows + length cs
unfolding insert_all
length-insert_all [] db = omega arith
length-insert_all (c ∷ cs) db =
    omega (arith, length-insert_all cs (insert_row c db), length-append {0} db.rows _)

pub total-insert_all :
    (cs : List PendingChunk) (db : Db)
    → total_rows (insert_all cs db).rows ≡ total_rows db.rows + total_pending cs
unfolding insert_all
total-insert_all [] db = omega arith
total-insert_all (c ∷ cs) db =
    omega (arith, total-insert_all cs (insert_row c db), total_rows-append db.rows _)

-- The counters wait for the end of the transaction.
pub insert_all_counters :
    (cs : List PendingChunk) (db : Db)
    → ((insert_all cs db).meta_chunks ≡ db.meta_chunks)
      × ((insert_all cs db).meta_readings ≡ db.meta_readings)
      × ((insert_all cs db).meta_evicted ≡ db.meta_evicted)
unfolding insert_all
insert_all_counters [] db = (refl, refl, refl)
insert_all_counters (c ∷ cs) db = insert_all_counters cs (insert_row c db)
