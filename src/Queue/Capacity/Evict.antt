-- ===== src/Queue/Capacity/Evict.antt =====
-- What the passes of internal/queue/capacity.go do to the queue.
use mathlib.Core.Path.{subst}
use nx_iio_t_gateway_max_gat.Shared.{
  ℕ, zero, suc, ◌+◌, ◌≤◌, ◌<◌, ◌≡◌, refl, inl, inr, true, List, [], ◌∷◌, Option, none, some, arith,
  Bool-cases, if◌then◌else◌, length, take, drop, get_elem?, wrap64, add64, sub64, min64, is_neg64,
  two63, two64,
}
use nx_iio_t_gateway_max_gat.Queue.Db.{
  Row, Answers, Outcome, done, failed, evicted_for_space, total_rows, rows_through, rows_after,
}
use nx_iio_t_gateway_max_gat.Queue.Db.Rules.{Yields, DeletedThrough, delete_through-Yields}
use nx_iio_t_gateway_max_gat.Queue.Db.Rows.{
  Ordered, length-rows_through, total_rows_through, none_through, all_after,
}
use nx_iio_t_gateway_max_gat.Queue.Store.{Store, refresh_bounds}
use nx_iio_t_gateway_max_gat.Queue.Store.Counters.{
  IsConsistent, deleted-IsSound, refresh_bounds-IsConsistent,
}
use nx_iio_t_gateway_max_gat.Queue.Capacity.{
  StorageLevel, normal, warning, critical, full, Percent, classify_storage_level, Floats, Pass,
  refresh_size, excess_bytes, not_positive, pass_size, evict_done, cut_at, evict_once, evict_loop,
  maintain, max_evict_chunks_per_pass, max_evict_passes_per_tick,
}

refresh_size-IsConsistent :
    (pages : Option (ℕ × ℕ)) (s : Store) → IsConsistent s → IsConsistent (refresh_size pages s)
unfolding refresh_size
refresh_size-IsConsistent none s v = v
refresh_size-IsConsistent (some (pages, page_size)) s v = ground arith

evict_done-IsConsistent :
    (p : Pass) (t : ℕ) (o : Outcome (ℕ × ℕ)) (s : Store)
    → IsConsistent s
    → Yields (DeletedThrough evicted_for_space t s.db) o
    → IsConsistent (evict_done p o s).0
unfolding evict_done
evict_done-IsConsistent p t (failed answers) s v h = v
evict_done-IsConsistent p t (done (chunks, readings) answers db) s v (inl (e, c, r, d)) =
    rw (c, r, d)
      (refresh_size-IsConsistent p.pages _ (
        refresh_bounds-IsConsistent p.bounds _ (record {
          file = v.file;
          chunks = omega (arith, v.chunks);
          readings = omega (arith, v.readings);
          evictions = omega (arith, v.evictions, v.file.evicted_word);
        })))
evict_done-IsConsistent p t (done (chunks, readings) answers db) s v (inr (c, r, d)) =
    rw (c, r, d)
      (refresh_size-IsConsistent p.pages _ (
        refresh_bounds-IsConsistent p.bounds _ (record {
          file = deleted-IsSound evicted_for_space t s.db v.file;
          chunks = omega (arith, v.chunks, length-rows_through t s.db.rows);
          readings = omega (arith, v.readings, total_rows_through t s.db.rows);
          evictions = rw (v.evictions) refl;
        })))

-- The row at `i` is the last of the first `i + 1` rows.
pub rows_after_nth :
    (i lo hi : ℕ) (rs : List Row) (r : Row)
    → Ordered lo hi rs
    → get_elem? rs i ≡ some r
    → (lo ≤ r.seq)
      × (rows_after r.seq rs ≡ drop (suc i) rs)
      × (rows_through r.seq rs ≡ take (suc i) rs)
rows_after_nth i lo hi [] r o e = cc
rows_after_nth zero lo hi (q ∷ qs) r o e =
    let same : q ≡ r = cc e in
    let after = all_after q.seq (suc q.seq) hi qs o.1 (omega arith) in
    let through = none_through q.seq (suc q.seq) hi qs o.1 (omega arith) in
    subst
      (λ x.
        (lo ≤ x.seq) × (rows_after x.seq (q ∷ qs) ≡ qs) × (rows_through x.seq (q ∷ qs) ≡ q ∷ []))
      same (o.0, ground (arith, after), ground (arith, through))
rows_after_nth (suc i) lo hi (q ∷ qs) r o e =
    let (a, b, c) = rows_after_nth i (suc q.seq) hi qs r o.1 e in
    (omega (arith, o.0), ground (arith, a, b), ground (arith, a, c))

cut_at-IsConsistent :
    (p : Pass) (r : Option Row) (s : Store) → IsConsistent s → IsConsistent (cut_at p r s).0
unfolding cut_at
cut_at-IsConsistent p none s v = v
cut_at-IsConsistent p (some r) s v = elim (Bool-cases p.cut_read) [
  | inl read ↦ rw read (
      evict_done-IsConsistent p r.seq _ s v
        (delete_through-Yields evicted_for_space r.seq p.deletion s.db))
  | inr lost ↦ rw lost v
]

pub evict_once-IsConsistent :
    (f : Floats) (p : Pass) (s : Store) → IsConsistent s → IsConsistent (evict_once f p s).0
unfolding evict_once
evict_once-IsConsistent f p s v = elim (Bool-cases (not_positive (excess_bytes f p.usage s))) [
  | inl fits ↦ rw fits v
  | inr over ↦ elim (Bool-cases (not_positive s.pending_chunks)) [
    | inl empty ↦ rw (over, empty) v
    | inr some_left ↦ rw (over, some_left) (cut_at-IsConsistent p _ s v)
  ]
]

evict_loop-IsConsistent :
    (n : ℕ) (f : Floats) (passes : ℕ → Pass) (s : Store)
    → IsConsistent s
    → IsConsistent (evict_loop n f passes s)
unfolding evict_loop
evict_loop-IsConsistent zero f passes s v = v
evict_loop-IsConsistent (suc n) f passes s v = elim (Bool-cases (evict_once f (passes n) s).1) [
  | inl more ↦
      rw (more, evict_loop)
        (evict_loop-IsConsistent n f passes _ (evict_once-IsConsistent f (passes n) s v))
  | inr stop ↦ rw (stop, evict_loop) (evict_once-IsConsistent f (passes n) s v)
]

-- Maintenance keeps the counters in step with the rows, whatever its queries and passes are told.
pub maintain-IsConsistent :
    (f : Floats) (pages : Option (ℕ × ℕ)) (passes : ℕ → Pass) (s : Store)
    → IsConsistent s
    → IsConsistent (maintain f pages passes s)
unfolding maintain
maintain-IsConsistent f pages passes s v =
    evict_loop-IsConsistent max_evict_passes_per_tick f passes _
      (refresh_size-IsConsistent pages s v)

-- The cut stands at most at the limit of a pass.
cut_bound :
    (a b i : ℕ)
    → a < two64
    → b < two64
    → i ≡ (
        if is_neg64 (sub64 (min64 (min64 a max_evict_chunks_per_pass) b) 1)
        then 0
        else sub64 (min64 (min64 a max_evict_chunks_per_pass) b) 1)
    → i + 1 < two63
    → i < max_evict_chunks_per_pass
cut_bound a b i ha hb e h = ground arith

get_elem?-lt {ℓ} :
    {A : Type ℓ} (xs : List A) (i : ℕ) (x : A) → get_elem? xs i ≡ some x → i < length xs
get_elem?-lt [] i x e = cc
get_elem?-lt (y ∷ ys) zero x e = omega arith
get_elem?-lt (y ∷ ys) (suc i) x e = omega (arith, get_elem?-lt ys i x e)

-- The store `s'` after the first `k` rows of `s` were evicted.
pub record IsEviction (s s' : Store) (k : ℕ) : Type 0 where
  pub at_least_one : 0 < k
  pub at_most : k ≤ max_evict_chunks_per_pass
  pub oldest : s'.db.rows ≡ drop k s.db.rows
  pub counted : s'.evicted ≡ add64 s.evicted (wrap64 (total_rows (take k s.db.rows)))

refresh_keeps :
    (pages : Option (ℕ × ℕ)) (bounds : Answers) (s : Store)
    → ((refresh_size pages (refresh_bounds bounds s)).db ≡ s.db)
      × ((refresh_size pages (refresh_bounds bounds s)).evicted ≡ s.evicted)
unfolding refresh_size refresh_bounds
refresh_keeps pages bounds s = ground arith

evict_done-IsEviction :
    (p : Pass) (i : ℕ) (r : Row) (o : Outcome (ℕ × ℕ)) (s : Store)
    → IsConsistent s
    → get_elem? s.db.rows i ≡ some r
    → i < max_evict_chunks_per_pass
    → Yields (DeletedThrough evicted_for_space r.seq s.db) o
    → (evict_done p o s).1 ≡ true
    → IsEviction s (evict_done p o s).0 (suc i)
unfolding evict_done
evict_done-IsEviction p i r (failed answers) s v e b h w = cc
evict_done-IsEviction p i r (done (chunks, readings) answers db) s v e b (inl (z, c, q, d)) w =
    absurd (ground (arith, w, c))
evict_done-IsEviction p i r (done (chunks, readings) answers db) s v e b (inr (c, q, d)) w =
    let (lo, after, through) = rows_after_nth i 0 s.db.next_seq s.db.rows r v.file.order e in
    let (same_db, same_count) = refresh_keeps p.pages p.bounds (record s {
      db = db;
      pending_chunks = sub64 s.pending_chunks chunks;
      pending_readings = sub64 s.pending_readings readings;
      evicted = add64 s.evicted readings;
    }) in
    record {
      at_least_one = omega arith;
      at_most = omega arith;
      oldest = rw (same_db, d) after;
      counted = rw (same_count, q, through) refl;
    }

cut_at-IsEviction :
    (p : Pass) (i : ℕ) (r : Option Row) (s : Store)
    → IsConsistent s
    → get_elem? s.db.rows i ≡ r
    → (i + 1 < two63 → i < max_evict_chunks_per_pass)
    → length s.db.rows < two63
    → (cut_at p r s).1 ≡ true
    → IsEviction s (cut_at p r s).0 (suc i)
unfolding cut_at
cut_at-IsEviction p i none s v e b l w = cc
cut_at-IsEviction p i (some r) s v e b l w = elim (Bool-cases p.cut_read) [
  | inl read ↦ rw read (
      evict_done-IsEviction p i r _ s v e (b (omega (arith, get_elem?-lt s.db.rows i r e)))
        (delete_through-Yields evicted_for_space r.seq p.deletion s.db) (rw (read, cut_at) at w))
  | inr lost ↦ cc (rw (lost, cut_at) at w)
]

-- A pass that evicts takes a number of the oldest chunks, from 1 to 20000, off the front of the
-- queue, leaves the rest, and adds exactly their readings to the evicted counter.
pub evict_once_oldest :
    (f : Floats) (p : Pass) (s : Store)
    → IsConsistent s
    → length s.db.rows < two63
    → (evict_once f p s).1 ≡ true
    → (k : ℕ) × IsEviction s (evict_once f p s).0 k
unfolding evict_once pass_size
evict_once_oldest f p s v l w = elim (Bool-cases (not_positive (excess_bytes f p.usage s))) [
  | inl fits ↦ cc (rw (fits, evict_once) at w)
  | inr over ↦ elim (Bool-cases (not_positive s.pending_chunks)) [
    | inl empty ↦ cc (rw (over, evict_once, empty) at w)
    | inr some_left ↦
        let size = sub64 (pass_size f (excess_bytes f p.usage s) s) 1 in
        let i = if is_neg64 size then 0 else size in
        (
          suc i,
          rw (over, some_left)
              (cut_at-IsEviction p i _ s v refl
                (cut_bound
                  (add64 (f.chunks_over (excess_bytes f p.usage s) s.db_bytes s.pending_chunks) 1)
                  s.pending_chunks i (omega arith) (omega (arith, v.chunks)) refl)
                l (rw (over, evict_once, some_left) at w)),
        )
  ]
]

unfoldable pub rank : StorageLevel → ℕ
rank normal = 0
rank warning = 1
rank critical = 2
rank full = 3

-- More usage never gives a lower storage level, when the comparison is transitive.
pub classify_storage_level_mono :
    (p : Percent) (low high limit : p.F)
    → ((a b c : p.F) → p.at_least a b ≡ true → p.at_least b c ≡ true → p.at_least a c ≡ true)
    → p.at_least high low ≡ true
    → rank (classify_storage_level p low limit) ≤ rank (classify_storage_level p high limit)
unfolding classify_storage_level rank
classify_storage_level_mono p low high limit trans h =
    ground (arith, trans high low limit h, trans high low p.ninety h, trans high low p.seventy h)
