-- ===== src/Queue/Capacity.antt =====
-- internal/queue/capacity.go: the size limits of queue.db. The float64 arithmetic is a parameter,
-- and so are the sizes that SQLite and the volume report.
pub mod Evict
pub mod Limits
use nx_iio_t_gateway_max_gat.Shared.{
  ℕ, zero, suc, ◌*◌, Bool, true, false, not, ◌||◌, List, [], ◌∷◌, Option, none, some, ◌==◌,
  if◌then◌else◌, get_elem?, wrap64, add64, sub64, is_neg64, lt64, max64, min64,
}
use nx_iio_t_gateway_max_gat.Queue.Db.{
  Row, Db, Answers, Outcome, done, failed, statement, query, evicted_for_space, delete_through,
}
use nx_iio_t_gateway_max_gat.Queue.Store.{Store, refresh_bounds}

pub data StorageLevel : Type 0 where
  normal warning critical full : StorageLevel

-- The comparison of two float64 percentages, and the numbers 70 and 90.
pub record Percent : Type 1 where
  pub F : Type 0
  pub at_least : F → F → Bool
  pub seventy : F
  pub ninety : F

unfoldable pub classify_storage_level : (p : Percent) → p.F → p.F → StorageLevel
classify_storage_level p used full_percent =
    if p.at_least used full_percent
    then full
    else if p.at_least used p.ninety
    then critical
    else if p.at_least used p.seventy
    then warning
    else normal

abbrev pub max_evict_chunks_per_pass : ℕ
max_evict_chunks_per_pass = 20000

abbrev pub max_evict_passes_per_tick : ℕ
max_evict_passes_per_tick = 5

-- int64(float64(used) - allowed) for the used and total bytes of the volume, and
-- int64(math.Ceil(float64(excess) / avg)) for the excess, the size of the file and its chunks.
pub record Floats : Type 0 where
  pub over_allowed : ℕ → ℕ → ℕ
  pub chunks_over : ℕ → ℕ → ℕ → ℕ

-- What one pass is told: DiskUsage (`none` if it is nil or fails), the driver's answers to the
-- transaction and to `refreshBounds`, whether the cut is found, and page_count with page_size.
pub record Pass : Type 0 where
  pub usage : Option (ℕ × ℕ)
  pub cut_read : Bool
  pub deletion : Answers
  pub bounds : Answers
  pub pages : Option (ℕ × ℕ)

unfoldable pub refresh_size : Option (ℕ × ℕ) → Store → Store
refresh_size none s = s
refresh_size (some (pages, page_size)) s = record s { db_bytes = wrap64 (pages * page_size) }

volume_excess : Floats → Option (ℕ × ℕ) → ℕ → ℕ
volume_excess f none excess = excess
volume_excess f (some (used, total)) excess =
    if total == 0 then excess else max64 excess (f.over_allowed used total)

unfoldable pub excess_bytes : Floats → Option (ℕ × ℕ) → Store → ℕ
unfolding volume_excess
excess_bytes f usage s = volume_excess f usage (sub64 s.db_bytes s.opts.max_bytes)

-- `v <= 0` on an int64.
abbrev pub not_positive : ℕ → Bool
not_positive v = v == 0 || is_neg64 v

-- How many chunks one pass deletes.
unfoldable pub pass_size : Floats → ℕ → Store → ℕ
pass_size f excess s =
    min64
      (min64 (add64 (f.chunks_over excess s.db_bytes s.pending_chunks) 1) max_evict_chunks_per_pass)
      s.pending_chunks

-- SQLite reads a negative OFFSET as 0.
abbrev offset64 : ℕ → ℕ
offset64 k = if is_neg64 k then 0 else k

evict_done : Pass → Outcome (ℕ × ℕ) → Store → Store × Bool
unfolding refresh_bounds refresh_size
evict_done p (failed answers) s = (s, false)
evict_done p (done (chunks, readings) answers db) s = (
  refresh_size p.pages (
      refresh_bounds p.bounds (record s {
        db = db;
        pending_chunks = sub64 s.pending_chunks chunks;
        pending_readings = sub64 s.pending_readings readings;
        evicted = add64 s.evicted readings;
      })),
  not (not_positive chunks),
)

cut_at : Pass → Option Row → Store → Store × Bool
unfolding evict_done
cut_at p none s = (s, false)
cut_at p (some r) s =
    if p.cut_read
    then evict_done p (delete_through evicted_for_space r.seq p.deletion s.db) s
    else (s, false)

-- Whether anything was evicted.
unfoldable pub evict_once : Floats → Pass → Store → Store × Bool
unfolding excess_bytes pass_size cut_at
evict_once f p s =
    let excess = excess_bytes f p.usage s in
    if not_positive excess
    then (s, false)
    else if not_positive s.pending_chunks
    then (s, false)
    else cut_at p (get_elem? s.db.rows (offset64 (sub64 (pass_size f excess s) 1))) s

unfoldable pub evict_loop : ℕ → Floats → (ℕ → Pass) → Store → Store
evict_loop zero f passes s = s
evict_loop (suc n) f passes s =
    let step = evict_once f (passes n) s in
    elim step.1 [ true ↦ evict_loop n f passes step.0 | false ↦ step.0 ]

-- `Maintain`: the passes, which `passes` counts down, end with the first that evicts nothing, or at
-- the fifth. `pages` is what the first `compact` reads.
unfoldable pub maintain : Floats → Option (ℕ × ℕ) → (ℕ → Pass) → Store → Store
unfolding refresh_size evict_loop
maintain f pages passes s = evict_loop max_evict_passes_per_tick f passes (refresh_size pages s)
