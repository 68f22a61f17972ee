-- ===== src/Queue/Capacity/Limits.antt =====
-- When internal/queue/capacity.go evicts: the limits of the file and of the volume.
use nx_iio_t_gateway_max_gat.Shared.{
  ℕ, ◌+◌, ◌<◌, ◌≡◌, ◌⊎◌, true, false, Option, none, some, ◌==◌, length, two63, two64,
}
use nx_iio_t_gateway_max_gat.Queue.Store.{Store}
use nx_iio_t_gateway_max_gat.Queue.Capacity.{Floats, not_positive}

-- More of the volume is in use than is allowed; nothing is said of a volume of no size, or of which
-- nothing is known.
IsVolumeOver : Floats → Option (ℕ × ℕ) → Type 0
IsVolumeOver f none = false ≡ true
IsVolumeOver f (some (used, total)) =
    ((total == 0) ≡ false) × (not_positive (f.over_allowed used total) ≡ false)

-- The file is larger than its limit, or the volume is too full.
pub IsOver : Floats → Option (ℕ × ℕ) → Store → Type 0
unfolding IsVolumeOver
IsOver f usage s = (s.opts.max_bytes < s.db_bytes) ⊎ IsVolumeOver f usage

-- The sizes and the number of rows, and the number of chunks that the floats ask for, are not negative
-- as an int64.
pub record IsInRange (f : Floats) (s : Store) : Type 0 where
  pub file_size : s.db_bytes < two63
  pub file_limit : s.opts.max_bytes < two63
  pub words : (used total : ℕ) → f.over_allowed used total < two64
  pub rows : length s.db.rows < two63
  pub asks : (excess : ℕ) → f.chunks_over excess s.db_bytes s.pending_chunks + 1 < two63
