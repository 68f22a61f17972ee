-- ===== src/Queue/Db.antt =====
-- queue.db, the SQLite file of internal/queue/store.go: the table `chunk` in seq order, the
-- counters of the table `meta`, and the statements of the store's transactions. The driver's
-- answers are a list: each statement takes one, and `false` is an error, after which the
-- transaction is rolled back. A list that has come to its end answers `true`.
pub mod Rules
pub mod Rows
use nx_iio_t_gateway_max_gat.Shared.{
  ℕ, suc, ◌+◌, ◌≡◌, refl, Bool, true, false, List, [], ◌∷◌, ◌++◌, leb, ◌==◌, if◌then◌else◌, length,
  wrap64, add64, sub64,
}

-- A chunk that waits in memory, and a row of the table.
pub record PendingChunk : Type 0 where
  pub first_ts : ℕ
  pub last_ts : ℕ
  pub n : ℕ
  pub blob : List ℕ

pub record Row : Type 0 where
  pub seq : ℕ
  pub chunk : PendingChunk
  pub open chunk use *

-- `next_seq` is what AUTOINCREMENT hands out next; it never goes back.
pub record Db : Type 0 where
  pub rows : List Row
  pub next_seq : ℕ
  pub meta_chunks : ℕ
  pub meta_readings : ℕ
  pub meta_evicted : ℕ

abbrev pub Answers : Type 0
Answers = List Bool

pub data Outcome (A : Type 0) : Type 0 where
  done : A → Answers → Db → Outcome A
  failed : Answers → Outcome A

abbrev pub Tx : Type 0 → Type 0
Tx A = Answers → Db → Outcome A

abbrev pub pure : {A : Type 0} → A → Tx A
pure a answers db = done a answers db

infixl 5 ◌>>=◌ ◌>>◌
abbrev pub ◌>>=◌ : {A B : Type 0} → Tx A → (A → Tx B) → Tx B
◌>>=◌ m f answers db = elim (m answers db) [
  | done a answers' db' ↦ f a answers' db'
  | failed answers' ↦ failed answers'
]

abbrev pub ◌>>◌ : {B : Type 0} → Tx (Unit {0}) → Tx B → Tx B
m >> k = m >>= λ _. k

-- One statement: it reads and changes the file, or the driver reports an error.
unfoldable pub statement : {A : Type 0} → (Db → A) → (Db → Db) → Tx A
statement read change [] db = done (read db) [] (change db)
statement read change (true ∷ answers) db = done (read db) answers (change db)
statement read change (false ∷ answers) db = failed answers

abbrev pub exec : (Db → Db) → Tx (Unit {0})
exec change = statement (λ _. tt) change

abbrev pub query : {A : Type 0} → (Db → A) → Tx A
query read = statement read (λ db. db)

-- `tx.Commit`, or a return before it, which rolls back.
unfoldable pub close : {A : Type 0} → Db → Outcome (Bool × A) → Outcome A
close before (failed answers) = failed answers
close before (done (true, a) answers after) = done a answers after
close before (done (false, a) answers after) = done a answers before

unfoldable pub transaction : {A : Type 0} → Tx (Bool × A) → Tx A
unfolding statement close
transaction body answers db = close db ((exec (λ d. d) >> body) answers db)

abbrev pub total_pending : List PendingChunk → ℕ
total_pending [] = 0
total_pending (c ∷ cs) = c.n + total_pending cs

abbrev pub total_rows : List Row → ℕ
total_rows [] = 0
total_rows (r ∷ rs) = r.n + total_rows rs

-- The WHERE clause seq <= through.
abbrev pub rows_through : ℕ → List Row → List Row
rows_through through [] = []
rows_through through (r ∷ rs) =
    if leb r.seq through then r ∷ rows_through through rs else rows_through through rs

abbrev pub rows_after : ℕ → List Row → List Row
rows_after through [] = []
rows_after through (r ∷ rs) =
    if leb r.seq through then rows_after through rs else r ∷ rows_after through rs

-- The WHERE clause seq = s.
abbrev pub rows_at : ℕ → List Row → List Row
rows_at s [] = []
rows_at s (r ∷ rs) = if r.seq == s then r ∷ rows_at s rs else rows_at s rs

abbrev pub rows_but : ℕ → List Row → List Row
rows_but s [] = []
rows_but s (r ∷ rs) = if r.seq == s then rows_but s rs else r ∷ rows_but s rs

abbrev pub insert_row : PendingChunk → Db → Db
insert_row c db = record db {
  rows = db.rows ++ record { seq = db.next_seq; chunk = c } ∷ [];
  next_seq = db.next_seq + 1;
}

-- The deltas of `addMeta` on its three keys.
abbrev pub add_chunks : ℕ → Db → Db
add_chunks d db = record db { meta_chunks = add64 db.meta_chunks d }

abbrev pub add_readings : ℕ → Db → Db
add_readings d db = record db { meta_readings = add64 db.meta_readings d }

abbrev pub add_evicted : ℕ → Db → Db
add_evicted d db = record db { meta_evicted = add64 db.meta_evicted d }

-- The INSERT of each chunk; the sum of the readings is the loop's `readings`.
insert_each : ℕ → List PendingChunk → Tx ℕ
unfolding statement
insert_each readings [] = pure readings
insert_each readings (c ∷ cs) = exec (insert_row c) >> insert_each (add64 readings c.n) cs

unfoldable pub insert_chunks : List PendingChunk → Tx (Unit {0})
unfolding transaction insert_each
insert_chunks batch = transaction do
  readings ← insert_each 0 batch
  exec (add_chunks (wrap64 (length batch)))
  exec (add_readings readings)
  exec (λ d. d)
  pure (true, tt)

-- What `deleteThrough` adds to the evicted counter: nothing for an acknowledgement.
pub data Reason : Type 0 where
  acknowledged evicted_for_space : Reason

count_reason : Reason → ℕ → Tx (Unit {0})
unfolding statement
count_reason acknowledged readings = pure tt
count_reason evicted_for_space readings = exec (add_evicted readings)

delete_found : Reason → ℕ → ℕ × ℕ → Tx (Bool × (ℕ × ℕ))
unfolding statement count_reason
delete_found why through (chunks, readings) = if chunks == 0 then pure (false, (0, 0)) else (do
  exec (λ db. record db { rows = rows_after through db.rows })
  exec (add_chunks (sub64 0 chunks))
  exec (add_readings (sub64 0 readings))
  count_reason why readings
  exec (λ d. d)
  pure (true, (chunks, readings)))

unfoldable pub delete_through : Reason → ℕ → Tx (ℕ × ℕ)
unfolding transaction statement delete_found
delete_through why through = transaction do
  found ← query λ db. (
    wrap64 (length (rows_through through db.rows)),
    wrap64 (total_rows (rows_through through db.rows)),
  )
  delete_found why through found

discard_found : ℕ → ℕ → Tx (Bool × Bool)
unfolding statement
discard_found n affected = if affected == 0 then pure (false, false) else (do
  exec (add_chunks (sub64 0 1))
  exec (add_readings (sub64 0 n))
  exec (λ d. d)
  pure (true, true))

-- Whether the row was there.
unfoldable pub discard_row : ℕ → ℕ → Tx Bool
unfolding transaction statement discard_found
discard_row seq n = transaction do
  affected ←
      statement (λ db. length (rows_at seq db.rows))
        (λ db. record db { rows = rows_but seq db.rows })
  discard_found n affected
