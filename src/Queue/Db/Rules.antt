-- ===== src/Queue/Db/Rules.antt =====
-- What the transactions of internal/queue/store.go leave in queue.db when they succeed.
use nx_iio_t_gateway_max_gat.Shared.{
  ℕ, ◌+◌, ◌%◌, ◌<◌, ◌≡◌, ◌⊎◌, refl, Bool, true, false, List, [], ◌∷◌, arith, ◌==◌, Bool-cases, inl,
  inr, length, wrap64, add64, sub64, two64,
}
use nx_iio_t_gateway_max_gat.Queue.Db.{
  PendingChunk, Db, Answers, Outcome, done, failed, Tx, ◌>>◌, statement, exec, query, close,
  transaction, total_pending, total_rows, rows_through, rows_after, rows_at, rows_but, insert_row,
  add_chunks, add_readings, add_evicted, insert_each, insert_chunks, Reason, acknowledged,
  evicted_for_space, count_reason, delete_found, delete_through, discard_found, discard_row,
}

-- A failure leaves nothing to say: the caller keeps the file that it had.
abbrev pub Yields : {A : Type 0} → (A → Db → Type 0) → Outcome A → Type 0
Yields P (done a answers db) = P a db
Yields P (failed answers) = Unit {0}

module _ {A : Type 0} where
  statement-Yields :
      (read : Db → A) (change : Db → Db) (answers : Answers) (db : Db)
      → Yields (λ a db'. (a ≡ read db) × (db' ≡ change db)) (statement read change answers db)
  unfolding statement
  statement-Yields read change [] db = (refl, refl)
  statement-Yields read change (true ∷ answers) db = (refl, refl)
  statement-Yields read change (false ∷ answers) db = tt

  Yields->>= :
      {B : Type 0} (P : A → Db → Type 0) (Q : B → Db → Type 0) (o : Outcome A) (f : A → Tx B)
      → Yields P o
      → ((a : A) (answers : Answers) (db : Db) → P a db → Yields Q (f a answers db))
      → Yields Q (elim o [ done a answers db ↦ f a answers db | failed answers ↦ failed answers ])
  Yields->>= P Q (done a answers db) f h k = k a answers db h
  Yields->>= P Q (failed answers) f h k = tt

  exec-Yields :
      (Q : A → Db → Type 0) (change : Db → Db) (m : Tx A) (answers : Answers) (db : Db)
      → ((rest : Answers) → Yields Q (m rest (change db)))
      → Yields Q ((exec change >> m) answers db)
  unfolding statement
  exec-Yields Q change m [] db k = k []
  exec-Yields Q change m (true ∷ answers) db k = k answers
  exec-Yields Q change m (false ∷ answers) db k = tt

  close-Yields :
      (P : Bool × A → Db → Type 0) (Q : A → Db → Type 0) (before : Db) (o : Outcome (Bool × A))
      → Yields P o
      → ((a : A) (db : Db) → P (true, a) db → Q a db)
      → ((a : A) (db : Db) → P (false, a) db → Q a before)
      → Yields Q (close before o)
  unfolding close
  close-Yields P Q before (failed answers) h kept back = tt
  close-Yields P Q before (done (true, a) answers db) h kept back = kept a db h
  close-Yields P Q before (done (false, a) answers db) h kept back = back a db h

  transaction-Yields :
      (P : Bool × A → Db → Type 0) (Q : A → Db → Type 0) (body : Tx (Bool × A)) (answers : Answers)
      (db : Db)
      → ((rest : Answers) → Yields P (body rest db))
      → ((a : A) (after : Db) → P (true, a) after → Q a after)
      → ((a : A) (after : Db) → P (false, a) after → Q a db)
      → Yields Q (transaction body answers db)
  unfolding transaction statement
  transaction-Yields P Q body [] db h kept back = close-Yields P Q db _ (h []) kept back
  transaction-Yields P Q body (true ∷ answers) db h kept back =
      close-Yields P Q db _ (h answers) kept back
  transaction-Yields P Q body (false ∷ answers) db h kept back = tt

unfoldable pub insert_all : List PendingChunk → Db → Db
insert_all [] db = db
insert_all (c ∷ cs) db = insert_all cs (insert_row c db)

sum_onto : ℕ → List PendingChunk → ℕ
sum_onto readings [] = readings
sum_onto readings (c ∷ cs) = sum_onto (add64 readings c.n) cs

sum_onto-total :
    (a : ℕ) (cs : List PendingChunk) → a < two64 → sum_onto a cs ≡ (a + total_pending cs) % two64
unfolding sum_onto
sum_onto-total a [] h = omega arith
sum_onto-total a (c ∷ cs) h = omega (arith, sum_onto-total (add64 a c.n) cs (omega arith))

sum_onto-zero : (cs : List PendingChunk) → sum_onto 0 cs ≡ total_pending cs % two64
sum_onto-zero cs = omega (arith, sum_onto-total 0 cs (omega arith))

insert_each-Yields :
    (readings : ℕ) (batch : List PendingChunk) (answers : Answers) (db : Db)
    → Yields
        (λ r db'. (r ≡ sum_onto readings batch) × (db' ≡ insert_all batch db))
        (insert_each readings batch answers db)
unfolding insert_each insert_all sum_onto
insert_each-Yields readings [] answers db = (refl, refl)
insert_each-Yields readings (c ∷ cs) answers db =
    exec-Yields _ (insert_row c) (insert_each (add64 readings c.n) cs) answers db
      (λ rest. insert_each-Yields (add64 readings c.n) cs rest (insert_row c db))

-- The file after a batch was stored: the rows at the end, the counters in step.
abbrev pub stored : List PendingChunk → Db → Db
stored batch db =
    add_readings (total_pending batch % two64)
      (add_chunks (wrap64 (length batch)) (insert_all batch db))

pub insert_chunks-Yields :
    (batch : List PendingChunk) (answers : Answers) (db : Db)
    → Yields (λ _ db'. db' ≡ stored batch db) (insert_chunks batch answers db)
unfolding insert_chunks
insert_chunks-Yields batch answers db =
    transaction-Yields (λ r db'. (r.0 ≡ true) × (db' ≡ stored batch db)) _ _ answers db
      (λ rest.
        Yields->>= _ _ (insert_each 0 batch rest db) _ (insert_each-Yields 0 batch rest db)
          λ readings rest' db' h. exec-Yields _ _ _ rest' db' λ r1.
            exec-Yields _ _ _ r1 _
              λ r2. exec-Yields _ _ _ r2 _ λ r3. (refl, rw (h.0, h.1, sum_onto-zero batch) refl))
      (λ a after h. h.1) (λ a after h. cc (h.0))

-- The file after the rows through `through` were deleted for `why`.
abbrev pub count_gone : Reason → ℕ → Db → Db
count_gone acknowledged readings db = db
count_gone evicted_for_space readings db = add_evicted readings db

abbrev pub deleted : Reason → ℕ → Db → Db
deleted why through db = count_gone why (wrap64 (total_rows (rows_through through db.rows))) (
    add_readings (sub64 0 (wrap64 (total_rows (rows_through through db.rows)))) (
      add_chunks (sub64 0 (wrap64 (length (rows_through through db.rows))))
        (record db { rows = rows_after through db.rows })))

-- Either nothing matched, or the rows are gone and the counters follow.
abbrev pub DeletedThrough : Reason → ℕ → Db → ℕ × ℕ → Db → Type 0
DeletedThrough why through db r db' =
    ((wrap64 (length (rows_through through db.rows)) ≡ 0) × (r.0 ≡ 0) × (r.1 ≡ 0) × (db' ≡ db))
    ⊎ ((r.0 ≡ wrap64 (length (rows_through through db.rows)))
        × (r.1 ≡ wrap64 (total_rows (rows_through through db.rows)))
        × (db' ≡ deleted why through db))

count_reason-Yields :
    (Q : Bool × (ℕ × ℕ) → Db → Type 0) (why : Reason) (readings : ℕ) (m : Tx (Bool × (ℕ × ℕ)))
    (answers : Answers) (db : Db)
    → ((rest : Answers) → Yields Q (m rest (count_gone why readings db)))
    → Yields Q ((count_reason why readings >> m) answers db)
unfolding count_reason
count_reason-Yields Q acknowledged readings m answers db k = k answers
count_reason-Yields Q evicted_for_space readings m answers db k =
    exec-Yields Q (add_evicted readings) m answers db k

abbrev DeletedFound : Reason → ℕ → Db → Bool × (ℕ × ℕ) → Db → Type 0
DeletedFound why through db r db' =
    ((r.0 ≡ false) × (wrap64 (length (rows_through through db.rows)) ≡ 0) × (r.1 ≡ (0, 0)))
    ⊎ ((r.0 ≡ true)
        × (r.1 ≡ (
          wrap64 (length (rows_through through db.rows)),
          wrap64 (total_rows (rows_through through db.rows)),
        ))
        × (db' ≡ deleted why through db))

delete_found-Yields :
    (why : Reason) (through : ℕ) (answers : Answers) (db : Db)
    → let chunks = wrap64 (length (rows_through through db.rows)) in
      let readings = wrap64 (total_rows (rows_through through db.rows)) in
      Yields (DeletedFound why through db) (delete_found why through (chunks, readings) answers db)
unfolding delete_found
delete_found-Yields why through answers db =
    elim (Bool-cases (wrap64 (length (rows_through through db.rows)) == 0)) [
      | inl none_found ↦ rw none_found (inl (refl, ground arith, refl))
      | inr found ↦ rw found (
          exec-Yields _ _ _ answers db λ r1. exec-Yields _ _ _ r1 _ λ r2.
            exec-Yields _ _ _ r2 _ λ r3.
              count_reason-Yields _ why _ _ r3 _
                λ r4. exec-Yields _ _ _ r4 _ λ r5. inr (refl, refl, refl))
    ]

pub delete_through-Yields :
    (why : Reason) (through : ℕ) (answers : Answers) (db : Db)
    → Yields (DeletedThrough why through db) (delete_through why through answers db)
unfolding delete_through
delete_through-Yields why through answers db =
    transaction-Yields (DeletedFound why through db) _ _ answers db
      (λ rest.
        Yields->>= _ _ (query found rest db) _ (statement-Yields found (λ d. d) rest db)
          λ r rest' db' h. rw (h.0, h.1) (delete_found-Yields why through rest' db))
      (λ a after h. ground arith) (λ a after h. ground arith)
  where
    found : Db → ℕ × ℕ
    found d = (
      wrap64 (length (rows_through through d.rows)),
      wrap64 (total_rows (rows_through through d.rows)),
    )

abbrev pub Answered : ℕ → Outcome (ℕ × ℕ) → Type 0
Answered n (done a answers db) = a.0 ≡ n
Answered n (failed answers) = false ≡ true

-- When no statement fails, and there are rows to delete, their number is returned.
pub delete_through-Answered :
    (why : Reason) (through : ℕ) (db : Db)
    → (wrap64 (length (rows_through through db.rows)) == 0) ≡ false
    → Answered (wrap64 (length (rows_through through db.rows))) (delete_through why through [] db)
unfolding delete_through transaction close statement delete_found count_reason
delete_through-Answered acknowledged through db h = rw (h, close) refl
delete_through-Answered evicted_for_space through db h = rw (h, close) refl

-- The file without the row, when it was there.
abbrev pub without_row : ℕ → ℕ → Db → Db
without_row seq n db =
    add_readings (sub64 0 n) (add_chunks (sub64 0 1) (record db { rows = rows_but seq db.rows }))

abbrev pub Discarded : ℕ → ℕ → Db → Bool → Db → Type 0
Discarded seq n db r db' =
    ((length (rows_at seq db.rows) ≡ 0) × (r ≡ false) × (db' ≡ db))
    ⊎ ((r ≡ true) × (db' ≡ without_row seq n db))

abbrev DiscardedFound : ℕ → ℕ → Db → Bool × Bool → Db → Type 0
DiscardedFound seq n db r db' =
    ((r.0 ≡ false) × (length (rows_at seq db.rows) ≡ 0) × (r.1 ≡ false))
    ⊎ ((r.0 ≡ true) × (r.1 ≡ true) × (db' ≡ without_row seq n db))

pub discard_row-Yields :
    (seq n : ℕ) (answers : Answers) (db : Db)
    → Yields (Discarded seq n db) (discard_row seq n answers db)
unfolding discard_row
discard_row-Yields seq n answers db =
    transaction-Yields (DiscardedFound seq n db) _ _ answers db
      (λ rest.
        Yields->>= _ _ (statement read change rest db) _ (statement-Yields read change rest db)
          λ r rest' db' h. rw (h.0, h.1) (found rest'))
      (λ a after h. ground arith) (λ a after h. ground arith)
  where
    read : Db → ℕ
    read d = length (rows_at seq d.rows)

    change : Db → Db
    change d = record d { rows = rows_but seq d.rows }

    found :
        (rest : Answers)
        → Yields
            (DiscardedFound seq n db)
            (discard_found n (length (rows_at seq db.rows)) rest (change db))
    found rest =
        unfold discard_found in
        elim (Bool-cases (length (rows_at seq db.rows) == 0)) [
          | inl gone ↦ rw (gone, discard_found) (inl (refl, ground arith, refl))
          | inr there ↦
              rw (there, discard_found)
                (exec-Yields _ _ _ rest _ λ r1.
                  exec-Yields _ _ _ r1 _ λ r2. exec-Yields _ _ _ r2 _ λ r3. inr (refl, refl, refl))
        ]
