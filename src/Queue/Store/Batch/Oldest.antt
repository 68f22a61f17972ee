-- ===== src/Queue/Store/Batch/Oldest.antt =====
-- Which chunks `ReadBatch` of internal/queue/store.go returns.
use nx_iio_t_gateway_max_gat.Shared.{
  ℕ, zero, suc, ◌+◌, ◌≤◌, ◌<◌, ◌≡◌, ◌≢◌, refl, ap, ◌∙◌, ◌⊎◌, inl, inr, true, List, [], ◌∷◌, ◌++◌,
  append_assoc, append-nil, none, some, arith, Bool-cases, Option-cases, length, take, add64, lt64,
  two63,
}
use nx_iio_t_gateway_max_gat.Queue.Store.Batch.{scan_rows-take}
use nx_iio_t_gateway_max_gat.Queue.Types.{Reading, Chunk}
use nx_iio_t_gateway_max_gat.Queue.Db.{Row, total_rows}
use nx_iio_t_gateway_max_gat.Queue.Store.{
  Codec, Store, discard, DiscardAnswers, next_answers, later_answers, scan_rows, decode_rows,
  read_batch, read_batch_scan_limit,
}

-- The rows that can be decoded, as chunks, in order.
unfoldable pub decodable : Codec → List Row → List Chunk
decodable c [] = []
decodable c (r ∷ rs) = elim (c.decode r.blob) [
  | none ↦ decodable c rs
  | some readings ↦ record { seq = r.seq; readings = readings } ∷ decodable c rs
]

pub decode_rows-decodable :
    (c : Codec) (answers : List DiscardAnswers) (before : List Chunk) (rs : List Row) (s : Store)
    (chunks : List Chunk)
    → (decode_rows c answers before rs s).1 ≡ some chunks
    → chunks ≡ before ++ decodable c rs
unfolding decode_rows decodable
decode_rows-decodable c answers before [] s chunks e = rw append-nil (cc e)
decode_rows-decodable c answers before (r ∷ rs) s chunks e = elim (Option-cases (c.decode r.blob)) [
  | inr (readings, good) ↦
      let here : Chunk = record { seq = r.seq; readings = readings } in
      rw (good, decodable)
        (decode_rows-decodable c answers (before ++ here ∷ []) rs s chunks
            (rw (good, decode_rows) at e)
          ∙ append_assoc before (here ∷ []) (decodable c rs))
  | inl corrupt ↦
      let step = discard (next_answers answers).0 (next_answers answers).1 r.seq r.n s in
      elim (Bool-cases step.1) [
        | inl went ↦
            rw (corrupt, decodable)
              (decode_rows-decodable c (later_answers answers) before rs step.0 chunks
                (rw (corrupt, decode_rows, went, decode_rows) at e))
        | inr broke ↦ cc (rw (corrupt, decode_rows, broke, decode_rows) at e)
      ]
]

-- Where the scan from `total` stops.
pub record IsScan (limit total : ℕ) (rs : List Row) (n : ℕ) : Type 0 where
  pub within : n ≤ length rs
  pub some_row : rs ≢ [] → 0 < n
  pub full : (n ≡ length rs) ⊎ (limit ≤ total + total_rows (take n rs))
  pub no_further : (k : ℕ) → k < n → total + total_rows (take k rs) < limit

scan_rows_stops :
    (limit total : ℕ) (rs : List Row)
    → limit < two63
    → total < limit
    → total + total_rows rs < two63
    → (n : ℕ) × (scan_rows limit total rs ≡ take n rs) × IsScan limit total rs n
unfolding scan_rows
scan_rows_stops limit total [] hl ht hs = (
  0,
  refl,
  record {
    within = omega arith;
    some_row = λ h. absurd (h refl);
    full = inl refl;
    no_further = λ k h. elim h [ ];
  },
)
scan_rows_stops limit total (r ∷ rs) hl ht hs = elim (Bool-cases (lt64 (add64 total r.n) limit)) [
  | inl more ↦
      let (n, e, scan) =
        scan_rows_stops limit (add64 total r.n) rs hl (ground (arith, more)) (omega arith) in
      (
        suc n,
        rw (more, e) refl,
        record {
          within = omega (arith, scan.within);
          some_row = λ h. omega arith;
          full = elim scan.full [ inl a ↦ inl (omega arith) | inr b ↦ inr (omega arith) ];
          no_further = further n scan;
        },
      )
  | inr enough ↦ (
    1,
    rw enough refl,
    record {
      within = omega arith;
      some_row = λ h. omega arith;
      full = inr (ground (arith, enough));
      no_further = λ k h. let first : k ≡ 0 = omega arith in rw first (omega arith);
    },
  )
]
  where
    further :
        (n : ℕ)
        → IsScan limit (add64 total r.n) rs n
        → (k : ℕ) → k < suc n
        → total + total_rows (take k (r ∷ rs)) < limit
    further n scan zero h = omega arith
    further n scan (suc k) h = omega (arith, scan.no_further k (omega arith))

total_rows-take : (n : ℕ) (rs : List Row) → total_rows (take n rs) ≤ total_rows rs
total_rows-take zero rs = omega arith
total_rows-take (suc n) [] = omega arith
total_rows-take (suc n) (r ∷ rs) = omega (arith, total_rows-take n rs)

-- A batch is the decodable chunks of the first n of the oldest 500 rows: n is not 0 unless the
-- table is empty, before the last of them the readings stay below the limit, and with it they
-- reach the limit or the rows come to their end.
pub read_batch_oldest :
    (c : Codec) (answers : List DiscardAnswers) (limit : ℕ) (s : Store) (chunks : List Chunk)
    → 0 < limit
    → limit < two63
    → total_rows s.db.rows < two63
    → (read_batch c true answers limit s).1 ≡ some chunks
    → (n : ℕ) × IsScan limit 0 (take read_batch_scan_limit s.db.rows) n
      × (chunks ≡ decodable c (take n (take read_batch_scan_limit s.db.rows)))
unfolding read_batch
read_batch_oldest c answers limit s chunks h0 hl hs e =
    let rows = take read_batch_scan_limit s.db.rows in
    let (n, first, scan) =
      scan_rows_stops limit 0 rows hl h0
        (omega (arith, total_rows-take read_batch_scan_limit s.db.rows)) in
    (n, scan, decode_rows-decodable c answers [] (take n rows) s chunks (rw first at e))

-- Every row decodes.
abbrev pub AllDecode : Codec → List Row → Type 0
AllDecode c [] = Unit {0}
AllDecode c (r ∷ rs) =
    ((readings : List Reading) × (c.decode r.blob ≡ some readings)) × AllDecode c rs

decode_rows_unchanged :
    (c : Codec) (answers : List DiscardAnswers) (before : List Chunk) (rs : List Row) (s : Store)
    → AllDecode c rs
    → decode_rows c answers before rs s ≡ (s, some (before ++ decodable c rs))
unfolding decode_rows decodable
decode_rows_unchanged c answers before [] s h = rw append-nil refl
decode_rows_unchanged c answers before (r ∷ rs) s ((readings, good), h) =
    let here : Chunk = record { seq = r.seq; readings = readings } in
    rw (good, decode_rows, decodable)
      (decode_rows_unchanged c answers (before ++ here ∷ []) rs s h
        ∙ ap (λ l. (s, some l)) (append_assoc before (here ∷ []) (decodable c rs)))

AllDecode-take : (c : Codec) (n : ℕ) (rs : List Row) → AllDecode c rs → AllDecode c (take n rs)
AllDecode-take c zero rs h = tt
AllDecode-take c (suc n) [] h = tt
AllDecode-take c (suc n) (r ∷ rs) h = (h.0, AllDecode-take c n rs h.1)

-- Without a corrupt chunk reading cannot fail after the query and changes nothing.
pub read_batch_unchanged :
    (c : Codec) (answers : List DiscardAnswers) (limit : ℕ) (s : Store)
    → AllDecode c s.db.rows
    → (n : ℕ) × (read_batch c true answers limit s
        ≡ (s, some (decodable c (take n (take read_batch_scan_limit s.db.rows)))))
unfolding read_batch
read_batch_unchanged c answers limit s h =
    let rows = take read_batch_scan_limit s.db.rows in
    let (n, first) = scan_rows-take limit 0 rows in
    (
      n,
      rw first (
          decode_rows_unchanged c answers [] (take n rows) s
            (AllDecode-take c n rows (AllDecode-take c read_batch_scan_limit s.db.rows h))),
    )
