-- ===== src/Logs.antt =====
-- internal/logger/ringbuffer.go: the last log entries, oldest first. What an entry holds is any
-- type; the lock makes each step atomic.
use nx_iio_t_gateway_max_gat.Shared.{
  ℕ, zero, suc, ◌+◌, ◌-◌, ◌≤◌, ◌≡◌, refl, ap, sym, ◌∙◌, inl, inr, List, [], ◌∷◌, ◌++◌, append_assoc,
  append-nil, arith, ltb, if◌then◌else◌, Bool-cases, length, length-append, drop, length-drop,
}

pub record RingStorage (Entry : Type 0) : Type 0 where
  pub entries : List Entry
  pub capacity : ℕ

module _ {Entry : Type 0} where
  unfoldable pub add : Entry → RingStorage Entry → RingStorage Entry
  add e s =
      let longer = s.entries ++ e ∷ [] in
      record s {
        entries =
            if ltb s.capacity (length longer)
            then drop (length longer - s.capacity) longer
            else longer;
      }

  unfoldable pub snapshot : RingStorage Entry → List Entry
  snapshot s = s.entries

  abbrev pub new_ring : ℕ → RingStorage Entry
  new_ring capacity = record { entries = []; capacity = capacity }

  -- The entries of many calls of `Handle`.
  unfoldable pub add_all : List Entry → RingStorage Entry → RingStorage Entry
  unfolding add
  add_all [] s = s
  add_all (e ∷ es) s = add_all es (add e s)

  -- The last n entries of a list.
  abbrev pub last_entries : ℕ → List Entry → List Entry
  last_entries n xs = drop (length xs - n) xs

  drop_zero : (n : ℕ) (xs : List Entry) → n ≡ 0 → drop n xs ≡ xs
  drop_zero zero xs h = refl
  drop_zero (suc n) xs h = absurd (omega arith)

  drop_nil : (n : ℕ) → drop {A = Entry} n [] ≡ []
  drop_nil zero = refl
  drop_nil (suc n) = refl

  drop-drop : (a b : ℕ) (xs : List Entry) → drop a (drop b xs) ≡ drop (b + a) xs
  drop-drop a zero xs = ap (λ n. drop n xs) (omega arith)
  drop-drop a (suc b) [] = drop_nil a ∙ sym (drop_nil (suc b + a))
  drop-drop a (suc b) (x ∷ xs) =
      let e : suc b + a ≡ suc (b + a) = omega arith in
      drop-drop a b xs ∙ sym (ap (λ n. drop n (x ∷ xs)) e)

  drop-append : (k : ℕ) (xs ys : List Entry) → k ≤ length xs → drop k xs ++ ys ≡ drop k (xs ++ ys)
  drop-append zero xs ys h = refl
  drop-append (suc k) [] ys h = absurd (omega arith)
  drop-append (suc k) (x ∷ xs) ys h = drop-append k xs ys (omega arith)

  add-last_entries :
      (e : Entry) (s : RingStorage Entry)
      → (add e s).entries ≡ last_entries s.capacity (s.entries ++ e ∷ [])
  unfolding add
  add-last_entries e s =
      let longer = s.entries ++ e ∷ [] in
      elim (Bool-cases (ltb s.capacity (length longer))) [
        | inl more ↦ rw (more, add) refl
        | inr fits ↦
            rw (fits, add) (sym (drop_zero (length longer - s.capacity) longer (ground arith)))
      ]

  add_within : (e : Entry) (s : RingStorage Entry) → length (add e s).entries ≤ s.capacity
  add_within e s =
      rw (add-last_entries e s) (
        omega
          (arith, length-drop (length (s.entries ++ e ∷ []) - s.capacity) (s.entries ++ e ∷ [])))

  last_of_last :
      (n : ℕ) (xs ys : List Entry)
      → last_entries n (last_entries n xs ++ ys) ≡ last_entries n (xs ++ ys)
  last_of_last n xs ys =
      let k = length xs - n in
      let size : length (drop k (xs ++ ys)) ≡ length (xs ++ ys) - k = length-drop k (xs ++ ys) in
      rw (drop-append k xs ys (omega arith)) (
        drop-drop (length (drop k (xs ++ ys)) - n) k (xs ++ ys)
        ∙ ap (λ m. drop m (xs ++ ys)) (omega (arith, size, length-append xs ys)))

  add_all-entries :
      (es : List Entry) (s : RingStorage Entry)
      → length s.entries ≤ s.capacity
      → snapshot (add_all es s) ≡ last_entries s.capacity (s.entries ++ es)
  unfolding add_all snapshot
  add_all-entries [] s h =
      rw (append-nil s.entries)
        (sym (drop_zero (length s.entries - s.capacity) s.entries (omega arith)))
  add_all-entries (e ∷ es) s h =
      add_all-entries es (add e s) (add_within e s)
      ∙ (ap (λ xs. last_entries s.capacity (xs ++ es)) (add-last_entries e s)
          ∙ (last_of_last s.capacity (s.entries ++ e ∷ []) es
              ∙ ap (last_entries s.capacity) (append_assoc s.entries (e ∷ []) es)))

  -- A new ring that was given any entries holds the last of them, as many as its capacity allows, in
  -- their order.
  pub snapshot-add_all :
      (capacity : ℕ) (es : List Entry)
      → snapshot (add_all es (new_ring capacity)) ≡ last_entries capacity es
  snapshot-add_all capacity es = add_all-entries es (new_ring capacity) (omega arith)
