-- ===== src/Acquisition/Manager/Goroutines.antt =====
-- The goroutines that `Reload` of internal/acquisition/manager.go has started: each is either the
-- poller of one connection of the table, or cancelled.
use nx_iio_t_gateway_max_gat.Shared.{
  ℕ, suc, ◌+◌, ◌≤◌, ◌≡◌, refl, ap, inl, inr, List, [], ◌∷◌, ◌++◌, none, some, arith, ltb, ◌==◌,
  if◌then◌else◌, Bool, Bool-cases, Option-cases, lookup, insert,
}
use nx_iio_t_gateway_max_gat.Acquisition.Manager.{
  Group, Running, Manager, stop_changed, start_missing, apply_wanted,
}

-- How often a goroutine stands in a list.
unfoldable pub count : ℕ → List ℕ → ℕ
count h [] = 0
count h (x ∷ xs) = (if h == x then 1 else 0) + count h xs

unfoldable pub handles : List (ℕ × Running) → List ℕ
handles [] = []
handles ((id, r) ∷ rs) = r.handle ∷ handles rs

abbrev started_by : ℕ → ℕ → ℕ
started_by h next = if ltb h next then 1 else 0

-- Each goroutine that was started stands once, in the table or among the cancelled, and no other.
unfoldable pub IsManaged : Manager → Type 0
IsManaged m =
    (h : ℕ) → count h (handles m.running) + count h m.cancelled ≡ started_by h m.next_handle

count-append : (h : ℕ) (xs ys : List ℕ) → count h (xs ++ ys) ≡ count h xs + count h ys
unfolding count
count-append h [] ys = omega arith
count-append h (x ∷ xs) ys = omega (arith, count-append h xs ys)

count-insert :
    (h id : ℕ) (r : Running) (rs : List (ℕ × Running))
    → lookup id rs ≡ none
    → count h (handles (insert id r rs)) ≡ (if h == r.handle then 1 else 0) + count h (handles rs)
unfolding count handles
count-insert h id r [] free = refl
count-insert h id r ((id', r') ∷ rs) free = elim (Bool-cases (id == id')) [
  | inl here ↦ cc (rw here at free)
  | inr there ↦ rw there (omega (arith, count-insert h id r rs (rw there at free)))
]

-- A poller of a connection stands among the goroutines of the table.
pub count-lookup :
    (id : ℕ) (r : Running) (rs : List (ℕ × Running))
    → lookup id rs ≡ some r
    → 1 ≤ count r.handle (handles rs)
unfolding count handles
count-lookup id r [] h = cc h
count-lookup id r ((id', r') ∷ rs) h = elim (Bool-cases (id == id')) [
  | inl here ↦
      let same_r : r' ≡ r = cc (rw here at h) in
      let e : r'.handle ≡ r.handle = ap (λ (x : Running). x.handle) same_r in ground (arith, e)
  | inr there ↦ omega (arith, count-lookup id r rs (rw there at h))
]

module _ (same : Group → Group → Bool) where
  count-stop_changed :
      (wanted : List (ℕ × Group)) (rs : List (ℕ × Running)) (h : ℕ)
      → count h (handles (stop_changed same wanted rs).0) + count h (stop_changed same wanted rs).1
        ≡ count h (handles rs)
  unfolding stop_changed count handles
  count-stop_changed wanted [] h = refl
  count-stop_changed wanted ((id, rc) ∷ rs) h =
      let rest = count-stop_changed wanted rs h in
      elim (Option-cases (lookup id wanted)) [
        | inl gone ↦ rw (gone, stop_changed) (omega (arith, rest))
        | inr (w, found) ↦ elim (Bool-cases (same rc.group w)) [
          | inl kept ↦ rw (found, stop_changed, kept) (omega (arith, rest))
          | inr changed ↦ rw (found, stop_changed, changed) (omega (arith, rest))
        ]
      ]

  count-start_missing :
      (ws : List (ℕ × Group)) (rs : List (ℕ × Running)) (next h : ℕ)
      → count h (handles (start_missing same ws rs next).0) + started_by h next
        ≡ count h (handles rs) + started_by h (start_missing same ws rs next).1
  unfolding start_missing
  count-start_missing [] rs next h = refl
  count-start_missing ((id, w) ∷ ws) rs next h = elim (Option-cases (lookup id rs)) [
    | inr (rc, runs) ↦ rw (runs, start_missing) (count-start_missing ws rs next h)
    | inl missing ↦
        let new : Running = record { handle = next; group = w } in
        rw (missing, start_missing)
          (ground (
            arith,
            count-start_missing ws (insert id new rs) (suc next) h,
            count-insert h id new rs missing,
          ))
  ]

  pub apply_wanted-IsManaged :
      (wanted : List (ℕ × Group)) (m : Manager)
      → IsManaged m
      → IsManaged (apply_wanted same wanted m)
  unfolding IsManaged apply_wanted
  apply_wanted-IsManaged wanted m v h = omega (
    arith,
    v h,
    count-stop_changed wanted m.running h,
    count-start_missing wanted (stop_changed same wanted m.running).0 m.next_handle h,
    count-append h m.cancelled (stop_changed same wanted m.running).1,
  )
