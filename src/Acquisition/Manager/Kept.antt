-- ===== src/Acquisition/Manager/Kept.antt =====
-- What runs on through `Reload` of internal/acquisition/manager.go.
use nx_iio_t_gateway_max_gat.Shared.{
  ℕ, suc, ◌≡◌, refl, sym, ap, ◌∙◌, inl, inr, Bool, true, List, [], ◌∷◌, none, some, ◌==◌, ==_iff,
  Bool-cases, Option-cases, lookup, insert, lookup-insert, In,
}
use nx_iio_t_gateway_max_gat.Acquisition.Manager.{Group, Running, stop_changed, start_missing}

inserted_elsewhere :
    (id id' : ℕ) (r new : Running) (running : List (ℕ × Running))
    → lookup id' running ≡ none
    → lookup id running ≡ some r
    → lookup id (insert id' new running) ≡ some r
inserted_elsewhere id id' r new running missing h = elim (Bool-cases (id == id')) [
  | inl here ↦
      let e : id ≡ id' = (==_iff id id').0 here in
      cc (sym h ∙ (ap (λ k. lookup k running) e ∙ missing))
  | inr there ↦ rw (lookup-insert id id' new running, there) h
]

module _ (same : Group → Group → Bool) where
  -- One that runs on: it ran before, for a group that is the same.
  pub record IsKept (wanted : List (ℕ × Group)) (running : List (ℕ × Running)) (id : ℕ)
      (r : Running) : Type 0 where
    pub group : Group
    pub is_wanted : lookup id wanted ≡ some group
    pub is_same : same r.group group ≡ true
    pub ran : In (id, r) running

  cons-IsKept :
      {wanted : List (ℕ × Group)} {rs : List (ℕ × Running)} {id : ℕ} {r : Running} (x : ℕ × Running)
      → IsKept wanted rs id r
      → IsKept wanted (x ∷ rs) id r
  cons-IsKept x v = record {
    group = v.group;
    is_wanted = v.is_wanted;
    is_same = v.is_same;
    ran = inr v.ran;
  }

  head-IsKept :
      (wanted : List (ℕ × Group)) (id id' : ℕ) (rc r : Running) (rest rs : List (ℕ × Running))
      (w : Group)
      → (lookup id rest ≡ some r → IsKept wanted rs id r)
      → lookup id' wanted ≡ some w
      → same rc.group w ≡ true
      → lookup id ((id', rc) ∷ rest) ≡ some r
      → IsKept wanted ((id', rc) ∷ rs) id r
  head-IsKept wanted id id' rc r rest rs w later found good h = elim (Bool-cases (id == id')) [
    | inl here ↦
        let e : id ≡ id' = (==_iff id id').0 here in
        let e' : rc ≡ r = cc (rw here at h) in
        record {
          group = w;
          is_wanted = rw e found;
          is_same = rw (sym e') good;
          ran = inl (rw (e, sym e') refl);
        }
    | inr there ↦ cons-IsKept (id', rc) (later (rw there at h))
  ]

  pub stop_changed-IsKept :
      (wanted : List (ℕ × Group)) (running : List (ℕ × Running)) (id : ℕ) (r : Running)
      → lookup id (stop_changed same wanted running).0 ≡ some r
      → IsKept wanted running id r
  unfolding stop_changed
  stop_changed-IsKept wanted [] id r h = cc h
  stop_changed-IsKept wanted ((id', rc) ∷ rs) id r h = elim (Option-cases (lookup id' wanted)) [
    | inl gone ↦
        cons-IsKept (id', rc) (stop_changed-IsKept wanted rs id r (rw (gone, stop_changed) at h))
    | inr (w, found) ↦ elim (Bool-cases (same rc.group w)) [
      | inr changed ↦
          cons-IsKept (id', rc)
            (stop_changed-IsKept wanted rs id r (rw (found, stop_changed, changed) at h))
      | inl good ↦
          head-IsKept wanted id id' rc r (stop_changed same wanted rs).0 rs w
            (stop_changed-IsKept wanted rs id r) found good (rw (found, stop_changed, good) at h)
    ]
  ]

  pub stop_changed_keeps :
      (wanted : List (ℕ × Group)) (running : List (ℕ × Running)) (id : ℕ) (r : Running) (w : Group)
      → lookup id running ≡ some r
      → lookup id wanted ≡ some w
      → same r.group w ≡ true
      → lookup id (stop_changed same wanted running).0 ≡ some r
  unfolding stop_changed
  stop_changed_keeps wanted [] id r w h found good = cc h
  stop_changed_keeps wanted ((id', rc) ∷ rs) id r w h found good = elim (Bool-cases (id == id')) [
    | inl here ↦
        let e : id ≡ id' = (==_iff id id').0 here in
        let e' : rc ≡ r = cc (rw here at h) in
        let found' : lookup id' wanted ≡ some w = rw (sym e) found in
        let good' : same rc.group w ≡ true = rw e' good in
        rw (found', stop_changed, good', here) (ap some e')
    | inr there ↦
        let rest = stop_changed_keeps wanted rs id r w (rw there at h) found good in
        elim (Option-cases (lookup id' wanted)) [
          | inl gone ↦ rw (gone, stop_changed) rest
          | inr (w', found') ↦ elim (Bool-cases (same rc.group w')) [
            | inr changed ↦ rw (found', stop_changed, changed) rest
            | inl unchanged ↦ rw (found', stop_changed, unchanged, there) rest
          ]
        ]
  ]

  pub start_missing_keeps :
      (ws : List (ℕ × Group)) (running : List (ℕ × Running)) (next id : ℕ) (r : Running)
      → lookup id running ≡ some r
      → lookup id (start_missing same ws running next).0 ≡ some r
  unfolding start_missing
  start_missing_keeps [] running next id r h = h
  start_missing_keeps ((id', w) ∷ ws) running next id r h =
      elim (Option-cases (lookup id' running)) [
        | inr (rc, runs) ↦ rw (runs, start_missing) (start_missing_keeps ws running next id r h)
        | inl missing ↦
            let new : Running = record { handle = next; group = w } in
            rw (missing, start_missing)
              (start_missing_keeps ws (insert id' new running) (suc next) id r
                (inserted_elsewhere id id' r new running missing h))
      ]
