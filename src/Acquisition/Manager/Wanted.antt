-- ===== src/Acquisition/Manager/Wanted.antt =====
-- What `Reload` of internal/acquisition/manager.go polls for a connection, said without its maps: the
-- connection, if it is enabled, with all of its devices in the order of their table.
use nx_iio_t_gateway_max_gat.Shared.{
  ℕ, ◌≡◌, refl, sym, ap, subst, ◌∙◌, inl, inr, false, List, [], ◌∷◌, ◌++◌, append_assoc, Option,
  none, some, arith, ◌==◌, ==_iff, if◌then◌else◌, Bool-cases, Option-cases, lookup, insert,
  lookup-insert,
}
use nx_iio_t_gateway_max_gat.Acquisition.Types.{DataPoint, Device, DeviceWithPoints, Connection}
use nx_iio_t_gateway_max_gat.Acquisition.Manager.{Group, by_id, add_device, collect}

unfoldable or_points : Option (List DataPoint) → List DataPoint
or_points none = []
or_points (some dps) = dps

-- The devices of a connection, with their datapoints.
unfoldable pub members : (ℕ → Option (List DataPoint)) → ℕ → List Device → List DeviceWithPoints
unfolding or_points
members points id [] = []
members points id (d ∷ ds) =
    let rest = members points id ds in
    if d.connection_id == id
    then record { device = d; dps = or_points (points d.id) } ∷ rest
    else rest

unfoldable or_else : Option Connection → Option Connection → Option Connection
or_else (some c) o = some c
or_else none o = o

-- The connection of an id, the last of the list if there are several.
unfoldable pub latest : ℕ → List Connection → Option Connection
unfolding or_else
latest id [] = none
latest id (c ∷ cs) = or_else (latest id cs) (if id == c.id then some c else none)

unfoldable grown : Option Connection → List DeviceWithPoints → Option Group → Option Group
grown none ds g = g
grown (some c) [] g = g
grown (some c) (d ∷ ds) none = some (record { conn = c; devices = d ∷ ds })
grown (some c) (d ∷ ds) (some g) = some (record g { devices = g.devices ++ d ∷ ds })

unfoldable pub wanted_for :
    (ℕ → Option (List DataPoint)) → List Connection → List Device → ℕ → Option Group
unfolding grown members latest
wanted_for points conns devices id = grown (latest id conns) (members points id devices) none

IsKeyed : List (ℕ × Connection) → Type 0
IsKeyed m = (id : ℕ) (c : Connection) → lookup id m ≡ some c → c.id ≡ id

insert-IsKeyed :
    (c : Connection) (m : List (ℕ × Connection)) → IsKeyed m → IsKeyed (insert c.id c m)
unfolding IsKeyed
insert-IsKeyed c m keyed id c' h = elim (Bool-cases (id == c.id)) [
  | inl here ↦
      let e : c ≡ c' = cc (rw (lookup-insert id c.id c m, here) at h) in
      ap (λ (x : Connection). x.id) (sym e) ∙ sym ((==_iff id c.id).0 here)
  | inr there ↦ keyed id c' (rw (lookup-insert id c.id c m, there) at h)
]

by_id-IsKeyed :
    (cs : List Connection) (m : List (ℕ × Connection)) → IsKeyed m → IsKeyed (by_id m cs)
by_id-IsKeyed [] m keyed = keyed
by_id-IsKeyed (c ∷ cs) m keyed = by_id-IsKeyed cs (insert c.id c m) (insert-IsKeyed c m keyed)

or_else_first :
    (o : Option Connection) (c : Connection) (o' : Option Connection)
    → or_else o (some c) ≡ or_else (or_else o (some c)) o'
unfolding or_else
or_else_first none c o' = refl
or_else_first (some x) c o' = refl

or_else_skips : (o o' : Option Connection) → or_else o o' ≡ or_else (or_else o none) o'
unfolding or_else
or_else_skips none o' = refl
or_else_skips (some x) o' = refl

lookup-by_id :
    (cs : List Connection) (m : List (ℕ × Connection)) (id : ℕ)
    → lookup id (by_id m cs) ≡ or_else (latest id cs) (lookup id m)
unfolding latest or_else
lookup-by_id [] m id = refl
lookup-by_id (c ∷ cs) m id =
    let rest = lookup-by_id cs (insert c.id c m) id in
    elim (Bool-cases (id == c.id)) [
      | inl here ↦
          rw (rest, lookup-insert id c.id c m, here) (or_else_first (latest id cs) c (lookup id m))
      | inr there ↦
          rw (rest, lookup-insert id c.id c m, there) (or_else_skips (latest id cs) (lookup id m))
    ]

grown_more :
    (c : Connection) (d : DeviceWithPoints) (ds : List DeviceWithPoints) (g : Option Group)
    → grown (some c) ds (grown (some c) (d ∷ []) g) ≡ grown (some c) (d ∷ ds) g
unfolding grown
grown_more c d [] none = refl
grown_more c d [] (some g) = refl
grown_more c d (d' ∷ ds) none = refl
grown_more c d (d' ∷ ds) (some g) =
    ap (λ xs. some (record g { devices = xs })) (append_assoc g.devices (d ∷ []) (d' ∷ ds))

lookup-add_device :
    (c : Connection) (d : DeviceWithPoints) (wanted : List (ℕ × Group)) (id : ℕ)
    → lookup id (add_device c d wanted)
      ≡ (if id == c.id then grown (some c) (d ∷ []) (lookup c.id wanted) else lookup id wanted)
unfolding add_device grown
lookup-add_device c d wanted id = elim (Option-cases (lookup c.id wanted)) [
  | inl new ↦ rw (new, add_device) (lookup-insert id c.id _ wanted)
  | inr (g, old) ↦ rw (old, add_device) (lookup-insert id c.id _ wanted)
]

added_here :
    (c : Connection) (d : DeviceWithPoints) (wanted : List (ℕ × Group)) (id : ℕ)
    → c.id ≡ id
    → lookup id (add_device c d wanted) ≡ grown (some c) (d ∷ []) (lookup id wanted)
added_here c d wanted id e =
    subst (λ k. lookup k (add_device c d wanted) ≡ grown (some c) (d ∷ []) (lookup k wanted)) e
      (lookup-add_device c d wanted c.id ∙ rw ((==_iff c.id c.id).1 refl) refl)

added_elsewhere :
    (c : Connection) (d : DeviceWithPoints) (wanted : List (ℕ × Group)) (id : ℕ)
    → (id == c.id) ≡ false
    → lookup id (add_device c d wanted) ≡ lookup id wanted
added_elsewhere c d wanted id h = lookup-add_device c d wanted id ∙ rw h refl

grown_empty : (o : Option Connection) (g : Option Group) → grown o [] g ≡ g
unfolding grown
grown_empty none g = refl
grown_empty (some c) g = refl

lookup-collect :
    (points : ℕ → Option (List DataPoint)) (conns : List (ℕ × Connection)) (ds : List Device)
    (wanted out : List (ℕ × Group)) (id : ℕ)
    → IsKeyed conns
    → collect points conns ds wanted ≡ some out
    → lookup id out ≡ grown (lookup id conns) (members points id ds) (lookup id wanted)
unfolding collect members grown or_points IsKeyed
lookup-collect points conns [] wanted out id keyed h =
    let e : wanted ≡ out = cc h in
    rw (sym e) (sym (grown_empty (lookup id conns) (lookup id wanted)))
lookup-collect points conns (d ∷ ds) wanted out id keyed h =
    elim (Option-cases (lookup d.connection_id conns)) [
      | inl gone ↦
          let rest = lookup-collect points conns ds wanted out id keyed (rw (gone, collect) at h) in
          elim (Bool-cases (d.connection_id == id)) [
            | inr other ↦ rw other rest
            | inl here ↦
                let none_here : lookup id conns ≡ none =
                  subst (λ k. lookup k conns ≡ none) ((==_iff d.connection_id id).0 here) gone in
                rw (here, none_here) (rw none_here at rest)
          ]
      | inr (c, there) ↦ elim (Option-cases (points d.id)) [
        | inl broken ↦ cc (rw (there, collect, broken) at h)
        | inr (dps, read) ↦
            let dev : DeviceWithPoints = record { device = d; dps = dps } in
            let rest =
              lookup-collect points conns ds (add_device c dev wanted) out id keyed
                (rw (there, collect, read) at h) in
            elim (Bool-cases (d.connection_id == id)) [
              | inr other ↦
                  let elsewhere : (id == c.id) ≡ false =
                    ground (arith, other, keyed d.connection_id c there) in
                  rw other (
                    rest
                    ∙ ap (grown (lookup id conns) (members points id ds))
                        (added_elsewhere c dev wanted id elsewhere))
              | inl here ↦
                  let there' : lookup id conns ≡ some c =
                    subst (λ k. lookup k conns ≡ some c) ((==_iff d.connection_id id).0 here)
                      there in
                  rw (here, read, there')
                    ((rw there' at rest)
                      ∙ (ap (grown (some c) (members points id ds))
                            (added_here c dev wanted id (keyed id c there'))
                          ∙ grown_more c dev (members points id ds) (lookup id wanted)))
            ]
      ]
    ]

empty-IsKeyed : IsKeyed []
unfolding IsKeyed
empty-IsKeyed id c h = cc h

or_else-none : (o : Option Connection) → or_else o none ≡ o
unfolding or_else
or_else-none none = refl
or_else-none (some c) = refl

-- What `Reload` collects is what is wanted for each connection.
pub collect_lem :
    (points : ℕ → Option (List DataPoint)) (conns : List Connection) (ds : List Device)
    (wanted : List (ℕ × Group)) (id : ℕ)
    → collect points (by_id [] conns) ds [] ≡ some wanted
    → lookup id wanted ≡ wanted_for points conns ds id
unfolding wanted_for
collect_lem points conns ds wanted id h =
    lookup-collect points (by_id [] conns) ds [] wanted id (by_id-IsKeyed conns [] empty-IsKeyed) h
    ∙ ap (λ o. grown o (members points id ds) none)
        (lookup-by_id conns [] id ∙ or_else-none (latest id conns))
