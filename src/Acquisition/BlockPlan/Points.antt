-- ===== src/Acquisition/BlockPlan/Points.antt =====
-- Which datapoints the plan of internal/acquisition/blockplan.go reads, for any way to sort a group
-- and any order of the map.
use mathlib.Core.List.{Perm, filter_map, filter_map-cons-none, filter_map-cons-some, perm_middle}
use mathlib.Core.List.Perm
use nx_iio_t_gateway_max_gat.Shared.{
  ℕ, ◌≡◌, ◌≢◌, refl, sym, ap, ◌∙◌, inl, inr, ◌||◌, List, [], ◌∷◌, ◌++◌, append_assoc, Option, none,
  some, ◌==◌, ==_iff, if◌then◌else◌, Bool-cases, Option-cases, All, In,
}
use nx_iio_t_gateway_max_gat.Modbus.Decode.{register_count}
use nx_iio_t_gateway_max_gat.Acquisition.Types.{DataPoint}
use nx_iio_t_gateway_max_gat.Acquisition.BlockPlan.{
  ReadBlock, new_block, one_by_one, group_of, plan_group, plan_block_reads,
}
use nx_iio_t_gateway_max_gat.Acquisition.BlockPlan.Cover.{points_of, known_points, merge-points}

points_of-append : (as' bs : List ReadBlock) → points_of (as' ++ bs) ≡ points_of as' ++ points_of bs
points_of-append [] bs = refl
points_of-append (a ∷ as') bs =
    rw (points_of-append as' bs) (sym (append_assoc a.points (points_of as') (points_of bs)))

one_by_one-points :
    (fc : ℕ) (dps : List DataPoint) → points_of (one_by_one fc dps) ≡ known_points dps
unfolding one_by_one known_points new_block
one_by_one-points fc [] = refl
one_by_one-points fc (dp ∷ dps) = elim (Option-cases (register_count dp.data_type)) [
  | inl strange ↦ rw (strange, one_by_one, known_points) (one_by_one-points fc dps)
  | inr (q, known) ↦
      rw (known, one_by_one, known_points) (ap (λ l. dp ∷ l) (one_by_one-points fc dps))
]

if_known : DataPoint → Option DataPoint
if_known dp = elim (register_count dp.data_type) [ none ↦ none | some q ↦ some dp ]

known_points-filter_map : (dps : List DataPoint) → known_points dps ≡ filter_map if_known dps
unfolding known_points if_known filter_map
known_points-filter_map [] = refl
known_points-filter_map (dp ∷ dps) = elim (Option-cases (register_count dp.data_type)) [
  | inl strange ↦
      let e : if_known dp ≡ none = rw (strange, if_known) refl in
      rw (strange, known_points)
        (known_points-filter_map dps ∙ sym (filter_map-cons-none if_known dp dps e))
  | inr (q, known) ↦
      let e : if_known dp ≡ some dp = rw (known, if_known) refl in
      rw (known, known_points)
        (ap (λ l. dp ∷ l) (known_points-filter_map dps)
          ∙ sym (filter_map-cons-some if_known dp dps e))
]

known_points-Perm : (xs ys : List DataPoint) → Perm xs ys → Perm (known_points xs) (known_points ys)
known_points-Perm xs ys p =
    rw (known_points-filter_map xs, known_points-filter_map ys) (Perm.filter_map if_known p)

-- The datapoints of the other groups.
others : ℕ → List DataPoint → List DataPoint
others fc [] = []
others fc (dp ∷ dps) =
    let rest = others fc dps in if dp.function_code == fc then rest else dp ∷ rest

group_others :
    (fc : ℕ) (dps : List DataPoint)
    → Perm (known_points (group_of fc dps) ++ known_points (others fc dps)) (known_points dps)
unfolding known_points group_of others
group_others fc [] = Perm.refl []
group_others fc (dp ∷ dps) =
    let later = group_others fc dps in
    elim (Bool-cases (dp.function_code == fc)) [
      | inl mine ↦ elim (Option-cases (register_count dp.data_type)) [
        | inl strange ↦ rw (mine, group_of, others, strange, known_points) later
        | inr (q, known) ↦ rw (mine, group_of, others, known, known_points) (Perm.cons dp later)
      ]
      | inr other ↦ elim (Option-cases (register_count dp.data_type)) [
        | inl strange ↦ rw (other, group_of, others, strange, known_points) later
        | inr (q, known) ↦
            rw (other, group_of, others, known, known_points)
              (Perm.trans
                (perm_middle (known_points (group_of fc dps)) (known_points (others fc dps)))
                (Perm.cons dp later))
      ]
    ]

group_of-others :
    (fc fc' : ℕ) (dps : List DataPoint) → fc' ≢ fc → group_of fc' (others fc dps) ≡ group_of fc' dps
unfolding group_of others
group_of-others fc fc' [] h = refl
group_of-others fc fc' (dp ∷ dps) h = elim (Bool-cases (dp.function_code == fc)) [
  | inl mine ↦
      let e : dp.function_code ≡ fc = (==_iff dp.function_code fc).0 mine in
      elim (Bool-cases (dp.function_code == fc')) [
        | inl both ↦ absurd (h (sym ((==_iff dp.function_code fc').0 both) ∙ e))
        | inr apart ↦ rw (mine, others, apart, group_of) (group_of-others fc fc' dps h)
      ]
  | inr other ↦ elim (Bool-cases (dp.function_code == fc')) [
    | inl both ↦
        rw (other, others, both, group_of) (ap (λ l. dp ∷ l) (group_of-others fc fc' dps h))
    | inr apart ↦ rw (other, others, apart, group_of) (group_of-others fc fc' dps h)
  ]
]

-- The loop over the groups reads only the datapoints of its codes.
plan_others :
    (sort : List DataPoint → List DataPoint) (fc : ℕ) (codes : List ℕ) (dps : List DataPoint)
    → All (λ code. code ≢ fc) codes
    → plan_block_reads sort codes (others fc dps) ≡ plan_block_reads sort codes dps
unfolding plan_block_reads
plan_others sort fc [] dps h = refl
plan_others sort fc (code ∷ codes) dps h =
    rw (group_of-others fc code dps h.0, plan_others sort fc codes dps h.1) refl

-- Each code once.
abbrev pub AreDistinct : List ℕ → Type 0
AreDistinct [] = Unit
AreDistinct (fc ∷ codes) = All (λ code. code ≢ fc) codes × AreDistinct codes

abbrev pub AreCovered : List ℕ → List DataPoint → Type 0
AreCovered codes dps = All (λ dp. In dp.function_code codes) dps

others-AreCovered :
    (fc : ℕ) (codes : List ℕ) (dps : List DataPoint)
    → AreCovered (fc ∷ codes) dps
    → AreCovered codes (others fc dps)
unfolding others
others-AreCovered fc codes [] h = tt
others-AreCovered fc codes (dp ∷ dps) h = elim (Bool-cases (dp.function_code == fc)) [
  | inl mine ↦ rw (mine, others) (others-AreCovered fc codes dps h.1)
  | inr other ↦ elim h.0 [
    | inl e ↦ cc (sym other ∙ (==_iff dp.function_code fc).1 e)
    | inr later ↦ rw (other, others) (later, others-AreCovered fc codes dps h.1)
  ]
]

plan_group-Perm :
    (sort : List DataPoint → List DataPoint) (fc : ℕ) (group : List DataPoint)
    → ((dps : List DataPoint) → Perm (sort dps) dps)
    → Perm (points_of (plan_group sort fc group)) (known_points group)
unfolding plan_group
plan_group-Perm sort fc group sorts = elim (Bool-cases (fc == 1 || fc == 2)) [
  | inl single ↦ rw (single, plan_group, one_by_one-points fc group) (Perm.refl _)
  | inr merged ↦
      rw (merged, plan_group, merge-points fc (sort group))
        (known_points-Perm (sort group) group (sorts group))
]

-- The plan of a device reads each of its datapoints with a known data type once, and no other.
pub plan_block_reads-Perm :
    (sort : List DataPoint → List DataPoint) (codes : List ℕ) (dps : List DataPoint)
    → ((xs : List DataPoint) → Perm (sort xs) xs)
    → AreDistinct codes
    → AreCovered codes dps
    → Perm (points_of (plan_block_reads sort codes dps)) (known_points dps)
unfolding plan_block_reads
plan_block_reads-Perm sort [] [] sorts distinct covered = unfold known_points in Perm.refl []
plan_block_reads-Perm sort [] (dp ∷ dps) sorts distinct covered = absurd covered.0
plan_block_reads-Perm sort (fc ∷ codes) dps sorts distinct covered =
    let rest =
      plan_block_reads-Perm sort codes (others fc dps) sorts distinct.1
        (others-AreCovered fc codes dps covered) in
    rw
      (
        points_of-append (plan_group sort fc (group_of fc dps)) (plan_block_reads sort codes dps),
        ← plan_others sort fc codes dps distinct.0,
      )
      (Perm.trans (Perm.append (plan_group-Perm sort fc (group_of fc dps) sorts) rest)
        (group_others fc dps))
