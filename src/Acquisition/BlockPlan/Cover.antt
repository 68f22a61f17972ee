-- ===== src/Acquisition/BlockPlan/Cover.antt =====
-- What the blocks of internal/acquisition/blockplan.go cover.
use nx_iio_t_gateway_max_gat.Shared.{
  ℕ, ◌+◌, ◌-◌, ◌≤◌, ◌<◌, ◌≡◌, refl, ap, ◌∙◌, inl, inr, Bool, true, false, ◌&&◌, List, [], ◌∷◌, ◌++◌,
  append_assoc, none, some, arith, ltb, ltb→lt, leb→le, All, All-append, All-map, Bool-cases,
  Option-cases,
}
use nx_iio_t_gateway_max_gat.Modbus.Decode.{DataType, byte_width, register_count}
use nx_iio_t_gateway_max_gat.Acquisition.Types.{DataPoint}
use nx_iio_t_gateway_max_gat.Acquisition.BlockPlan.{
  ReadBlock, add16, sub16, new_block, fits, extend, merge,
}

-- The registers of the point lie in the block's.
pub record IsCovered (b : ReadBlock) (dp : DataPoint) : Type 0 where
  pub registers : ℕ
  pub known : register_count dp.data_type ≡ some registers
  pub from_start : b.start_address ≤ dp.register_address
  pub to_end : dp.register_address + registers ≤ b.start_address + b.quantity

-- A request that the protocol allows and that covers its points.
pub record IsBlock (b : ReadBlock) : Type 0 where
  pub covered : All (IsCovered b) b.points
  pub allowed : b.quantity ≤ 125
  pub in_range : b.start_address + b.quantity ≤ 65535

-- Sorted by address, each at least `lo`, and none that reaches the last register.
abbrev pub IsSorted : ℕ → List DataPoint → Type 0
IsSorted lo [] = Unit {0}
IsSorted lo (dp ∷ dps) =
    (lo ≤ dp.register_address)
    × (dp.register_address + 4 ≤ 65535)
    × IsSorted dp.register_address dps

register_count-le : (d : DataType) (q : ℕ) → register_count d ≡ some q → q ≤ 4
unfolding register_count byte_width
register_count-le d q h = ground arith

new_block-IsBlock :
    (fc : ℕ) (dp : DataPoint) (q : ℕ)
    → register_count dp.data_type ≡ some q
    → dp.register_address + 4 ≤ 65535
    → IsBlock (new_block fc dp q)
unfolding new_block
new_block-IsBlock fc dp q h r =
    let small = register_count-le dp.data_type q h in
    record {
      covered =
          (record { registers = q; known = h; from_start = omega arith; to_end = omega arith }, tt);
      allowed = omega arith;
      in_range = omega arith;
    }

wider-IsCovered :
    (b b' : ReadBlock) (dp : DataPoint)
    → b'.start_address ≡ b.start_address
    → b.quantity ≤ b'.quantity
    → IsCovered b dp
    → IsCovered b' dp
wider-IsCovered b b' dp e w v = record {
  registers = v.registers;
  known = v.known;
  from_start = omega (arith, v.from_start);
  to_end = omega (arith, v.to_end);
}

and_right : (a b : Bool) → (a && b) ≡ true → b ≡ true
and_right true b h = h
and_right false b h = cc

ltb-false : (a b : ℕ) → ltb a b ≡ false → b ≤ a
ltb-false a b h = ground arith

fits_near :
    (b : ReadBlock) (dp : DataPoint) (q : ℕ)
    → b.start_address ≤ dp.register_address
    → dp.register_address + q ≤ 65535
    → fits b dp q ≡ true
    → dp.register_address + q - b.start_address ≤ 125
unfolding fits
fits_near b dp q lo hi f =
    let apart : sub16 (add16 dp.register_address q) b.start_address
        ≡ dp.register_address + q - b.start_address =
      omega arith in
    leb→le (dp.register_address + q - b.start_address) 125 (and_right _ _ (rw apart at f))

extend_bounds :
    (b : ReadBlock) (dp : DataPoint) (q : ℕ)
    → b.start_address + b.quantity ≤ 65535
    → b.quantity ≤ 125
    → b.start_address ≤ dp.register_address
    → dp.register_address + q ≤ 65535
    → fits b dp q ≡ true
    → ((extend b dp q).start_address ≡ b.start_address)
      × (b.quantity ≤ (extend b dp q).quantity)
      × ((extend b dp q).quantity ≤ 125)
      × (b.start_address + (extend b dp q).quantity ≤ 65535)
      × (dp.register_address + q ≤ b.start_address + (extend b dp q).quantity)
unfolding extend fits
extend_bounds b dp q r a lo hi f =
    let dp_end : add16 dp.register_address q ≡ dp.register_address + q = omega arith in
    let end : add16 b.start_address b.quantity ≡ b.start_address + b.quantity = omega arith in
    let apart : sub16 (dp.register_address + q) b.start_address
        ≡ dp.register_address + q - b.start_address =
      omega arith in
    let near = fits_near b dp q lo hi f in
    rw (dp_end, end, apart)
      (elim (Bool-cases (ltb (b.start_address + b.quantity) (dp.register_address + q))) [
        | inl longer ↦
            let past = ltb→lt (b.start_address + b.quantity) (dp.register_address + q) longer in
            rw longer (refl, omega arith, omega arith, omega arith, omega arith)
        | inr inside ↦
            let within =
              ltb-false (b.start_address + b.quantity) (dp.register_address + q) inside in
            rw inside (refl, omega arith, omega arith, omega arith, omega arith)
      ])

extend-IsBlock :
    (b : ReadBlock) (dp : DataPoint) (q : ℕ)
    → IsBlock b
    → register_count dp.data_type ≡ some q
    → b.start_address ≤ dp.register_address
    → dp.register_address + 4 ≤ 65535
    → fits b dp q ≡ true
    → IsBlock (extend b dp q)
extend-IsBlock b dp q v h lo hi f =
    let small = register_count-le dp.data_type q h in
    let (same, wider, allowed, range, end) =
      extend_bounds b dp q v.in_range v.allowed lo (omega arith) f in
    record {
      covered =
          unfold extend in
          All-append (IsCovered (extend b dp q)) b.points (dp ∷ [])
            (All-map b.points (λ p. wider-IsCovered b (extend b dp q) p same wider) v.covered)
            (
              record {
                registers = q;
                known = h;
                from_start = omega (arith, same, lo);
                to_end = omega (arith, same, end);
              },
              tt,
            );
      allowed = allowed;
      in_range = omega (arith, same, range);
    }

merge-some-IsBlock :
    (fc lo : ℕ) (b : ReadBlock) (dps : List DataPoint)
    → IsBlock b
    → b.start_address ≤ lo
    → IsSorted lo dps
    → All IsBlock (merge fc (some b) dps)
unfolding merge
merge-some-IsBlock fc lo b [] v l h = (v, tt)
merge-some-IsBlock fc lo b (dp ∷ dps) v l (from, to, h) =
    elim (Option-cases (register_count dp.data_type)) [
      | inl strange ↦
          rw (strange, merge) (merge-some-IsBlock fc dp.register_address b dps v (omega arith) h)
      | inr (q, known) ↦
          let fresh = new_block-IsBlock fc dp q known to in
          elim (Bool-cases (fits b dp q)) [
            | inl near ↦
                rw (known, merge, near)
                  (merge-some-IsBlock fc dp.register_address (extend b dp q) dps
                    (extend-IsBlock b dp q v known (omega arith) to near)
                    (unfold extend in (omega arith)) h)
            | inr far ↦
                rw (known, merge, far)
                  (
                    v,
                    merge-some-IsBlock fc dp.register_address (new_block fc dp q) dps fresh
                        (unfold new_block in (omega arith)) h,
                  )
          ]
    ]

merge-none-IsBlock :
    (fc lo : ℕ) (dps : List DataPoint) → IsSorted lo dps → All IsBlock (merge fc none dps)
unfolding merge
merge-none-IsBlock fc lo [] h = tt
merge-none-IsBlock fc lo (dp ∷ dps) (from, to, h) =
    elim (Option-cases (register_count dp.data_type)) [
      | inl strange ↦ rw (strange, merge) (merge-none-IsBlock fc dp.register_address dps h)
      | inr (q, known) ↦
          rw (known, merge)
            (merge-some-IsBlock fc dp.register_address (new_block fc dp q) dps
              (new_block-IsBlock fc dp q known to) (unfold new_block in (omega arith)) h)
    ]

-- Each block of a sorted group with no datapoint at the last registers asks for at most 125
-- registers, and contains every register of each of its datapoints.
pub merge-IsBlock :
    (fc : ℕ) (dps : List DataPoint) → IsSorted 0 dps → All IsBlock (merge fc none dps)
merge-IsBlock fc dps h = merge-none-IsBlock fc 0 dps h

-- The points of the blocks, in order.
abbrev pub points_of : List ReadBlock → List DataPoint
points_of [] = []
points_of (b ∷ bs) = b.points ++ points_of bs

-- The datapoints whose type is known.
unfoldable pub known_points : List DataPoint → List DataPoint
known_points [] = []
known_points (dp ∷ dps) = elim (register_count dp.data_type) [
  | none ↦ known_points dps
  | some q ↦ dp ∷ known_points dps
]

merge-some-points :
    (fc : ℕ) (b : ReadBlock) (dps : List DataPoint)
    → points_of (merge fc (some b) dps) ≡ b.points ++ known_points dps
unfolding merge known_points
merge-some-points fc b [] = refl
merge-some-points fc b (dp ∷ dps) = elim (Option-cases (register_count dp.data_type)) [
  | inl strange ↦ rw (strange, merge, known_points) (merge-some-points fc b dps)
  | inr (q, known) ↦ elim (Bool-cases (fits b dp q)) [
    | inl near ↦
        rw (known, merge, known_points, near)
          (merge-some-points fc (extend b dp q) dps
            ∙ unfold extend in append_assoc b.points (dp ∷ []) (known_points dps))
    | inr far ↦
        rw (known, merge, known_points, far)
          (ap (λ ps. b.points ++ ps)
            (merge-some-points fc (new_block fc dp q) dps ∙ unfold new_block in refl))
  ]
]

-- The blocks of a group hold each datapoint with a known type once, in the order of the group, and
-- no other.
pub merge-points :
    (fc : ℕ) (dps : List DataPoint) → points_of (merge fc none dps) ≡ known_points dps
unfolding merge known_points
merge-points fc [] = refl
merge-points fc (dp ∷ dps) = elim (Option-cases (register_count dp.data_type)) [
  | inl strange ↦ rw (strange, merge, known_points) (merge-points fc dps)
  | inr (q, known) ↦
      rw (known, merge, known_points)
        (merge-some-points fc (new_block fc dp q) dps ∙ unfold new_block in refl)
]

-- A datapoint that ends with the very last register is taken into a near block without making it
-- longer, because its end wraps around to 0: the block then asks for none of the registers past its
-- old end.
pub extend_wraps :
    (b : ReadBlock) (dp : DataPoint) (q : ℕ)
    → b.start_address + b.quantity + 8 < 65536
    → dp.register_address ≤ b.start_address + b.quantity + 8
    → dp.register_address + q ≡ 65536
    → 65536 ≤ b.start_address + 125
    → (fits b dp q ≡ true)
      × ((extend b dp q).quantity ≡ b.quantity)
      × (b.start_address + (extend b dp q).quantity < dp.register_address + q)
unfolding fits extend
extend_wraps b dp q r near last close =
    let wrapped : add16 dp.register_address q ≡ 0 = omega arith in
    let end : add16 b.start_address b.quantity ≡ b.start_address + b.quantity = omega arith in
    let reach : add16 (b.start_address + b.quantity) 8 ≡ b.start_address + b.quantity + 8 =
      omega arith in
    let apart : sub16 0 b.start_address ≡ 65536 - b.start_address = omega arith in
    rw (wrapped, end, reach, apart) (ground arith, ground arith, ground arith)
