-- ===== src/Acquisition/BlockPlan.antt =====
-- internal/acquisition/blockplan.go: datapoints grouped into block reads. Addresses and quantities
-- are uint16, with wrap-around written out. Sorting (sort.Slice) and the order in which a map is
-- read are parameters.
pub mod Cover
pub mod Points
use nx_iio_t_gateway_max_gat.Shared.{
  ℕ, ◌+◌, ◌-◌, ◌%◌, ◌≡◌, Bool, true, false, ◌&&◌, ◌||◌, List, [], ◌∷◌, ◌++◌, Option, none, some,
  ltb, leb, ◌==◌, if◌then◌else◌,
}
use nx_iio_t_gateway_max_gat.Modbus.Decode.{register_count}
use nx_iio_t_gateway_max_gat.Acquisition.Types.{DataPoint}

pub record ReadBlock : Type 0 where
  pub function_code : ℕ
  pub start_address : ℕ
  pub quantity : ℕ
  pub points : List DataPoint

abbrev pub add16 : ℕ → ℕ → ℕ
add16 a b = (a + b) % 65536

abbrev pub sub16 : ℕ → ℕ → ℕ
sub16 a b = (a + (65536 - b % 65536)) % 65536

abbrev pub max_registers_per_block : ℕ
max_registers_per_block = 125

abbrev pub max_gap_registers : ℕ
max_gap_registers = 8

unfoldable pub new_block : ℕ → DataPoint → ℕ → ReadBlock
new_block fc dp qty = record {
  function_code = fc;
  start_address = dp.register_address;
  quantity = qty;
  points = dp ∷ [];
}

-- Whether the pending block is extended by a datapoint of so many registers.
unfoldable pub fits : ReadBlock → DataPoint → ℕ → Bool
fits b dp qty =
    leb dp.register_address (add16 (add16 b.start_address b.quantity) max_gap_registers)
    && leb (sub16 (add16 dp.register_address qty) b.start_address) max_registers_per_block

unfoldable pub extend : ReadBlock → DataPoint → ℕ → ReadBlock
extend b dp qty =
    let dp_end = add16 dp.register_address qty in
    record b {
      quantity =
          if ltb (add16 b.start_address b.quantity) dp_end
          then sub16 dp_end b.start_address
          else b.quantity;
      points = b.points ++ dp ∷ [];
    }

-- The loop over a sorted group, with the pending block.
unfoldable pub merge : ℕ → Option ReadBlock → List DataPoint → List ReadBlock
unfolding new_block fits extend
merge fc none [] = []
merge fc (some b) [] = b ∷ []
merge fc none (dp ∷ dps) = elim (register_count dp.data_type) [
  | none ↦ merge fc none dps
  | some qty ↦ merge fc (some (new_block fc dp qty)) dps
]
merge fc (some b) (dp ∷ dps) = elim (register_count dp.data_type) [
  | none ↦ merge fc (some b) dps
  | some qty ↦
      let longer = merge fc (some (extend b dp qty)) dps in
      let next = merge fc (some (new_block fc dp qty)) dps in
      if fits b dp qty then longer else b ∷ next
]

-- Function codes 1 and 2: a block for each datapoint.
unfoldable pub one_by_one : ℕ → List DataPoint → List ReadBlock
unfolding new_block
one_by_one fc [] = []
one_by_one fc (dp ∷ dps) = elim (register_count dp.data_type) [
  | none ↦ one_by_one fc dps
  | some qty ↦ new_block fc dp qty ∷ one_by_one fc dps
]

unfoldable pub group_of : ℕ → List DataPoint → List DataPoint
group_of fc [] = []
group_of fc (dp ∷ dps) = if dp.function_code == fc then dp ∷ group_of fc dps else group_of fc dps

unfoldable pub plan_group : (List DataPoint → List DataPoint) → ℕ → List DataPoint → List ReadBlock
unfolding merge one_by_one
plan_group sort fc group =
    if fc == 1 || fc == 2 then one_by_one fc group else merge fc none (sort group)

-- `codes` are the function codes of the datapoints in the order in which the map is read.
unfoldable pub plan_block_reads :
    (List DataPoint → List DataPoint) → List ℕ → List DataPoint → List ReadBlock
unfolding plan_group group_of
plan_block_reads sort [] dps = []
plan_block_reads sort (fc ∷ codes) dps =
    plan_group sort fc (group_of fc dps) ++ plan_block_reads sort codes dps
