-- ===== src/Acquisition/Poller/Complete.antt =====
-- A device of internal/acquisition/poller.go, read by the plan of internal/acquisition/blockplan.go.
use mathlib.Core.List.{Perm}
use mathlib.Core.List.Perm
use nx_iio_t_gateway_max_gat.Shared.{ℕ, ◌≡◌, arith, subst, sym, List, ◌++◌, map, length, All}
use nx_iio_t_gateway_max_gat.Modbus.Decode.{Floats}
use nx_iio_t_gateway_max_gat.Acquisition.Types.{DataPoint, Device, Acquired}
use nx_iio_t_gateway_max_gat.Acquisition.BlockPlan.{plan_block_reads}
use nx_iio_t_gateway_max_gat.Acquisition.BlockPlan.Cover.{known_points}
use nx_iio_t_gateway_max_gat.Acquisition.BlockPlan.Points.{
  AreDistinct, AreCovered, plan_block_reads-Perm,
}
use nx_iio_t_gateway_max_gat.Acquisition.Poller.{Bus, Moment, Poll, read_device}
use nx_iio_t_gateway_max_gat.Acquisition.Poller.Honest.{IsReadingOf, read_device-IsPass}

abbrev ids_of : List DataPoint → List ℕ
ids_of dps = map (λ (dp : DataPoint). dp.id) dps

module _ (fl : Floats) (bits : fl.F → ℕ) (bus : Bus) where
  -- The readings of one pass: one for each datapoint of a known data type, in some order.
  pub record IsComplete (d : Device) (time : ℕ) (dps : List DataPoint) (p p' : Poll fl bits bus)
      : Type 0 where
    pub emitted : List Acquired
    pub in_order : p'.readings ≡ p.readings ++ emitted
    pub each_once :
        Perm (map (λ (r : Acquired). r.datapoint_id) emitted) (ids_of (known_points dps))
    pub honest : All (IsReadingOf d time) emitted
    pub counted : p'.read_count ≡ length emitted

  -- Whatever the bus answers, reading a device emits exactly one reading for each of its datapoints
  -- with a known data type, and none for the others: of the device, at the time of the pass, and with
  -- a value exactly when its quality is GOOD. It returns the number of these readings, also when all
  -- reads have failed. The groups may be sorted in any way and come in any order of the map.
  pub read_device-IsComplete :
      (sort : List DataPoint → List DataPoint) (codes : List ℕ) (d : Device) (time : ℕ)
      (moments : ℕ → Moment) (dps : List DataPoint) (p : Poll fl bits bus)
      → ((xs : List DataPoint) → Perm (sort xs) xs)
      → AreDistinct codes
      → AreCovered codes dps
      → IsComplete d time dps p
          (read_device fl bits bus (plan_block_reads sort codes) d time moments dps p)
  read_device-IsComplete sort codes d time moments dps p sorts distinct covered =
      let pass =
        read_device-IsPass fl bits bus (plan_block_reads sort codes) d time moments dps p in
      record {
        emitted = pass.emitted;
        in_order = pass.in_order;
        each_once =
            subst (λ ids. Perm ids (ids_of (known_points dps))) (sym pass.named)
              (Perm.map (λ (dp : DataPoint). dp.id)
                (plan_block_reads-Perm sort codes dps sorts distinct covered));
        honest = pass.honest;
        counted = omega (arith, pass.counted);
      }
