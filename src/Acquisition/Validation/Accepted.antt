-- ===== src/Acquisition/Validation/Accepted.antt =====
-- What internal/acquisition may rely on of the connections and datapoints that have been validated.
use mathlib.Core.List.{Perm}
use nx_iio_t_gateway_max_gat.Shared.{
  ℕ, ◌/◌, ◌++◌, ◌≡◌, refl, ap, Bool, true, false, List, [], ◌∷◌, Option, none, some, All, map,
  subst,
}
use nx_iio_t_gateway_max_gat.Modbus.Decode.{Floats, byte_width, register_count}
use nx_iio_t_gateway_max_gat.Queue.Codec.Names.{same_bytes}
use nx_iio_t_gateway_max_gat.Acquisition.Types.{
  Protocol, tcp, rtu, other, Connection, Device, DataPoint, Acquired,
}
use nx_iio_t_gateway_max_gat.Acquisition.BlockPlan.{plan_block_reads}
use nx_iio_t_gateway_max_gat.Acquisition.BlockPlan.Cover.{known_points}
use nx_iio_t_gateway_max_gat.Acquisition.BlockPlan.Points.{AreDistinct, AreCovered}
use nx_iio_t_gateway_max_gat.Acquisition.Poller.{Bus, Moment, Poll, read_device}
use nx_iio_t_gateway_max_gat.Acquisition.Poller.Complete.{read_device-IsComplete}
use nx_iio_t_gateway_max_gat.Acquisition.Validation.{
  Refusal, Client, tcp_client, rtu_client, tcp_config, rtu_config, check, check_type, validate_link,
  validate_connection, validate_point, build_for,
}

-- A list of checks passes only if each does.
check_passed :
    (b : Bool) (e : Refusal) (rest : Option Refusal)
    → check b e rest ≡ none
    → (b ≡ false) × (rest ≡ none)
unfolding check
check_passed true e rest h = cc
check_passed false e rest h = (refl, h)

abbrev pub IsBuilt : Protocol → Connection → Type 0
IsBuilt p c = (client : Client) × (build_for p c ≡ some client)

-- A link that passes its checks has what its client is made of.
validate_link-IsBuilt :
    (p : Protocol) (c : Connection) (rest : Option Refusal)
    → validate_link p c rest ≡ none
    → IsBuilt p c
unfolding validate_link build_for
validate_link-IsBuilt tcp c rest h =
    (tcp_client (tcp_config c), rw ((check_passed (same_bytes c.ip_address []) _ _ h).0) refl)
validate_link-IsBuilt rtu c rest h =
    (rtu_client (rtu_config c), rw ((check_passed (same_bytes c.interface []) _ _ h).0) refl)
validate_link-IsBuilt (other p) c rest h = cc

-- For every connection that Validate accepts, BuildClient returns a client.
validate_connection-IsBuilt : (c : Connection) → validate_connection c ≡ none → IsBuilt c.protocol c
unfolding validate_connection
validate_connection-IsBuilt c h =
    validate_link-IsBuilt c.protocol c _ (check_passed (same_bytes c.name []) _ _ h).1

check_type-known :
    (width : Option ℕ) (scale : ℕ) → check_type width scale ≡ none → (w : ℕ) × (width ≡ some w)
unfolding check_type
check_type-known none scale h = cc
check_type-known (some w) scale h = (w, refl)

validate_point-known :
    (dp : DataPoint) → validate_point dp ≡ none → (w : ℕ) × (byte_width dp.data_type ≡ some w)
unfolding validate_point
validate_point-known dp h =
    let coded = (check_passed (same_bytes dp.tag_name []) _ _ h).1 in
    check_type-known (byte_width dp.data_type) dp.scale (check_passed _ _ _ coded).1

register_count-known :
    (dp : DataPoint) → validate_point dp ≡ none → (q : ℕ) × (register_count dp.data_type ≡ some q)
unfolding register_count
register_count-known dp h =
    let known = validate_point-known dp h in (known.0 / 2, rw (register_count, known.1) refl)

-- The plan of block reads leaves out no datapoint that has been validated.
known_points-validated :
    (dps : List DataPoint)
    → All (λ (dp : DataPoint). validate_point dp ≡ none) dps
    → known_points dps ≡ dps
unfolding known_points
known_points-validated [] h = refl
known_points-validated (dp ∷ dps) h =
    rw (known_points, (register_count-known dp h.0).1)
      (ap (λ ps. dp ∷ ps) (known_points-validated dps h.1))

module _ (fl : Floats) (bits : fl.F → ℕ) (bus : Bus) where
  -- When every datapoint of a device has been validated, reading the device emits readings of exactly
  -- its datapoints, each once, whatever the bus answers.
  pub read_device-validated :
      (sort : List DataPoint → List DataPoint) (codes : List ℕ) (d : Device) (time : ℕ)
      (moments : ℕ → Moment) (dps : List DataPoint) (p : Poll fl bits bus)
      → ((xs : List DataPoint) → Perm (sort xs) xs)
      → AreDistinct codes
      → AreCovered codes dps
      → All (λ (dp : DataPoint). validate_point dp ≡ none) dps
      → (emitted : List Acquired) × ((read_device fl bits bus
            (plan_block_reads sort codes)
            d
            time
            moments
            dps
            p).readings
          ≡ p.readings ++ emitted)
        × Perm
            (map (λ (r : Acquired). r.datapoint_id) emitted)
            (map (λ (dp : DataPoint). dp.id) dps)
  read_device-validated sort codes d time moments dps p sorts distinct covered valid =
      let all =
        read_device-IsComplete fl bits bus sort codes d time moments dps p sorts distinct covered in
      (
        all.emitted,
        all.in_order,
        subst
            (λ ps.
              Perm (map (λ (r : Acquired). r.datapoint_id) all.emitted)
                (map (λ (dp : DataPoint). dp.id) ps))
            (known_points-validated dps valid) all.each_once,
      )
