-- ===== src/Acquisition/Poller/Honest.antt =====
-- What one pass of internal/acquisition/poller.go over a device emits.
use nx_iio_t_gateway_max_gat.Shared.{
  ℕ, ◌+◌, ◌*◌, ◌≡◌, ◌≢◌, ◌↔◌, refl, sym, ap, ◌∙◌, inl, inr, List, [], ◌∷◌, ◌++◌, append_assoc,
  append-nil, map, Option, none, some, arith, ltb, length, length-append, length-map, take, drop,
  All, All-append, Bool-cases, Option-cases,
}
use nx_iio_t_gateway_max_gat.Modbus.Decode.{byte_width, Floats, decode}
use nx_iio_t_gateway_max_gat.Modbus.Quality.{
  Quality, good, invalid, ReadError, quality_from_error, quality_from_error-good_iff,
}
use nx_iio_t_gateway_max_gat.Modbus.Client.{read_with_retry}
use nx_iio_t_gateway_max_gat.Acquisition.Types.{DataPoint, Device, Acquired}
use nx_iio_t_gateway_max_gat.Acquisition.BlockPlan.{ReadBlock, sub16}
use nx_iio_t_gateway_max_gat.Acquisition.BlockPlan.Cover.{points_of}
use nx_iio_t_gateway_max_gat.Acquisition.Poller.{
  Bus, client_of, Moment, bad_reading, good_reading, scaled, decode_and_emit, emit_device_offline,
  emit_decoded, Poll, error_of, raw_of, block_readings, read_block, read_blocks, read_device,
}

-- A reading of the device at the time of the pass, which has a value exactly when it is GOOD.
pub record IsReadingOf (d : Device) (time : ℕ) (r : Acquired) : Type 0 where
  pub of_device : r.device_id ≡ d.id
  pub at_time : r.event_time ≡ time
  pub value_iff : (r.quality ≡ good) ↔ (r.value ≢ none)

map-append : {A B : Type 0} (f : A → B) (xs ys : List A) → map f (xs ++ ys) ≡ map f xs ++ map f ys
map-append f [] ys = refl
map-append f (x ∷ xs) ys = ap (λ zs. f x ∷ zs) (map-append f xs ys)

bad_reading-IsReadingOf :
    (d : Device) (dp : DataPoint) (time : ℕ) (q : Quality)
    → q ≢ good
    → IsReadingOf d time (bad_reading d dp time q)
unfolding bad_reading
bad_reading-IsReadingOf d dp time q h = record {
  of_device = refl;
  at_time = refl;
  value_iff = (λ e. absurd (h e), λ e. absurd (e refl));
}

module _ (fl : Floats) (bits : fl.F → ℕ) where
  -- The reading is of the datapoint, as it should be.
  IsOf : Device → ℕ → DataPoint → Acquired → Type 0
  IsOf d time dp r = (r.datapoint_id ≡ dp.id) × IsReadingOf d time r

  scaled-IsOf :
      (d : Device) (dp : DataPoint) (time : ℕ) (raw : Option fl.F)
      → IsOf d time dp (scaled fl bits d dp time raw)
  unfolding scaled IsOf good_reading
  scaled-IsOf d dp time none =
      (unfold bad_reading in refl, bad_reading-IsReadingOf d dp time invalid (λ e. cc))
  scaled-IsOf d dp time (some raw) =
      (refl, record { of_device = refl; at_time = refl; value_iff = (λ _ e. cc, λ _. refl) })

  decode_and_emit-IsOf :
      (d : Device) (dp : DataPoint) (raw : List ℕ) (start time : ℕ)
      → IsOf d time dp (decode_and_emit fl bits d dp raw start time)
  unfolding decode_and_emit
  decode_and_emit-IsOf d dp raw start time =
      let bad : IsOf d time dp (bad_reading d dp time invalid) =
        unfold IsOf bad_reading in (refl, bad_reading-IsReadingOf d dp time invalid (λ e. cc)) in
      elim (Option-cases (byte_width dp.data_type)) [
        | inl strange ↦ rw (strange, decode_and_emit) bad
        | inr (width, known) ↦
            let offset = sub16 dp.register_address start * 2 in
            elim (Bool-cases (ltb (length raw) (offset + width))) [
              | inl outside ↦ rw (known, decode_and_emit, outside) bad
              | inr inside ↦
                  rw (known, decode_and_emit, inside)
                    (scaled-IsOf d dp time
                      (decode fl (take width (drop offset raw)) dp.data_type dp.byte_order))
            ]
      ]

  -- One reading for each datapoint, in order.
  record AreReadings (d : Device) (time : ℕ) (dps : List DataPoint) (rs : List Acquired)
      : Type 0 where
    named : map (λ (r : Acquired). r.datapoint_id) rs ≡ map (λ (dp : DataPoint). dp.id) dps
    honest : All (IsReadingOf d time) rs

  cons-AreReadings :
      {d : Device} {time : ℕ} {dp : DataPoint} {dps : List DataPoint} {r : Acquired}
      {rs : List Acquired}
      → IsOf d time dp r
      → AreReadings d time dps rs
      → AreReadings d time (dp ∷ dps) (r ∷ rs)
  unfolding IsOf
  cons-AreReadings h v = record { named = cc (h.0, v.named); honest = (h.1, v.honest) }

  emit_decoded-AreReadings :
      (d : Device) (dps : List DataPoint) (raw : List ℕ) (start time : ℕ)
      → AreReadings d time dps (emit_decoded fl bits d dps raw start time)
  unfolding emit_decoded
  emit_decoded-AreReadings d [] raw start time = record { named = refl; honest = tt }
  emit_decoded-AreReadings d (dp ∷ dps) raw start time =
      cons-AreReadings (decode_and_emit-IsOf d dp raw start time)
        (emit_decoded-AreReadings d dps raw start time)

  emit_device_offline-AreReadings :
      (d : Device) (dps : List DataPoint) (time : ℕ) (q : Quality)
      → q ≢ good
      → AreReadings d time dps (emit_device_offline fl bits d dps time q)
  unfolding emit_device_offline
  emit_device_offline-AreReadings d [] time q h = record { named = refl; honest = tt }
  emit_device_offline-AreReadings d (dp ∷ dps) time q h =
      cons-AreReadings (unfold IsOf bad_reading in (refl, bad_reading-IsReadingOf d dp time q h))
        (emit_device_offline-AreReadings d dps time q h)

  module _ (bus : Bus) where
    block_readings-AreReadings :
        (d : Device) (time : ℕ) (b : ReadBlock) (raw : List ℕ) (e : Option ReadError)
        → AreReadings d time b.points (block_readings fl bits bus d time b raw e)
    unfolding block_readings
    block_readings-AreReadings d time b raw none =
        emit_decoded-AreReadings d b.points raw b.start_address time
    block_readings-AreReadings d time b raw (some e) =
        emit_device_offline-AreReadings d b.points time (quality_from_error (some e))
          (λ h. cc ((quality_from_error-good_iff (some e)).0 h))

    -- A pass over blocks emits a reading for each of their datapoints, in order, each of the device
    -- and the time of the pass, with a value exactly when it is GOOD; it counts the readings and the
    -- blocks.
    pub record IsPass (d : Device) (time : ℕ) (bs : List ReadBlock) (p p' : Poll fl bits bus)
        : Type 0 where
      pub emitted : List Acquired
      pub in_order : p'.readings ≡ p.readings ++ emitted
      pub named :
          map (λ (r : Acquired). r.datapoint_id) emitted
          ≡ map (λ (dp : DataPoint). dp.id) (points_of bs)
      pub honest : All (IsReadingOf d time) emitted
      pub counted : p'.read_count ≡ p.read_count + length emitted
      pub requested : p'.block_reads ≡ p.block_reads + length bs

    named-length :
        (dps : List DataPoint) (rs : List Acquired)
        → map (λ (r : Acquired). r.datapoint_id) rs ≡ map (λ (dp : DataPoint). dp.id) dps
        → length rs ≡ length dps
    named-length dps rs h = omega (
      arith,
      ap length h,
      length-map rs (λ (r : Acquired). r.datapoint_id),
      length-map dps (λ (dp : DataPoint). dp.id),
    )

    -- What one block adds.
    record IsBlockRead (d : Device) (time : ℕ) (b : ReadBlock) (p p' : Poll fl bits bus)
        : Type 0 where
      added : List Acquired
      after : p'.readings ≡ p.readings ++ added
      good_ones : AreReadings d time b.points added
      more : p'.read_count ≡ p.read_count + length b.points
      one_more : p'.block_reads ≡ p.block_reads + 1

    read_block-IsBlockRead :
        (d : Device) (time : ℕ) (m : Moment) (b : ReadBlock) (p : Poll fl bits bus)
        → IsBlockRead d time b p (read_block fl bits bus d time m b p)
    unfolding read_block
    read_block-IsBlockRead d time m b p =
        let r =
          read_with_retry (client_of bus b.function_code b.start_address b.quantity)
            (λ attempt. m.done) 0 p.client in
        record {
          added =
              block_readings fl bits bus d time b (raw_of fl bits bus r.answer)
                (error_of fl bits bus m r.answer);
          after = refl;
          good_ones = block_readings-AreReadings d time b _ _;
          more = refl;
          one_more = refl;
        }

    read_blocks-IsPass :
        (d : Device) (time : ℕ) (moments : ℕ → Moment) (bs : List ReadBlock) (p : Poll fl bits bus)
        → IsPass d time bs p (read_blocks fl bits bus d time moments bs p)
    unfolding read_blocks
    read_blocks-IsPass d time moments [] p = record {
      emitted = [];
      in_order = sym (append-nil p.readings);
      named = refl;
      honest = tt;
      counted = omega arith;
      requested = omega arith;
    }
    read_blocks-IsPass d time moments (b ∷ bs) p =
        let first = read_block-IsBlockRead d time (moments p.block_reads) b p in
        let rest =
          read_blocks-IsPass d time moments bs
            (read_block fl bits bus d time (moments p.block_reads) b p) in
        let rs = first.added in
        record {
          emitted = rs ++ rest.emitted;
          in_order =
              rest.in_order
              ∙ (ap (λ xs. xs ++ rest.emitted) first.after
                  ∙ append_assoc p.readings rs rest.emitted);
          named =
              map-append (λ (r : Acquired). r.datapoint_id) rs rest.emitted
              ∙ (cc (first.good_ones.named, rest.named)
                  ∙ sym (map-append (λ (dp : DataPoint). dp.id) b.points (points_of bs)));
          honest =
              All-append (IsReadingOf d time) rs rest.emitted first.good_ones.honest rest.honest;
          counted = omega (
            arith,
            rest.counted,
            first.more,
            named-length b.points rs first.good_ones.named,
            length-append rs rest.emitted,
          );
          requested = omega (arith, rest.requested, first.one_more);
        }

    -- Reading a device emits exactly one reading for each datapoint of its plan, in the plan's order,
    -- whatever the bus answers: of the device, at the time of the pass, and with a value exactly when
    -- its quality is GOOD. It returns how many readings and how many requests that were.
    pub read_device-IsPass :
        (plan : List DataPoint → List ReadBlock) (d : Device) (time : ℕ) (moments : ℕ → Moment)
        (dps : List DataPoint) (p : Poll fl bits bus)
        → IsPass d time
            (plan dps)
            (record p { read_count = 0; block_reads = 0 })
            (read_device fl bits bus plan d time moments dps p)
    unfolding read_device
    read_device-IsPass plan d time moments dps p =
        read_blocks-IsPass d time moments (plan dps) (record p { read_count = 0; block_reads = 0 })
