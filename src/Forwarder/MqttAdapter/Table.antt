-- ===== src/Forwarder/MqttAdapter/Table.antt =====
-- The table of the acknowledgements that internal/forwarder/mqttadapter.go waits for, during a Send.
use nx_iio_t_gateway_max_gat.Shared.{
  ℕ, suc, ◌<◌, ◌≡◌, ◌≢◌, refl, sym, ◌∙◌, inl, inr, true, List, [], Option, none, some, arith, ◌==◌,
  ==_iff, if◌then◌else◌, length, length-set, get_elem?, get_elem?-set_self, get_elem?-set_ne,
  get_elem?_bound, lookup, remove, lookup-remove, Bool-cases, Option-cases,
}
use nx_iio_t_gateway_max_gat.Forwarder.Wire.{Ack}
use nx_iio_t_gateway_max_gat.Forwarder.MqttAdapter.{
  MqttAdapter, text_or_empty, offer, is_for, handle_ack, SendError, Phase, publishing, waiting,
  returned, Sending, end_send,
}

length-offer : (ch : ℕ) (ack : Ack) (cs : List (Option Ack)) → length (offer ch ack cs) ≡ length cs
unfolding offer
length-offer ch ack cs = elim (Option-cases (get_elem? cs ch)) [
  | inl out ↦ rw (out, offer) refl
  | inr (none, free) ↦ rw (free, offer) (length-set cs ch (some ack))
  | inr (some first, full) ↦ rw (full, offer) refl
]

offer_free :
    (ch : ℕ) (ack : Ack) (cs : List (Option Ack))
    → get_elem? cs ch ≡ some none
    → get_elem? (offer ch ack cs) ch ≡ some (some ack)
unfolding offer
offer_free ch ack cs h =
    rw (h, offer) (get_elem?-set_self cs ch (some ack) (get_elem?_bound cs ch none h))

offer_full :
    (ch : ℕ) (ack first : Ack) (cs : List (Option Ack))
    → get_elem? cs ch ≡ some (some first)
    → get_elem? (offer ch ack cs) ch ≡ some (some first)
unfolding offer
offer_full ch ack first cs h = rw (h, offer) h

offer_elsewhere :
    (ch i : ℕ) (ack : Ack) (cs : List (Option Ack))
    → ch ≢ i
    → get_elem? (offer ch ack cs) i ≡ get_elem? cs i
unfolding offer
offer_elsewhere ch i ack cs apart = elim (Option-cases (get_elem? cs ch)) [
  | inl out ↦ rw (out, offer) refl
  | inr (none, free) ↦ rw (free, offer) (get_elem?-set_ne cs (some ack) apart)
  | inr (some first, full) ↦ rw (full, offer) refl
]

-- The maps point to channels that there are.
abbrev pub IsPointing : MqttAdapter → Type 0
IsPointing a = (k ch : ℕ) → lookup k a.pending ≡ some ch → ch < length a.channels

module _ (to_seq : ℕ) (stream : List ℕ) (base : MqttAdapter) (P : Ack → Type 0) where
  abbrev pub Genuine : Option Ack → Type 0
  Genuine none = Unit
  Genuine (some ack) = P ack

  -- The maps during the Send, with its own entry, and behind it.
  pub record IsListed (entry : Option ℕ) (text : Option (List ℕ)) (a : MqttAdapter) : Type 0 where
    pub places :
        (k : ℕ) → lookup k a.pending ≡ (if k == to_seq then entry else lookup k base.pending)
    pub streams :
        (k : ℕ)
        → lookup k a.pending_stream ≡ (if k == to_seq then text else lookup k base.pending_stream)
    pub size : length a.channels ≡ suc (length base.channels)

  pub record IsOpen (x : Sending to_seq stream) : Type 0 where
    pub listed : IsListed (some (length base.channels)) (some stream) x.adapter
    pub own : x.channel ≡ length base.channels
    pub content : Option Ack
    pub holds : get_elem? x.adapter.channels (length base.channels) ≡ some content
    pub genuine : Genuine content

  pub record IsOver (r : Option SendError) (x : Sending to_seq stream) : Type 0 where
    pub unlisted : IsListed none none x.adapter
    pub honest : r ≡ none → (ack : Ack) × P ack × (ack.error ≡ [])

  abbrev pub IsAt : Phase → Sending to_seq stream → Type 0
  IsAt publishing x = IsOpen x
  IsAt waiting x = IsOpen x
  IsAt (returned r) x = IsOver r x

  pub handled-IsListed :
      (entry : Option ℕ) (text : Option (List ℕ)) (p : Option Ack) (a : MqttAdapter)
      → IsListed entry text a
      → IsListed entry text (handle_ack p a)
  unfolding handle_ack
  handled-IsListed entry text none a v = v
  handled-IsListed entry text (some ack) a v = elim (Option-cases (lookup ack.to_seq a.pending)) [
    | inl late ↦ rw (late, handle_ack) v
    | inr (ch, found) ↦
        elim (Bool-cases (is_for ack (text_or_empty (lookup ack.to_seq a.pending_stream)))) [
          | inl mine ↦
              rw (found, mine, handle_ack)
                (record {
                  places = v.places;
                  streams = v.streams;
                  size = length-offer ch ack a.channels ∙ v.size;
                })
          | inr other ↦ rw (found, other, handle_ack) v
        ]
  ]

  -- What a payload may bring to this Send.
  abbrev pub Brings : Option Ack → Type 0
  Brings p = (ack : Ack) → p ≡ some ack → ack.to_seq ≡ to_seq → is_for ack stream ≡ true → P ack

  abbrev HoldsGenuine : List (Option Ack) → Type 0
  HoldsGenuine cs =
      (content : Option Ack) × (get_elem? cs (length base.channels) ≡ some content)
      × Genuine content

  offer_own :
      (ack : Ack) (cs : List (Option Ack))
      → P ack
      → HoldsGenuine cs
      → HoldsGenuine (offer (length base.channels) ack cs)
  offer_own ack cs p (none, free, t) = (some ack, offer_free (length base.channels) ack cs free, p)
  offer_own ack cs p (some first, full, g) =
      (some first, offer_full (length base.channels) ack first cs full, g)

  offer_other :
      (ch : ℕ) (ack : Ack) (cs : List (Option Ack))
      → ch < length base.channels
      → HoldsGenuine cs
      → HoldsGenuine (offer ch ack cs)
  offer_other ch ack cs below (content, h, g) =
      (content, offer_elsewhere ch _ ack cs (λ e. omega (arith, e, below)) ∙ h, g)

  pub handled-HoldsGenuine :
      (p : Option Ack) (a : MqttAdapter)
      → IsPointing base
      → Brings p
      → IsListed (some (length base.channels)) (some stream) a
      → HoldsGenuine a.channels
      → HoldsGenuine (handle_ack p a).channels
  unfolding handle_ack
  handled-HoldsGenuine none a pointing brings v h = h
  handled-HoldsGenuine (some ack) a pointing brings v h =
      elim (Option-cases (lookup ack.to_seq a.pending)) [
        | inl late ↦ rw (late, handle_ack) h
        | inr (ch, found) ↦
            elim (Bool-cases (is_for ack (text_or_empty (lookup ack.to_seq a.pending_stream)))) [
              | inr other ↦ rw (found, other, handle_ack) h
              | inl mine ↦ elim (Bool-cases (ack.to_seq == to_seq)) [
                | inl same ↦
                    let place : some ch ≡ some (length base.channels) =
                      sym found ∙ (rw same at (v.places ack.to_seq)) in
                    let text : lookup ack.to_seq a.pending_stream ≡ some stream =
                      rw same at (v.streams ack.to_seq) in
                    let is_place : ch ≡ length base.channels = cc place in
                    let good =
                      brings ack refl ((==_iff ack.to_seq to_seq).0 same) (rw text at mine) in
                    rw (found, mine, handle_ack, is_place) (offer_own ack a.channels good h)
                | inr apart ↦
                    let old : lookup ack.to_seq base.pending ≡ some ch =
                      sym (rw apart at (v.places ack.to_seq)) ∙ found in
                    rw (found, mine, handle_ack)
                      (offer_other ch ack a.channels (pointing ack.to_seq ch old) h)
              ]
            ]
      ]

  removed :
      {A : Type 0} (entry : Option A) (m old : List (ℕ × A))
      → ((k : ℕ) → lookup k m ≡ (if k == to_seq then entry else lookup k old))
      → (k : ℕ) → lookup k (remove to_seq m) ≡ (if k == to_seq then none else lookup k old)
  removed entry m old h k = elim (Bool-cases (k == to_seq)) [
    | inl same ↦ rw (lookup-remove k to_seq m, same) refl
    | inr apart ↦ rw (lookup-remove k to_seq m, apart) (rw apart at (h k))
  ]

  pub ended-IsOver :
      (r : Option SendError) (x : Sending to_seq stream)
      → (r ≡ none → (ack : Ack) × P ack × (ack.error ≡ []))
      → IsOpen x
      → IsOver r (end_send to_seq stream r x)
  unfolding end_send
  ended-IsOver r x honest v = record {
    unlisted = record {
      places = removed (some (length base.channels)) x.adapter.pending base.pending v.listed.places;
      streams = removed (some stream) x.adapter.pending_stream base.pending_stream v.listed.streams;
      size = v.listed.size;
    };
    honest = honest;
  }
