-- ===== src/Modbus/Quality.antt =====
-- internal/modbus/quality.go: the quality of a read from its error. An error is what the code asks
-- of it: whether it is a timeout, a closed connection or a DNS failure, and the bytes of its text.
use nx_iio_t_gateway_max_gat.Shared.{
  ℕ, ◌+◌, ◌≡◌, ◌≢◌, ◌↔◌, refl, inl, inr, Bool, true, false, ◌&&◌, ◌||◌, List, [], ◌∷◌, ◌++◌, map,
  Option, none, some, arith, leb, ◌==◌, Bool-cases, if◌then◌else◌,
}
use nx_iio_t_gateway_max_gat.Queue.Codec.Names.{bytes_of}

pub data Quality : Type 0 where
  good timeout crc_error device_offline invalid : Quality

pub record ReadError : Type 0 where
  pub times_out : Bool
  pub is_closed : Bool
  pub is_dns : Bool
  pub text : List ℕ

-- strings.ToLower on ASCII text.
unfoldable pub lower_byte : ℕ → ℕ
lower_byte c = if leb b'A' c && leb c b'Z' then c + 32 else c

unfoldable pub starts_with : List ℕ → List ℕ → Bool
starts_with [] text = true
starts_with (c ∷ part) [] = false
starts_with (c ∷ part) (d ∷ text) = c == d && starts_with part text

-- strings.Contains.
unfoldable pub contains : List ℕ → List ℕ → Bool
unfolding starts_with
contains part [] = starts_with part []
contains part (d ∷ text) = starts_with part (d ∷ text) || contains part text

contains_any : List (List ℕ) → List ℕ → Bool
contains_any [] text = false
contains_any (part ∷ parts) text = contains part text || contains_any parts text

-- The phrases of the platforms for a device that cannot be reached.
abbrev pub offline_phrases : List (List ℕ)
offline_phrases =
    bytes_of "connection refused"
    ∷ bytes_of "actively refused"
    ∷ bytes_of "no route to host"
    ∷ bytes_of "host unreachable"
    ∷ bytes_of "network unreachable"
    ∷ bytes_of "broken pipe"
    ∷ bytes_of "connection reset"
    ∷ bytes_of "forcibly closed"
    ∷ bytes_of "device or resource busy"
    ∷ bytes_of "no such device"
    ∷ bytes_of "cannot find the file specified"
    ∷ []

of_text : List ℕ → Quality
unfolding contains_any
of_text text =
    if contains (bytes_of "crc") text
    then crc_error
    else if contains_any offline_phrases text
    then device_offline
    else invalid

unfoldable pub quality_from_error : Option ReadError → Quality
unfolding of_text
quality_from_error none = good
quality_from_error (some e) =
    if e.times_out
    then timeout
    else if e.is_closed
    then device_offline
    else if e.is_dns
    then device_offline
    else of_text (map lower_byte e.text)

of_text-bad : (text : List ℕ) → of_text text ≢ good
unfolding of_text
of_text-bad text = elim (Bool-cases (contains (bytes_of "crc") text)) [
  | inl crc ↦ rw (crc, of_text) (λ h. cc)
  | inr other ↦ elim (Bool-cases (contains_any offline_phrases text)) [
    | inl offline ↦ rw (other, of_text, offline) (λ h. cc)
    | inr strange ↦ rw (other, of_text, strange) (λ h. cc)
  ]
]

quality_from_error-bad : (e : ReadError) → quality_from_error (some e) ≢ good
unfolding quality_from_error
quality_from_error-bad e h = elim (Bool-cases e.times_out) [
  | inl late ↦ let p : timeout ≡ good = ground (arith, late, h) in absurd (cc p)
  | inr _ ↦ of_text-bad (map lower_byte e.text) (ground arith)
]

-- Only the absence of an error is GOOD.
pub quality_from_error-good_iff :
    (e : Option ReadError) → (quality_from_error e ≡ good) ↔ (e ≡ none)
unfolding quality_from_error
quality_from_error-good_iff none = (λ h. refl, λ h. refl)
quality_from_error-good_iff (some e) = (λ h. absurd (quality_from_error-bad e h), λ h. cc)

lower_byte_idem : (c : ℕ) → lower_byte (lower_byte c) ≡ lower_byte c
unfolding lower_byte
lower_byte_idem c = ground arith

map-lower_byte_idem : (text : List ℕ) → map lower_byte (map lower_byte text) ≡ map lower_byte text
map-lower_byte_idem [] = refl
map-lower_byte_idem (c ∷ text) = cc (lower_byte_idem c, map-lower_byte_idem text)

-- The case of the error's text does not matter.
pub quality_from_error-lower :
    (e : ReadError)
    → quality_from_error (some (record e { text = map lower_byte e.text }))
      ≡ quality_from_error (some e)
unfolding quality_from_error
quality_from_error-lower e = rw (map-lower_byte_idem e.text) refl

starts_with_split :
    (part text : List ℕ) → starts_with part text ≡ true → (rest : List ℕ) × (text ≡ part ++ rest)
unfolding starts_with
starts_with_split [] text h = (text, refl)
starts_with_split (c ∷ part) [] h = cc
starts_with_split (c ∷ part) (d ∷ text) h =
    let (rest, e) = starts_with_split part text (ground arith) in (rest, ground (arith, e))

contains_split :
    (part text : List ℕ)
    → contains part text ≡ true
    → (before : List ℕ) × (after : List ℕ) × (text ≡ before ++ (part ++ after))
unfolding contains
contains_split part [] h = let (rest, e) = starts_with_split part [] h in ([], rest, e)
contains_split part (d ∷ text) h = elim (Bool-cases (starts_with part (d ∷ text))) [
  | inl here ↦ let (rest, e) = starts_with_split part (d ∷ text) here in ([], rest, e)
  | inr later ↦
      let (before, after, e) = contains_split part text (rw (later, contains) at h) in
      (d ∷ before, after, ground (arith, e))
]

starts_with-append : (part rest : List ℕ) → starts_with part (part ++ rest) ≡ true
unfolding starts_with
starts_with-append [] rest = refl
starts_with-append (c ∷ part) rest = ground (arith, starts_with-append part rest)

contains-append : (before part after : List ℕ) → contains part (before ++ (part ++ after)) ≡ true
unfolding contains
contains-append [] [] [] = refl
contains-append [] [] (d ∷ after) = refl
contains-append [] (c ∷ part) after = rw (starts_with-append (c ∷ part) after, contains) refl
contains-append (d ∷ before) part after =
    rw (contains-append before part after, contains) (ground arith)

of_text-crc_iff :
    (text : List ℕ) → (of_text text ≡ crc_error) ↔ (contains (bytes_of "crc") text ≡ true)
unfolding of_text
of_text-crc_iff text = elim (Bool-cases (contains (bytes_of "crc") text)) [
  | inl crc ↦ rw (crc, of_text) (λ h. refl, λ h. refl)
  | inr other ↦ elim (Bool-cases (contains_any offline_phrases text)) [
    | inl offline ↦ rw (other, of_text, offline) (λ h. cc, λ h. cc)
    | inr strange ↦ rw (other, of_text, strange) (λ h. cc, λ h. cc)
  ]
]

-- An error that is no timeout, no closed connection and no DNS failure is a CRC error exactly when
-- the text "crc" stands somewhere in its text in lower case.
pub quality_from_error-crc_iff :
    (e : ReadError)
    → e.times_out ≡ false
    → e.is_closed ≡ false
    → e.is_dns ≡ false
    → (quality_from_error (some e) ≡ crc_error) ↔ (
        (before : List ℕ) × (after : List ℕ) × (map lower_byte e.text
          ≡ before ++ (bytes_of "crc" ++ after)))
unfolding quality_from_error
quality_from_error-crc_iff e late closed dns =
    rw (late, quality_from_error, closed, dns)
      (
        λ h.
            contains_split (bytes_of "crc") (map lower_byte e.text)
              ((of_text-crc_iff (map lower_byte e.text)).0 h),
        λ (before, after, h).
            (of_text-crc_iff (map lower_byte e.text)).1
              (rw h (contains-append before (bytes_of "crc") after)),
      )
