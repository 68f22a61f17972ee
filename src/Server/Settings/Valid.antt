-- ===== src/Server/Settings/Valid.antt =====
-- What cmd/server-demo/settings.go keeps.
use nx_iio_t_gateway_max_gat.Shared.{
  ℕ, ◌≡◌, ◌⊎◌, refl, ap, ◌∙◌, inl, inr, Bool, true, false, not, ◌||◌, List, [], ◌∷◌, map, Option,
  none, some, Bool-cases, trim_space, trim_left, trim_right, is_space, trim_space_again,
}
use nx_iio_t_gateway_max_gat.Queue.Codec.Names.{same_bytes}
use nx_iio_t_gateway_max_gat.Server.Settings.{
  fault_none, GatewayEntry, DatapointName, Settings, SettingsError, trim_gateway, name_datapoints,
  normal_mode, normalize, validate, File, holds, SettingsStore, load_settings,
}

none_trimmed : trim_space fault_none ≡ fault_none
unfolding trim_space trim_left trim_right is_space
none_trimmed = refl

none_texted : same_bytes fault_none [] ≡ false
unfolding same_bytes
none_texted = refl

normal_mode_again : (t : List ℕ) → normal_mode (normal_mode t) ≡ normal_mode t
unfolding normal_mode
normal_mode_again t = elim (Bool-cases (same_bytes (trim_space t) [])) [
  | inl blank ↦ rw (blank, normal_mode, none_trimmed, none_texted) refl
  | inr texted ↦ rw (texted, normal_mode, trim_space_again t, texted) refl
]

trim_gateways_again :
    (gs : List GatewayEntry) → map trim_gateway (map trim_gateway gs) ≡ map trim_gateway gs
trim_gateways_again [] = refl
trim_gateways_again (g ∷ gs) =
    rw (trim_space_again g.id, trim_space_again g.name, trim_gateways_again gs) refl

name_datapoints_again :
    (ds : List DatapointName) → name_datapoints (name_datapoints ds) ≡ name_datapoints ds
unfolding name_datapoints
name_datapoints_again [] = refl
name_datapoints_again (d ∷ ds) =
    elim (Bool-cases
      (not (same_bytes (trim_space d.name) []) || not (same_bytes (trim_space d.unit) []))) [
        | inl named ↦
            rw
              (
                named,
                name_datapoints,
                trim_space_again d.name,
                trim_space_again d.unit,
                named,
                name_datapoints_again ds,
              )
              refl
        | inr unnamed ↦ rw (unnamed, name_datapoints) (name_datapoints_again ds)
      ]

pub normalize_again : (s : Settings) → normalize (normalize s) ≡ normalize s
unfolding normalize
normalize_again s =
    rw
      (
        normal_mode_again s.fault.mode,
        trim_gateways_again s.gateways,
        name_datapoints_again s.datapoints,
        trim_space_again s.mqtt.broker_url,
        trim_space_again s.mqtt.data_topic,
        trim_space_again s.influx.bucket,
      )
      refl

module _ (has_host : List ℕ → Bool) (write : Settings → Bool) where
  -- The current settings are valid and in normal form, and the file would give them back.
  pub record IsSound (st : SettingsStore) : Type 0 where
    pub normal : normalize st.cur ≡ st.cur
    pub valid : validate has_host st.cur ≡ none
    pub written :
        (st.has_path ≡ false) ⊎ ((s : Settings) × (st.file ≡ holds s) × (normalize s ≡ st.cur))

  -- The three ways through a change.
  data Change (s : Settings) (st : SettingsStore) (out : SettingsStore × Option SettingsError)
      : Type 0 where
    rejected : (e : SettingsError) → out ≡ (st, some e) → Change s st out
    in_memory :
        st.has_path ≡ false
        → validate has_host (normalize s) ≡ none
        → out ≡ (record st { cur = normalize s }, none)
        → Change s st out
    on_disk :
        validate has_host (normalize s) ≡ none
        → out ≡ (record st { file = holds (normalize s); cur = normalize s }, none)
        → Change s st out

  same_store :
      (s : Settings) (st : SettingsStore)
      → st.has_path ≡ true
      → st.file ≡ holds s
      → normalize s ≡ st.cur
      → record { has_path = true; file = holds s; cur = normalize s } ≡ st
  same_store s st p f n = rw (n, p, f) refl

  reload_file :
      (defaults : Settings) (st : SettingsStore)
      → IsSound st
      → st.has_path ≡ true
      → (s : Settings) × (st.file ≡ holds s) × (normalize s ≡ st.cur)
      → load_settings has_host write true st.file defaults ≡ some st
  unfolding load_settings
  reload_file defaults st v path (s, file, n) =
      let valid : validate has_host (normalize s) ≡ none = ap (validate has_host) n ∙ v.valid in
      let loaded : load_settings has_host write true (holds s) defaults ≡ some st =
        rw (valid, load_settings) (ap some (same_store s st path file n)) in
      ap (λ (f : File). load_settings has_host write true f defaults) file ∙ loaded

  reload :
      (defaults : Settings) (st : SettingsStore)
      → IsSound st
      → (st.has_path ≡ false) ⊎ (load_settings has_host write true st.file defaults ≡ some st)
  reload defaults st v = elim (Bool-cases st.has_path) [
    | inr memory ↦ inl memory
    | inl path ↦ elim v.written [
      | inl memory ↦ inl memory
      | inr saved ↦ inr (reload_file defaults st v path saved)
    ]
  ]
