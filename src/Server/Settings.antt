-- ===== src/Server/Settings.antt =====
-- cmd/server-demo/settings.go: the settings of the demo server, checked and saved. Texts are given by
-- their code points, the two integers are int64 bit patterns. net/url and the file are parameters.
pub mod Valid
use nx_iio_t_gateway_max_gat.Shared.{
  ℕ, suc, ◌≡◌, Bool, true, false, not, ◌&&◌, ◌||◌, List, [], ◌∷◌, map, Option, none, some,
  if◌then◌else◌, lt64, is_neg64, trim_space, trim_right, after_prefix,
}
use nx_iio_t_gateway_max_gat.Queue.Codec.Names.{bytes_of, same_bytes}

abbrev Text : Type 0
Text = List ℕ

-- The fault modes.
abbrev pub fault_none : Text
fault_none = bytes_of "none"

abbrev pub fault_drop_ack : Text
fault_drop_ack = bytes_of "drop_ack"

abbrev pub fault_error_ack : Text
fault_error_ack = bytes_of "error_ack"

abbrev pub fault_ignore : Text
fault_ignore = bytes_of "ignore"

pub record FaultSettings : Type 0 where
  pub mode : Text
  pub ack_delay_ms : ℕ

pub record GatewayEntry : Type 0 where
  pub id : Text
  pub name : Text

pub record DatapointName : Type 0 where
  pub gateway_id : Text
  pub device_id : ℕ
  pub datapoint_id : ℕ
  pub name : Text
  pub unit : Text

pub record MqttSettings : Type 0 where
  pub broker_url : Text
  pub data_topic : Text

pub record InfluxSettings : Type 0 where
  pub bucket : Text
  pub retention_days : ℕ

pub record Settings : Type 0 where
  pub fault : FaultSettings
  pub reject_unknown_gateways : Bool
  pub gateways : List GatewayEntry
  pub datapoints : List DatapointName
  pub mqtt : MqttSettings
  pub influx : InfluxSettings

-- The errors of `validate` and of `save`.
pub data SettingsError : Type 0 where
  bad_mode bad_delay unnamed_gateway : SettingsError
  listed_twice : Text → SettingsError
  bad_broker bad_topic bad_bucket bad_retention not_saved : SettingsError

unfoldable pub is_mode : Text → Bool
is_mode t =
    same_bytes t fault_none
    || (same_bytes t fault_drop_ack || (same_bytes t fault_error_ack || same_bytes t fault_ignore))

-- The map `seen`.
unfoldable pub is_listed : Text → List Text → Bool
is_listed t [] = false
is_listed t (x ∷ xs) = same_bytes t x || is_listed t xs

unfoldable pub is_blank : Text → Bool
is_blank t = same_bytes (trim_space t) []

-- The loop over the gateways.
unfoldable pub check_gateways : List Text → List GatewayEntry → Option SettingsError
unfolding is_listed is_blank
check_gateways seen [] = none
check_gateways seen (g ∷ gs) =
    let rest = check_gateways (g.id ∷ seen) gs in
    if is_blank g.id
    then some unnamed_gateway
    else if is_listed g.id seen
    then some (listed_twice g.id)
    else rest

-- strings.HasSuffix.
unfoldable pub ends_in : Text → Text → Bool
ends_in suffix [] = same_bytes suffix []
ends_in suffix (c ∷ cs) = same_bytes suffix (c ∷ cs) || ends_in suffix cs

unfoldable pub starts_with : Text → Text → Bool
starts_with prefix t = elim (after_prefix prefix t) [ none ↦ false | some rest ↦ true ]

-- `has_host` is the test of the broker with url.Parse, its host and its scheme.
module _ (has_host : Text → Bool) where
  unfoldable check_places : Settings → Option SettingsError
  unfolding is_blank ends_in starts_with
  check_places s =
      if not (same_bytes s.mqtt.broker_url []) && not (has_host s.mqtt.broker_url)
      then some bad_broker
      else if not (ends_in (bytes_of "/data") s.mqtt.data_topic)
      then some bad_topic
      else if is_blank s.influx.bucket || starts_with (bytes_of "_") s.influx.bucket
      then some bad_bucket
      else if is_neg64 s.influx.retention_days
      then some bad_retention
      else none

  unfoldable pub validate : Settings → Option SettingsError
  unfolding is_mode check_gateways check_places
  validate s =
      if not (is_mode s.fault.mode)
      then some bad_mode
      else if is_neg64 s.fault.ack_delay_ms || lt64 120000 s.fault.ack_delay_ms
      then some bad_delay
      else elim (check_gateways [] s.gateways) [ some e ↦ some e | none ↦ check_places s ]

abbrev trim_gateway : GatewayEntry → GatewayEntry
trim_gateway g = record { id = trim_space g.id; name = trim_space g.name }

unfoldable pub name_datapoints : List DatapointName → List DatapointName
name_datapoints [] = []
name_datapoints (d ∷ ds) =
    let rest = name_datapoints ds in
    let name = trim_space d.name in
    let unit = trim_space d.unit in
    if not (same_bytes name []) || not (same_bytes unit [])
    then record d { name = name; unit = unit } ∷ rest
    else rest

unfoldable pub normal_mode : Text → Text
normal_mode t = let m = trim_space t in if same_bytes m [] then fault_none else m

unfoldable pub normalize : Settings → Settings
unfolding name_datapoints normal_mode
normalize s = record s {
  fault = record { mode = normal_mode s.fault.mode; ack_delay_ms = s.fault.ack_delay_ms };
  gateways = map trim_gateway s.gateways;
  datapoints = name_datapoints s.datapoints;
  mqtt = record {
    broker_url = trim_space s.mqtt.broker_url;
    data_topic = trim_space s.mqtt.data_topic;
  };
  influx = record { bucket = trim_space s.influx.bucket; retention_days = s.influx.retention_days };
}

-- The file at the settings path, as os.ReadFile and encoding/json find it.
pub data File : Type 0 where
  absent unreadable garbled : File
  holds : Settings → File

-- The store: without a path it stays in memory.
pub record SettingsStore : Type 0 where
  pub has_path : Bool
  pub file : File
  pub cur : Settings

-- `write` is the marshalling, the writing of the temporary file and the renaming: whether they went
-- well.
module _ (has_host : Text → Bool) (write : Settings → Bool) where
  unfoldable pub save : Settings → SettingsStore → SettingsStore × Bool
  save s st =
      if not st.has_path
      then (st, true)
      else if write s
      then (record st { file = holds s }, true)
      else (st, false)

  unfoldable pub set_settings : Settings → SettingsStore → SettingsStore × Option SettingsError
  unfolding save normalize validate
  set_settings s st =
      let s' = normalize s in
      elim (validate has_host s') [
        | some e ↦ (st, some e)
        | none ↦
            let saved = save s' st in
            if saved.1 then (record saved.0 { cur = s' }, none) else (saved.0, some not_saved)
      ]

  -- `none` is an error, with which the program ends.
  unfoldable pub load_settings : Bool → File → Settings → Option SettingsStore
  unfolding save normalize validate
  load_settings false file defaults =
      some (record { has_path = false; file = file; cur = defaults })
  load_settings true absent defaults =
      let saved = save defaults (record { has_path = true; file = absent; cur = defaults }) in
      if saved.1 then some saved.0 else none
  load_settings true unreadable defaults = none
  load_settings true garbled defaults = none
  load_settings true (holds s) defaults = elim (validate has_host (normalize s)) [
    | some e ↦ none
    | none ↦ some (record { has_path = true; file = holds s; cur = normalize s })
  ]

unfoldable pub gateway_name : Text → List GatewayEntry → Option Text
gateway_name id [] = none
gateway_name id (g ∷ gs) = if same_bytes g.id id then some g.name else gateway_name id gs
