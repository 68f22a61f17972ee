-- ===== src/Api/Settings.antt =====
-- internal/api/settings.go: the settings that the web interface saves to config.yaml. JSON and YAML,
-- net/url, the files of the certificates, the connection that tests a broker, and config.yaml are
-- parameters.
pub mod Saved
use nx_iio_t_gateway_max_gat.Shared.{
  ℕ, ◌+◌, ◌-◌, ◌*◌, ◌%◌, ◌≡◌, Bool, true, false, not, ◌&&◌, ◌||◌, List, [], ◌∷◌, ◌++◌, Option, none,
  some, wrap64, leb, if◌then◌else◌, trim_space, after_prefix, contains_any,
}
use nx_iio_t_gateway_max_gat.Queue.Codec.Names.{bytes_of, same_bytes}
use nx_iio_t_gateway_max_gat.Acquisition.Validation.{decimal64}
use nx_iio_t_gateway_max_gat.Config.Tls.{Certificates, Tls, build_mqtt_tls}
use nx_iio_t_gateway_max_gat.Config.{
  Text, GatewayConfig, QueueConfig, MqttConfig, TimeConfig, Config, is_positive, is_positive_float,
  or_text,
}

-- settingsDTO.
pub record SettingsDto : Type 0 where
  pub gateway : GatewayConfig
  pub transport : Text
  pub broker_url : Text
  pub client_id : Text
  pub username : Text
  pub password : Text
  pub qos : ℕ
  pub data_topic : Text
  pub ack_topic : Text
  pub keep_alive_sec : ℕ
  pub ntp_server : Text
  pub timezone : Text
  pub sync_interval_sec : ℕ
  pub max_bytes : ℕ
  pub min_free_percent : ℕ
  pub enabled : Bool

-- The errors, in the order of the checks.
pub data Refusal : Type 0 where
  no_json no_gateway_id bad_broker bad_transport no_connection bad_ntp_server : Refusal
  no_config_path not_written : Refusal

-- strings.ToLower on the letters that the prefixes can meet: no other letter has one of theirs as
-- its lower case.
abbrev lower : ℕ → ℕ
lower c = if leb 65 c && leb c 90 then c + 32 else c

unfoldable pub after_lower : Text → Text → Option Text
after_lower [] s = some s
after_lower (p ∷ ps) [] = none
after_lower (p ∷ ps) (c ∷ cs) =
    let rest = after_lower ps cs in if same_bytes (p ∷ []) (lower c ∷ []) then rest else none

unfoldable pub drop_prefix : Text → Text
unfolding after_lower
drop_prefix s = elim (after_lower (bytes_of "server ") s) [
  | some rest ↦ trim_space rest
  | none ↦ elim (after_lower (bytes_of "pool ") s) [ some rest ↦ trim_space rest | none ↦ s ]
]

abbrev pub white : Text
white = 32 ∷ 9 ∷ 13 ∷ 10 ∷ []

unfoldable pub normalize_ntp_server : Text → Option Text
unfolding drop_prefix
normalize_ntp_server raw =
    let s = trim_space raw in
    if same_bytes s []
    then some []
    else if contains_any white (drop_prefix s)
    then none
    else some (drop_prefix s)

-- A pointer to the configuration in memory, and the file: `none` is a file that holds no configuration.
pub record Kept : Type 0 where
  pub cfg : Config
  pub file : Option Config

-- MQTTAdapterConfig of internal/forwarder/mqttadapter.go; durations are nanoseconds.
pub record AdapterConfig (crt : Certificates) : Type 0 where
  pub broker_url : Text
  pub client_id : Text
  pub username : Text
  pub password : Text
  pub qos : ℕ
  pub data_topic : Text
  pub ack_topic : Text
  pub keep_alive : ℕ
  pub connect_timeout : ℕ
  pub tls : Option (Tls crt)

-- `has_host` is the test with url.Parse, `crt` the files of the certificates, `now` the time of a
-- test in nanoseconds, `connects` whether the adapter's Connect succeeds. config.yaml is written in
-- place: `writes` tells whether that succeeds, and `leftover` what a failed write makes of the file,
-- which may be no YAML any more.
pub record Outside : Type 1 where
  pub has_host : Text → Bool
  pub crt : Certificates
  pub now : ℕ
  pub connects : AdapterConfig crt → Bool
  pub writes : Config → Bool
  pub leftover : Config → Option Config → Option Config

unfoldable pub connect_timeout_of : MqttConfig → ℕ
unfolding is_positive
connect_timeout_of cfg =
    let timeout = wrap64 (cfg.connect_timeout_ms * 1000000) in
    if is_positive timeout then timeout else 5000000000

-- The configuration of the test: it connects under a client ID of its own.
unfoldable pub test_config :
    (crt : Certificates) → ℕ → Option (Tls crt) → MqttConfig → AdapterConfig crt
unfolding or_text connect_timeout_of decimal64
test_config crt now tls cfg = record {
  broker_url = cfg.broker_url;
  client_id =
      or_text cfg.client_id (bytes_of "gateway") ++ bytes_of "-settings-test-" ++ decimal64 now;
  username = cfg.username;
  password = cfg.password;
  qos = cfg.qos % 256;
  data_topic = cfg.data_topic;
  ack_topic = cfg.ack_topic;
  keep_alive = wrap64 (cfg.keep_alive_sec * 1000000000);
  connect_timeout = connect_timeout_of cfg;
  tls = tls;
}

module _ (env : Outside) where
  unfoldable pub normalize_broker_url : Text → Option Text
  normalize_broker_url raw =
      let s = trim_space raw in
      if same_bytes s [] then none else if env.has_host s then some s else none

  unfoldable pub test_mqtt_connect : MqttConfig → Text → Bool
  unfolding test_config build_mqtt_tls
  test_mqtt_connect cfg transport =
      if same_bytes transport (bytes_of "mqtt")
      then elim (build_mqtt_tls env.crt cfg.tls) [
        | none ↦ false
        | some tls ↦ env.connects (test_config env.crt env.now tls cfg)
      ]
      else true

  unfoldable pub new_mqtt : Text → SettingsDto → MqttConfig → MqttConfig
  unfolding or_text is_positive
  new_mqtt url dto m = record m {
    broker_url = url;
    client_id = dto.client_id;
    username = dto.username;
    password = or_text dto.password m.password;
    qos = if is_positive dto.qos then dto.qos else m.qos;
    data_topic = or_text dto.data_topic m.data_topic;
    ack_topic = or_text dto.ack_topic m.ack_topic;
    keep_alive_sec =
        if is_positive dto.keep_alive_sec then dto.keep_alive_sec else m.keep_alive_sec;
  }

  -- What is assigned before the NTP server is looked at, and behind it.
  unfoldable pub assign_identity : SettingsDto → MqttConfig → Config → Config
  assign_identity dto mqtt c = record c {
    gateway = dto.gateway;
    disabled = not dto.enabled;
    forwarder = record c.forwarder { transport = dto.transport };
    mqtt = mqtt;
  }

  unfoldable pub assign_rest : SettingsDto → Text → Config → Config
  unfolding is_positive is_positive_float
  assign_rest dto ntp c = record c {
    time = record c.time {
      ntp_server = ntp;
      timezone = dto.timezone;
      sync_interval_sec =
          if is_positive dto.sync_interval_sec
          then dto.sync_interval_sec
          else c.time.sync_interval_sec;
    };
    queue = record c.queue {
      max_bytes = if is_positive dto.max_bytes then dto.max_bytes else c.queue.max_bytes;
      min_free_percent =
          if is_positive_float dto.min_free_percent
          then dto.min_free_percent
          else c.queue.min_free_percent;
    };
  }

  -- `none` is success, with which the process ends to start again.
  unfoldable pub write_config : Bool → Kept → Kept × Option Refusal
  write_config has_path k =
      if not has_path
      then (k, some no_config_path)
      else if env.writes k.cfg
      then (record k { file = some k.cfg }, none)
      else (record k { file = env.leftover k.cfg k.file }, some not_written)

  unfoldable pub commit : Bool → SettingsDto → MqttConfig → Kept → Kept × Option Refusal
  unfolding assign_identity assign_rest write_config normalize_ntp_server
  commit has_path dto mqtt k =
      let c = assign_identity dto mqtt k.cfg in
      elim (normalize_ntp_server dto.ntp_server) [
        | none ↦ (record k { cfg = c }, some bad_ntp_server)
        | some ntp ↦ write_config has_path (record k { cfg = assign_rest dto ntp c })
      ]

  unfoldable pub save_enabled : Bool → SettingsDto → Kept → Kept × Option Refusal
  unfolding commit new_mqtt test_mqtt_connect normalize_broker_url
  save_enabled has_path dto k = elim (normalize_broker_url dto.broker_url) [
    | none ↦ (k, some bad_broker)
    | some url ↦
        if not
          (same_bytes dto.transport (bytes_of "http") || same_bytes dto.transport (bytes_of "mqtt"))
        then (k, some bad_transport)
        else if not (test_mqtt_connect (new_mqtt url dto k.cfg.mqtt) dto.transport)
        then (k, some no_connection)
        else commit has_path dto (new_mqtt url dto k.cfg.mqtt) k
  ]

  -- By `dto.enabled`.
  unfoldable pub submit : Bool → Bool → SettingsDto → Kept → Kept × Option Refusal
  unfolding save_enabled commit new_mqtt
  submit true has_path dto k = save_enabled has_path dto k
  submit false has_path dto k =
      commit has_path dto (new_mqtt (trim_space dto.broker_url) dto k.cfg.mqtt) k

  unfoldable pub save_settings : Bool → Option SettingsDto → Kept → Kept × Option Refusal
  unfolding submit
  save_settings has_path none k = (k, some no_json)
  save_settings has_path (some dto) k =
      if same_bytes dto.gateway.id []
      then (k, some no_gateway_id)
      else submit dto.enabled has_path dto k

-- getSettings: the password stays out.
unfoldable pub get_settings : Config → SettingsDto
get_settings c = record {
  gateway = c.gateway;
  transport = c.forwarder.transport;
  broker_url = c.mqtt.broker_url;
  client_id = c.mqtt.client_id;
  username = c.mqtt.username;
  password = [];
  qos = c.mqtt.qos;
  data_topic = c.mqtt.data_topic;
  ack_topic = c.mqtt.ack_topic;
  keep_alive_sec = c.mqtt.keep_alive_sec;
  ntp_server = c.time.ntp_server;
  timezone = c.time.timezone;
  sync_interval_sec = c.time.sync_interval_sec;
  max_bytes = c.queue.max_bytes;
  min_free_percent = c.queue.min_free_percent;
  enabled = not c.disabled;
}
