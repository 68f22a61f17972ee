-- ===== src/Config.antt =====
-- internal/config/config.go: config.yaml and its defaults. An int is an int64 bit pattern, a float64
-- its bits, a text its code points. The file, YAML and the paths of package filepath are parameters.
pub mod Defaults
pub mod Tls
use nx_iio_t_gateway_max_gat.Shared.{
  ℕ, ◌+◌, ◌*◌, ◌^◌, Bool, true, false, not, ◌&&◌, ◌||◌, List, [], ◌∷◌, ◌++◌, Option, none, some,
  leb, ltb, ◌==◌, if◌then◌else◌, two63, is_neg64,
}
use nx_iio_t_gateway_max_gat.Queue.Codec.Names.{bytes_of, same_bytes}

abbrev pub Text : Type 0
Text = List ℕ

pub record GatewayConfig : Type 0 where
  pub id : Text
  pub name : Text

pub record ApiConfig : Type 0 where
  pub listen_addr : Text
  pub static_dir : Text

pub record QueueConfig : Type 0 where
  pub path : Text
  pub max_bytes : ℕ
  pub min_free_percent : ℕ
  pub flush_interval_ms : ℕ
  pub maintenance_interval_sec : ℕ

pub record ForwarderConfig : Type 0 where
  pub transport : Text
  pub server_url : Text
  pub max_readings_per_message : ℕ
  pub poll_interval_ms : ℕ
  pub send_timeout_ms : ℕ

pub record LogConfig : Type 0 where
  pub level : Text
  pub format : Text

pub record TlsConfig : Type 0 where
  pub enabled : Bool
  pub ca_file : Text
  pub cert_file : Text
  pub key_file : Text
  pub insecure_skip_verify : Bool

pub record MqttConfig : Type 0 where
  pub broker_url : Text
  pub client_id : Text
  pub username : Text
  pub password : Text
  pub qos : ℕ
  pub data_topic : Text
  pub ack_topic : Text
  pub keep_alive_sec : ℕ
  pub connect_timeout_ms : ℕ
  pub publish_timeout_ms : ℕ
  pub ack_timeout_ms : ℕ
  pub tls : TlsConfig

pub record TimeConfig : Type 0 where
  pub ntp_server : Text
  pub timezone : Text
  pub sync_interval_sec : ℕ
  pub query_timeout_ms : ℕ
  pub rtc_device : Text

-- `database_path` and `disabled` are the only fields of their sections.
pub record Config : Type 0 where
  pub gateway : GatewayConfig
  pub api : ApiConfig
  pub database_path : Text
  pub queue : QueueConfig
  pub disabled : Bool
  pub forwarder : ForwarderConfig
  pub log : LogConfig
  pub mqtt : MqttConfig
  pub time : TimeConfig

-- n > 0, of an int and of a float64.
unfoldable pub is_positive : ℕ → Bool
is_positive n = not (n == 0 || is_neg64 n)

abbrev pub infinity : ℕ
infinity = 9218868437227405312

unfoldable pub is_positive_float : ℕ → Bool
is_positive_float b = ltb 0 b && leb b infinity

-- b <= 0 of a float64, which a NaN is not.
unfoldable pub is_at_most_zero : ℕ → Bool
is_at_most_zero b = b == 0 || (leb two63 b && leb b (two63 + infinity))

-- With the bits of 10.0.
unfoldable pub default_percent : ℕ → ℕ
unfolding is_at_most_zero
default_percent b = if is_at_most_zero b then 4621819117588971520 else b

unfoldable pub or_default : ℕ → ℕ → ℕ
unfolding is_positive
or_default n d = if is_positive n then n else d

unfoldable pub or_text : Text → Text → Text
or_text t d = if same_bytes t [] then d else t

unfoldable pub queue_defaults : Text → QueueConfig → QueueConfig
unfolding or_default or_text default_percent
queue_defaults beside q = record {
  path = or_text q.path beside;
  max_bytes = or_default q.max_bytes (2 ^ 30);
  min_free_percent = default_percent q.min_free_percent;
  flush_interval_ms = or_default q.flush_interval_ms 2000;
  maintenance_interval_sec = or_default q.maintenance_interval_sec 30;
}

unfoldable pub forwarder_defaults : ForwarderConfig → ForwarderConfig
unfolding or_default or_text
forwarder_defaults f = record f {
  transport = or_text f.transport (bytes_of "http");
  max_readings_per_message = or_default f.max_readings_per_message 2000;
  poll_interval_ms = or_default f.poll_interval_ms 1000;
  send_timeout_ms = or_default f.send_timeout_ms 5000;
}

abbrev pub topic : Text → Text → Text
topic client end = bytes_of "gateway/" ++ client ++ end

unfoldable pub mqtt_defaults : Text → MqttConfig → MqttConfig
unfolding or_default or_text
mqtt_defaults gateway_id m =
    let client = or_text m.client_id gateway_id in
    record m {
      client_id = client;
      qos = or_default m.qos 1;
      data_topic = or_text m.data_topic (topic client (bytes_of "/data"));
      ack_topic = or_text m.ack_topic (topic client (bytes_of "/ack"));
      keep_alive_sec = or_default m.keep_alive_sec 30;
      connect_timeout_ms = or_default m.connect_timeout_ms 5000;
      publish_timeout_ms = or_default m.publish_timeout_ms 5000;
      ack_timeout_ms = or_default m.ack_timeout_ms 10000;
    }

unfoldable pub time_defaults : TimeConfig → TimeConfig
unfolding or_default or_text
time_defaults t = record t {
  sync_interval_sec = or_default t.sync_interval_sec 300;
  query_timeout_ms = or_default t.query_timeout_ms 3000;
  rtc_device = or_text t.rtc_device (bytes_of "/dev/rtc0");
  timezone = or_text t.timezone (bytes_of "UTC");
}

-- `queue_beside` is the path of queue.db beside the database.
module _ (queue_beside : Text → Text) where
  unfoldable pub fill_defaults : Config → Config
  unfolding queue_defaults forwarder_defaults mqtt_defaults time_defaults
  fill_defaults c = record c {
    queue = queue_defaults (queue_beside c.database_path) c.queue;
    forwarder = forwarder_defaults c.forwarder;
    mqtt = mqtt_defaults c.gateway.id c.mqtt;
    time = time_defaults c.time;
  }

  -- `expand_env` is os.ExpandEnv in the environment of the process, `unmarshal` is yaml.Unmarshal;
  -- `none` is a file that cannot be read.
  unfoldable pub load : (Text → Text) → (Text → Option Config) → Option Text → Option Config
  unfolding fill_defaults
  load expand_env unmarshal none = none
  load expand_env unmarshal (some raw) = elim (unmarshal (expand_env raw)) [
    | none ↦ none
    | some c ↦ some (fill_defaults c)
  ]
