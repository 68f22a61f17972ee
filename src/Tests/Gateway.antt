-- ===== src/Tests/Gateway.antt =====
-- internal/acquisition, internal/config and internal/api on concrete data.
use mathlib.Core.List.{Perm}
use mathlib.Core.List.Perm
use nx_iio_t_gateway_max_gat.Shared.{
  ℕ, suc, ◌≡◌, ◌⊎◌, inl, refl, Bool, true, false, List, [], ◌∷◌, ◌++◌, map, Option, none, some,
  arith, All, if◌then◌else◌, lookup, trim_space, is_space, contains_any,
}
use nx_iio_t_gateway_max_gat.Queue.Codec.Names.{bytes_of, same_bytes}
use nx_iio_t_gateway_max_gat.Modbus.Quality.{good, timeout}
use nx_iio_t_gateway_max_gat.Modbus.Decode.{byte_width, uint16, ℤ, pos, negsuc}
use nx_iio_t_gateway_max_gat.Config.{Config, fill_defaults}
use nx_iio_t_gateway_max_gat.Api.Settings.{
  Outside, SettingsDto, bad_ntp_server, not_written, Kept, save_settings,
}
use nx_iio_t_gateway_max_gat.Api.Settings.Saved.{
  IsAccepted, IsLate, save_settings-IsAccepted, save_settings-IsLate,
}
use nx_iio_t_gateway_max_gat.Acquisition.Types.{DataPoint, Device, Acquired, Connection, tcp}
use nx_iio_t_gateway_max_gat.Acquisition.Validation.{validate_point}
use nx_iio_t_gateway_max_gat.Acquisition.Validation.Accepted.{read_device-validated}
use nx_iio_t_gateway_max_gat.Acquisition.BlockPlan.{plan_block_reads}
use nx_iio_t_gateway_max_gat.Acquisition.Diagnostics.{
  Exchange, record_all, Counts, new_counters, record_all-Counts,
}
use nx_iio_t_gateway_max_gat.Acquisition.Poller.{Bus, Moment, Poll, read_device}
use nx_iio_t_gateway_max_gat.Acquisition.Poller.Complete.{IsComplete, read_device-IsComplete}
use nx_iio_t_gateway_max_gat.Acquisition.Pipeline.{Gateway}
use nx_iio_t_gateway_max_gat.Acquisition.Manager.{Group, Manager, reload}
use nx_iio_t_gateway_max_gat.Acquisition.Manager.Wanted.{wanted_for}
use nx_iio_t_gateway_max_gat.Acquisition.Manager.Goroutines.{count, handles, IsManaged}
use nx_iio_t_gateway_max_gat.Acquisition.Manager.Reloaded.{
  Matches, reload-Matches, reload_undisturbed,
}
use nx_iio_t_gateway_max_gat.Tests.Queue.{format, store}
use nx_iio_t_gateway_max_gat.Tests.Modbus.{whole}
use nx_iio_t_gateway_max_gat.Tests.Server.{tag}

abbrev blank_config : Config
blank_config = record {
  gateway = record { id = bytes_of "gw"; name = [] };
  api = record { listen_addr = []; static_dir = [] };
  database_path = bytes_of "/data/gateway.db";
  queue = record {
    path = [];
    max_bytes = 0;
    min_free_percent = 0;
    flush_interval_ms = 0;
    maintenance_interval_sec = 0;
  };
  disabled = false;
  forwarder = record {
    transport = [];
    server_url = [];
    max_readings_per_message = 0;
    poll_interval_ms = 0;
    send_timeout_ms = 0;
  };
  log = record { level = []; format = [] };
  mqtt = record {
    broker_url = [];
    client_id = [];
    username = [];
    password = [];
    qos = 0;
    data_topic = [];
    ack_topic = [];
    keep_alive_sec = 0;
    connect_timeout_ms = 0;
    publish_timeout_ms = 0;
    ack_timeout_ms = 0;
    tls = record {
      enabled = false;
      ca_file = [];
      cert_file = [];
      key_file = [];
      insecure_skip_verify = false;
    };
  };
  time = record {
    ntp_server = [];
    timezone = [];
    sync_interval_sec = 0;
    query_timeout_ms = 0;
    rtc_device = [];
  };
}

abbrev beside : List ℕ → List ℕ
beside path = bytes_of "/data/queue.db"

-- The file refers to the gateway's id by a variable of the environment.
abbrev expand_id : List ℕ → List ℕ
expand_id t = if same_bytes t (bytes_of "$ID") then bytes_of "gw" else t

abbrev parse : List ℕ → Option Config
parse t =
    if same_bytes t (bytes_of "gw")
    then some blank_config
    else some (fill_defaults beside blank_config)

abbrev submitted : SettingsDto
submitted = record {
  gateway = record { id = bytes_of "gw-2"; name = bytes_of "Hall" };
  transport = bytes_of "mqtt";
  broker_url = bytes_of " tcp://broker:1883";
  client_id = [];
  username = [];
  password = [];
  qos = 1;
  data_topic = [];
  ack_topic = [];
  keep_alive_sec = 30;
  ntp_server = bytes_of "server pool.ntp.org";
  timezone = bytes_of "UTC";
  sync_interval_sec = 300;
  max_bytes = 1000;
  min_free_percent = 0;
  enabled = true;
}

abbrev env : Outside
env = record {
  has_host = λ t. true;
  crt = record {
    Pool = List ℕ;
    Pair = List ℕ;
    read = λ file. none;
    pool_of = some;
    load_pair = λ cert key. none;
  };
  now = 1700000000000000000;
  connects = λ c. true;
  writes = λ c. true;
  leftover = λ c file. none;
}

abbrev before : Kept
before = record { cfg = blank_config; file = none }

accepted : (save_settings env true (some submitted) before).1 ≡ none
unfolding save_settings trim_space is_space same_bytes contains_any
accepted = refl

save_settings-IsAccepted_example :
    IsAccepted env submitted before (save_settings env true (some submitted) before).0
save_settings-IsAccepted_example = save_settings-IsAccepted env true submitted before accepted

abbrev off_with_line : SettingsDto
off_with_line = record submitted { enabled = false; ntp_server = bytes_of "not a name" }

rejects : (save_settings env true (some off_with_line) before).1 ≡ some bad_ntp_server
unfolding save_settings trim_space is_space same_bytes contains_any
rejects = refl

save_settings-IsLate_example :
    let after = (save_settings env true (some off_with_line) before).0 in
    ((after.file ≡ none) ⊎ (bad_ntp_server ≡ not_written))
    × ((after ≡ before) ⊎ IsLate env bad_ntp_server)
save_settings-IsLate_example =
    save_settings-IsLate env true (some off_with_line) before bad_ntp_server rejects

abbrev wired : Connection
wired = record {
  id = 7;
  name = bytes_of "line 1";
  protocol = tcp;
  interface = [];
  ip_address = bytes_of "10.0.0.5";
  port = 502;
  timeout_ms = 1000;
  retry = 2;
  enabled = true;
  next_device_delay_ms = 20;
  baud_rate = 0;
  data_bits = 0;
  parity = [];
  stop_bits = 0;
}

abbrev meter : Device
meter = record { id = 1; name = bytes_of "meter"; connection_id = 7; slave_id = 3; enabled = true }

abbrev two_points : List DataPoint
two_points = tag 1 4 1 uint16 ∷ tag 2 4 2 uint16 ∷ []

abbrev points : ℕ → Option (List DataPoint)
points id = some two_points

abbrev group : Group
group = record { conn = wired; devices = record { device = meter; dps = two_points } ∷ [] }

abbrev alike : Group → Group → Bool
alike a b = true

-- The poller of the connection runs, and one of a connection that is gone.
abbrev running : Manager
running = record {
  running =
      (7, record { handle = 0; group = group }) ∷ (8, record { handle = 1; group = group }) ∷ [];
  next_handle = 2;
  cancelled = [];
}

running-IsManaged : IsManaged running
unfolding IsManaged count handles
running-IsManaged h = ground arith

reloads : (reload alike (some (meter ∷ [])) (some (wired ∷ [])) points running).1 ≡ true
unfolding reload
reloads = refl

-- Connection 8 is gone.
reload-Matches_example :
    let after = (reload alike (some (meter ∷ [])) (some (wired ∷ [])) points running).0 in
    Matches alike running 8 (wanted_for points (wired ∷ []) (meter ∷ []) 8) (lookup 8 after.running)
    × IsManaged after
reload-Matches_example =
    reload-Matches alike (meter ∷ []) (wired ∷ []) points running 8 running-IsManaged reloads

is_wanted : wanted_for points (wired ∷ []) (meter ∷ []) 7 ≡ some group
unfolding wanted_for
is_wanted = refl

reload_undisturbed_example :
    let after = (reload alike (some (meter ∷ [])) (some (wired ∷ [])) points running).0 in
    (lookup 7 after.running ≡ some (record { handle = 0; group = group }))
    × (count 0 after.cancelled ≡ 0)
reload_undisturbed_example =
    reload_undisturbed alike (meter ∷ []) (wired ∷ []) points running 7
      (record { handle = 0; group = group }) group running-IsManaged reloads refl is_wanted refl

abbrev late : List Exchange
late = record { quality = timeout; duration = 9; attempts = 3 } ∷ []

record_all-Counts_example : Counts new_counters (record_all late new_counters) late
record_all-Counts_example = record_all-Counts late new_counters (record {
  rx_word = omega arith;
  count_word = omega arith;
  timeouts_word = omega arith;
  crc_word = omega arith;
})

abbrev bits : ℤ → ℕ
bits (pos n) = n
bits (negsuc n) = 0

-- A device whose registers hold their own address; the state counts the reads.
abbrev device_bus : Bus
device_bus = record {
  S = ℕ;
  Error = Bool;
  describe = λ e. record { times_out = e; is_closed = false; is_dns = false; text = [] };
  connect = λ n. (n, none);
  close = λ n. n;
  set_unit = λ id n. n;
  read = λ fc address quantity n. (suc n, (none, 0 ∷ 1 ∷ 0 ∷ 2 ∷ []));
}

abbrev quiet : ℕ → Moment
quiet n = record {
  done = false;
  context_error = record { times_out = true; is_closed = false; is_dns = false; text = [] };
  elapsed = 5;
}

abbrev idle : Poll whole bits device_bus
idle = record {
  client = 0;
  counters = new_counters;
  readings = [];
  read_count = 0;
  block_reads = 0;
}

-- The sort of a group that is in order already.
abbrev same_order : List DataPoint → List DataPoint
same_order xs = xs

read_device-IsComplete_example :
    IsComplete whole bits device_bus meter 1700000000000 two_points idle (
      read_device whole bits device_bus
        (plan_block_reads same_order (4 ∷ []))
        meter
        1700000000000
        quiet
        two_points
        idle)
read_device-IsComplete_example =
    read_device-IsComplete whole bits device_bus same_order (4 ∷ []) meter 1700000000000 quiet
      two_points idle (λ xs. Perm.refl xs) (tt, tt) (inl refl, (inl refl, tt))

both_valid : All (λ (dp : DataPoint). validate_point dp ≡ none) two_points
unfolding validate_point same_bytes byte_width
both_valid = (refl, (refl, tt))

read_device-validated_example :
    (emitted : List Acquired) × ((read_device whole bits device_bus
        (plan_block_reads same_order (4 ∷ []))
        meter
        1700000000000
        quiet
        two_points
        idle).readings
      ≡ idle.readings ++ emitted)
    × Perm
        (map (λ (r : Acquired). r.datapoint_id) emitted)
        (map (λ (dp : DataPoint). dp.id) two_points)
read_device-validated_example =
    read_device-validated whole bits device_bus same_order (4 ∷ []) meter 1700000000000 quiet
      two_points idle (λ xs. Perm.refl xs) (tt, tt) (inl refl, (inl refl, tt)) both_valid

abbrev reading : Acquired
reading = record {
  device_id = 1;
  device_name = bytes_of "meter";
  datapoint_id = 2;
  tag = bytes_of "tag";
  value = some 4602678819172646912;
  quality = good;
  unit = [];
  event_time = 1700000000000;
}

abbrev gateway : Gateway
gateway = record { status = []; latest = []; queue = store }
