-- ===== src/Config/Defaults.antt =====
-- The defaults of internal/config/config.go.
use nx_iio_t_gateway_max_gat.Shared.{◌≡◌, true}
use nx_iio_t_gateway_max_gat.Config.{Config, is_positive}

-- Settings that the timers and the limits of the gateway can run on.
pub record IsRunnable (c : Config) : Type 0 where
  pub has_room : is_positive c.queue.max_bytes ≡ true
  pub flushes : is_positive c.queue.flush_interval_ms ≡ true
  pub maintains : is_positive c.queue.maintenance_interval_sec ≡ true
  pub takes_readings : is_positive c.forwarder.max_readings_per_message ≡ true
  pub polls : is_positive c.forwarder.poll_interval_ms ≡ true
  pub gives_up : is_positive c.forwarder.send_timeout_ms ≡ true
  pub confirms : is_positive c.mqtt.qos ≡ true
  pub publishes : is_positive c.mqtt.publish_timeout_ms ≡ true
  pub waits : is_positive c.mqtt.ack_timeout_ms ≡ true
  pub syncs : is_positive c.time.sync_interval_sec ≡ true
  pub asks : is_positive c.time.query_timeout_ms ≡ true
