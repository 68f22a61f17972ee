-- ===== src/Forwarder.antt =====
-- internal/forwarder: messages, the retry schedule, and the sender over a queue and an adapter.
pub mod Backoff
pub mod Wire
pub mod MqttAdapter
pub mod Sender
pub mod QueueSource
