-- ===== src/Tests/Forwarder.antt =====
-- internal/forwarder on concrete failures and messages.
use nx_iio_t_gateway_max_gat.Shared.{
  ℕ, suc, ◌≡◌, ◌*◌, Bool, false, List, [], ◌∷◌, none, some, ◌==◌, if◌then◌else◌,
}
use nx_iio_t_gateway_max_gat.Forwarder.Backoff.{backoff_duration, second, backoff_duration-schedule}
use nx_iio_t_gateway_max_gat.Forwarder.Sender.{Adapter, Config, Forwarder, run}
use nx_iio_t_gateway_max_gat.Forwarder.Sender.Delivery.{IsDelivering}
use nx_iio_t_gateway_max_gat.Forwarder.Sender.Recorded.{recorded, accepted, erase}
use nx_iio_t_gateway_max_gat.Forwarder.QueueSource.{
  queue_source, IsSoundFeed, waiting, run-queue_source,
}
use nx_iio_t_gateway_max_gat.Tests.Queue.{format, store, store-IsConsistent}

backoff_duration-schedule_example : backoff_duration 4 ≡ 8 * second
backoff_duration-schedule_example = backoff_duration-schedule 3

-- The first message is lost, and every later one is acknowledged.
abbrev flaky : Adapter
flaky = record { A = ℕ; Error = Bool; send = λ m n. (suc n, if n == 0 then some false else none) }

abbrev no_format : ℕ → List ℕ
no_format time = []

abbrev gateway : Config
gateway = record { gateway_id = []; max_readings = 2000; poll_interval = second }

-- The queue on disk holds a chunk and a corrupt row; the first acknowledgement fails.
abbrev start : Forwarder (queue_source format []) (recorded flaky) no_format
start = record {
  source = record { store = store; reads = []; acks = (false ∷ [], []) ∷ [] };
  adapter = (0, []);
  status = record {
    connected = false;
    last_error = none;
    last_success_at = none;
    last_attempt_at = none;
  };
}

run-queue_source_example :
    let after =
      (run
        (queue_source format [])
        (recorded flaky)
        no_format
        gateway
        (10 ∷ 20 ∷ 30 ∷ [])
        0
        start).0 in
    IsDelivering
      (queue_source format [])
      (recorded flaky)
      no_format
      (IsSoundFeed format)
      (waiting format)
      (accepted flaky)
      (waiting format start.source)
      after
    × (erase (queue_source format []) flaky no_format after
        ≡ (run
            (queue_source format [])
            flaky
            no_format
            gateway
            (10 ∷ 20 ∷ 30 ∷ [])
            0
            (erase (queue_source format []) flaky no_format start)).0)
run-queue_source_example =
    run-queue_source format flaky no_format [] gateway (10 ∷ 20 ∷ 30 ∷ []) 0 start
      store-IsConsistent
