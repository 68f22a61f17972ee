-- ===== src/Lib.antt =====
-- nxIIoT gateway: a Modbus gateway that stores its readings in a queue on disk and forwards them to a
-- server. The readings come from devices over Modbus (internal/modbus, internal/acquisition), are
-- buffered, written as chunks and evicted when space runs out (internal/queue), and leave as messages
-- that the server acknowledges (internal/forwarder, cmd/server-demo). Beside them stand the clock
-- (internal/time) and the settings of the network (internal/netconfig).
--
-- The files:
-- - Shared: names of the libraries, Boolean tests, lists with native lengths, 64-bit words, association
--   lists for Go's maps, and what the code uses of package strings.
-- - Queue.Types, Queue.Codec: Reading, Chunk, encodeChunk and decodeChunk of internal/queue/codec.go;
--   Queue.Codec.Varint has the integers of encoding/binary, Queue.Codec.Names the quality codes.
-- - Queue.Db: the tables of queue.db, with the transactions insertChunks, deleteThrough and discard of
--   internal/queue/store.go as a state monad over the driver's answers. Queue.Db.Rules says what they
--   leave behind, Queue.Db.Rows is about the rows.
-- - Queue.Store: Open, Append, Flush, ReadBatch, Ack, discard and refreshBounds of the same file. Its
--   children are about the counters (Counters), the batches (Batch, Batch.Oldest), and the queue as a
--   sequence of readings (Contents). Queue.ChunkCodec joins the codec to the store's interface.
-- - Queue.Life: these operations in any order, and restarts.
-- - Queue.Stats: Stats and Close of internal/queue/store.go.
-- - Queue.Capacity: internal/queue/capacity.go, with evictOnce and Maintain; its children are about what
--   a pass takes (Evict) and when it takes it (Limits).
-- - Modbus.Decode, Modbus.Quality, Modbus.Client: Decode and reorder, QualityFromError, ReadWithRetry.
-- - Acquisition.BlockPlan: planBlockReads of internal/acquisition/blockplan.go; its children are about
--   the blocks (Cover) and about the datapoints in them (Points).
-- - Acquisition.Poller: the reading of a device and the rounds of a connection of
--   internal/acquisition/poller.go, over a bus that is a parameter; Acquisition.Diagnostics counts the
--   reads (internal/diagnostics), Acquisition.Tables holds the latest values and the status of the
--   devices (internal/acquisition/latest.go, internal/status), and Acquisition.Pipeline is the way of a
--   reading to them and to the queue (cmd/gateway/main.go, internal/processor).
-- - Acquisition.Validation: Validate of internal/connection, internal/device and internal/datapoint, and
--   BuildClient of internal/acquisition/poller.go, up to the client of the library; Validation.Accepted
--   is about what the acquisition may rely on of what has been validated.
-- - Acquisition.Manager: Reload of internal/acquisition/manager.go; Manager.Wanted says what it polls
--   without its maps, Manager.Goroutines counts what it has started, Manager.Kept is about what runs on, and
--   Manager.Reloaded joins them. Acquisition.Types has the records of
--   connections, devices, datapoints and readings.
-- - Forwarder.Backoff, Forwarder.Wire, Forwarder.Sender: BackoffDuration, buildMessage, dispatchOnce
--   and Run, over the interfaces Source and Adapter.
-- - Forwarder.Sender.Recorded: any adapter, with a record of the messages whose Send returned no error.
-- - Forwarder.QueueSource: the queue as the Source of the forwarder; Queue.Store.Batch.Pending is about
--   the chunks that the forwarder sees.
-- - Forwarder.MqttAdapter: Send, handleAck and the watchdog of internal/forwarder/mqttadapter.go. A
--   Send is a sequence of events, in any order, over the table of the channels that wait. Its children
--   are about the table (Table), what a Send returns (Sends, Ends), the watchdog (Watchdog), and the
--   Send against the server's handler (Delivered).
-- - Server: ingest of cmd/server-demo/store.go. Server.Settings is cmd/server-demo/settings.go,
--   Server.Process the handlers of cmd/server-demo/server.go with the simulated faults.
-- - Time: syncOnce and Run of internal/time/service.go.
-- - Network: Apply, Confirm and revert of internal/netconfig/service.go with their timers, in any order
--   in Network.Life. Network.Nmcli is the controller of internal/netconfig/netconfig.go.
-- - Config: the configuration of internal/config/config.go and its defaults; the expansion of the
--   environment's variables and YAML are parameters of Load. Config.Tls is BuildMQTTTLSConfig.
-- - Api.Settings: getSettings and saveSettings of internal/api/settings.go.
-- - Logs: the ring buffer of internal/logger/ringbuffer.go.
-- - Tests: runs on concrete data.
--
-- Numbers: an int64, a uint64, a float64 and a uint16 are natural numbers below their power of two,
-- with wrap-around written out; a text is the list of its bytes, or of its code points where spaces
-- are trimmed; a time is its unix milliseconds or
-- nanoseconds. float64 arithmetic, DEFLATE, SQLite's answers, the disk's size, sorting, the Modbus
-- transport, the program nmcli, JSON and YAML, URLs, the MQTT client and the server's database are
-- parameters.
-- Loops are structural recursion on the list that they read, the retries that are left, the ten groups
-- of a varint, the five passes of Maintain, or the list of the rounds of a loop that runs until its
-- context ends, so no bound cuts a run short. A lock makes the steps that it guards atomic; what other
-- goroutines do in between is an argument (the appends during Flush) or a step (the callback of a
-- timer).
--
-- Not modelled: the handlers of the HTTP API but the settings, the repositories over SQLite, the Modbus
-- transports, the HTTP adapter, the MQTT and InfluxDB clients, the devices of the clock, logging, and the
-- wiring of the programs.
pub mod Shared
pub mod Queue
pub mod Modbus
pub mod Forwarder
pub mod Time
pub mod Network
pub mod Server
pub mod Acquisition
pub mod Config
pub mod Api
pub mod Logs
pub mod Tests
