-- ===== src/Tests.antt =====
-- Runs of the models on concrete data, one file for each part of the program.
mod Queue
mod Capacity
mod Modbus
mod Forwarder
mod Network
mod Server
mod Logs
mod Adapter
mod Gateway
