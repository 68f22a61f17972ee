-- ===== src/Modbus.antt =====
-- internal/modbus: register decoding, retries and the quality of a read.
pub mod Decode
pub mod Quality
pub mod Client
