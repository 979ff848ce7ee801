-- ===== src/Protocol.antt =====
-- vendor/apexos-protocol/src/lib.rs: the types that cross the wire.
pub mod Wire
pub mod Evolution
pub mod Sensor
pub mod Session
pub mod Event
