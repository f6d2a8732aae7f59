-- ===== src/Serial.antt =====
-- libs/hardware/2C198_sULA: the serial ULA, with the ACIA and the cassette port that it drives.
pub mod State
pub mod Control
pub mod Clocks
pub mod Calls
pub mod Lock
pub mod Period
mod Examples
