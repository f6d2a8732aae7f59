-- ===== src/Acia.antt =====
-- libs/hardware/6850_ACIA: the serial adapter (include/acia_6850.h, src/acia_6850.cpp).
pub mod State
pub mod Transmit
pub mod Receive
pub mod Control
pub mod Registers
pub mod Calls
pub mod Kept
pub mod Sound
pub mod Always
pub mod Stuck
mod Examples
pub mod Line
