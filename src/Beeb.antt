-- ===== src/Beeb.antt =====
-- libs/beeb/src/beeb.cpp: the computer that the chips are put together in.
pub mod Map
pub mod Contents
pub mod Devices
pub mod Access
pub mod Spans
mod Examples
