-- ===== src/Via.antt =====
-- libs/hardware/6522_VIA: the versatile interface adapter (include/6522_via.h, src/6522_via.cpp).
pub mod State
pub mod Ports
pub mod Registers
pub mod Timers
pub mod Attach
pub mod Calls
pub mod Irq
mod Examples
