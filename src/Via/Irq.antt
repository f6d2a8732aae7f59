-- ===== src/Via/Irq.antt =====
-- src/6522_via.cpp: the interrupt flags and the cached interrupt line. Bits 0 to 6 of IFR are the
-- flags, bit 7 says that one of them is set.
pub mod Flags
mod Steps
pub mod Sound
pub mod Acknowledge
