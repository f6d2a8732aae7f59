-- ===== src/Cpu.antt =====
-- libs/hardware/M6502: the 6502 processor (include/6502/m6502.h, src/m6502.cpp,
-- src/cycle_handler.cpp, src/opcodes.cpp).
pub mod State
pub mod Alu
pub mod Cycle
pub mod Table
pub mod Tick
pub mod Ready
pub mod Machine
mod Examples
