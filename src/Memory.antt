-- ===== src/Memory.antt =====
-- libs/hardware/DRAM/src/dram.cpp and libs/hardware/ROM/src/rom.cpp: the memories that answer a range
-- of addresses. A vector is a list, and what `at` throws out of its range is `none`.
pub mod Dram
pub mod Rom
pub mod Load
pub mod Tick
pub mod Reads
mod Examples
