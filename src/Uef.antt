-- ===== src/Uef.antt =====
-- libs/uef: the blocks of Acorn's filing system on a tape, and their checksums.
pub mod Crc
pub mod Block
pub mod Tape
mod Examples
