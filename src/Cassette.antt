-- ===== src/Cassette.antt =====
-- libs/hardware/Cassette: a tape as a stream of bits.
pub mod Stream
pub mod Play
pub mod Record
pub mod Port
mod Examples
