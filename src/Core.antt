-- ===== src/Core.antt =====
-- libs/core: the bus, the clock and the data connectors.
pub mod Bus
pub mod Clock
pub mod Connectors
mod Examples
