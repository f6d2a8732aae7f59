-- ===== src/Crtc.antt =====
-- libs/hardware/6845_CRTC: the video controller (include/6845_crtc.h, src/6845_crtc.cpp).
pub mod State
pub mod Registers
pub mod Address
pub mod Scan
pub mod Frame
pub mod Calls
pub mod Bounds
pub mod Words
pub mod Position
pub mod Row
pub mod Rows
pub mod Shown
mod Examples
