-- ===== src/Dfu.antt =====
-- The DFU 1.1 class, src/classes/device/dfu.c.
pub mod State
pub mod Laws
pub mod Download
mod Tests
