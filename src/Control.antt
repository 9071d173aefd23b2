-- ===== src/Control.antt =====
-- Control requests at endpoint 0 (src/usbip_device.c).
pub mod Describe
pub mod State
pub mod Laws
mod Tests
