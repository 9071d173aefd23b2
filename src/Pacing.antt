-- ===== src/Pacing.antt =====
-- Isochronous pacing (src/usbip_device.c).
pub mod State
pub mod Order
mod Tests
