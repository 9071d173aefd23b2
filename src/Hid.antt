-- ===== src/Hid.antt =====
-- The HID class, src/classes/device/hid.c.
pub mod State
pub mod Interval
pub mod Echo
mod Tests
