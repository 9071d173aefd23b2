-- ===== src/Build.antt =====
-- Building a device from descriptors (src/usbip_device.c).
pub mod State
pub mod Conflicts
mod Tests
