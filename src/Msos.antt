-- ===== src/Msos.antt =====
-- Microsoft OS descriptors, WebUSB and the BOS descriptor of src/usbip_device.c.
pub mod State
pub mod Emit
pub mod Sizes
pub mod Scope
pub mod Advertise
mod Tests
