-- ===== src/Endpoint.antt =====
-- The data path of one endpoint in src/usbip_device.c: queues of data, parked IN URBs, halts.
pub mod State
pub mod Stream
pub mod Order
pub mod Unlink
mod Tests
