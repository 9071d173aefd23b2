-- ===== src/Device.antt =====
-- A whole device behind a connection: usbip_device_dispatch of src/usbip_device.c over its endpoints.
pub mod State
pub mod Account
pub mod Ledger
pub mod Transfers
pub mod Run
pub mod Delivery
mod Tests
