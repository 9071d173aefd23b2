-- ===== src/Server.antt =====
-- The exporter's listener of src/usbip.c: the devices it serves, the device record that it packs,
-- the handshake by which an importer lists them and picks one, and plugging and unplugging.
pub mod Record
pub mod RecordLaws
pub mod Handshake
pub mod HandshakeLaws
pub mod ListLaws
pub mod Registry
pub mod RegistryLaws
mod Tests
