-- ===== src/Session.antt =====
-- A connection from end to end: the serve loop of src/usbip.c, and the transfers of
-- src/usbip_host.c over it.
pub mod State
pub mod Host
pub mod BulkIn
pub mod EndToEnd
mod Tests
