-- ===== src/Wire.antt =====
-- The USB/IP wire format of src/usbip.c: the 48-byte headers, the isochronous descriptors, and the
-- reader of commands. A connection is read as the stream of the bytes that arrive on it, by
-- `readn`, whose promise over any socket is in Net/Laws.antt.
pub mod Stream
pub mod Header
pub mod Command
pub mod Reply
pub mod HeaderLaws
pub mod RoundTrip
pub mod IsoRoundTrip
pub mod ReplyLaws
mod Tests
