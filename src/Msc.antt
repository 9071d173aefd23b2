-- ===== src/Msc.antt =====
-- The mass storage class, src/classes/device/msc.c: Bulk-Only Transport and SCSI.
pub mod State
pub mod Replies
pub mod Dispatch
pub mod Answers
pub mod Invariant
pub mod Safety
pub mod Transfer
pub mod Commands
pub mod Sense
pub mod Refusal
pub mod Sizes
pub mod Transport
mod Tests
