-- ===== src/Capture.antt =====
-- Capture files (src/pcap.c).
pub mod Blocks
pub mod Framing
mod Tests
