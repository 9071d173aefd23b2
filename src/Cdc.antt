-- ===== src/Cdc.antt =====
-- The CDC ACM class, src/classes/device/cdc_acm.c.
pub mod State
pub mod Laws
mod Tests
