-- ===== src/Plain.antt =====
-- The plain relay, common/plain_relay.c.
pub mod Pump
pub mod Children
