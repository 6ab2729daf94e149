-- ===== src/Sni.antt =====
-- The SNI relay, common/sni_relay.c.
pub mod Hello
pub mod Safe
pub mod Shift
pub mod Fragment
pub mod Upstream
pub mod Name
pub mod Splice
pub mod Connection
