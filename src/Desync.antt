-- ===== src/Desync.antt =====
-- The packet layer, desync/desync.c.
pub mod Checksum
pub mod Hello
pub mod Peers
pub mod Packet
pub mod Service
