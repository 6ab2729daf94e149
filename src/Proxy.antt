-- ===== src/Proxy.antt =====
-- The DNS proxy, proxy/proxy.c.
pub mod Hosts
pub mod Answer
