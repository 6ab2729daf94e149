-- ===== src/Dns.antt =====
-- Name resolution, dns/dns_resolve.c and dns/doh_resolve.c.
pub mod Query
pub mod Answer
pub mod Transport
pub mod Ranges
