-- ===== src/Netfilter.antt =====
-- The packet filter's rules, netfilter/netfilter_linux.c.
pub mod Pattern
pub mod Registry
pub mod Rules
