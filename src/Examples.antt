-- ===== src/Examples.antt =====
-- Runs of the program on concrete inputs.
pub mod Sni
pub mod Desync
pub mod Files
pub mod Network
pub mod Netfilter
pub mod Bypass
pub mod Plain
pub mod Proxy
pub mod Claims
pub mod Relay
