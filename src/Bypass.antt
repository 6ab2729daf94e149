-- ===== src/Bypass.antt =====
-- The bypass of a site, common/site_bypass.c.
pub mod Pins
pub mod Reply
pub mod PinFile
pub mod Choose
pub mod Start
