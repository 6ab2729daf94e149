-- ===== src/SiteConfig.antt =====
-- The parameters of a module, common/site_config.c.
pub mod Text
pub mod Config
pub mod Validate
pub mod Save
pub mod Laws
