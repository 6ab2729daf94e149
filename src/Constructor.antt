-- ===== src/Constructor.antt =====
-- The validator of the web constructor, constructor/validate.c.
pub mod Json
pub mod Split
pub mod Agree
pub mod Report
pub mod Verdict
pub mod Resolved
