-- ===== src/Utils.antt =====
-- The helpers of utils.
pub mod Cert
pub mod Regexp
pub mod Validate
mod Samples
