-- ===== src/Native.antt =====
-- The package native: the ports that native services are given and found by.
pub mod Port
pub mod Mapping
mod Samples
