-- ===== src/Dm.antt =====
-- The package dmcontext: what a device driver works with.
pub mod Expression
pub mod Report
pub mod Context
pub mod Observer
pub mod Request
pub mod Serve
pub mod Send
pub mod Format
mod Samples
