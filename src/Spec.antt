-- ===== src/Spec.antt =====
-- spec/v1: the data that the node and the cloud exchange.
pub mod Value
pub mod Merge
pub mod Delta
pub mod Infos
pub mod Stats
mod Samples
