-- ===== src/Mqtt.antt =====
-- mqtt: topics, packet ids, and the client that reconnects.
pub mod Topic
pub mod Counter
pub mod Options
pub mod Packet
pub mod Stream
pub mod Client
mod Samples
