-- ===== src/Ctx.antt =====
-- context: the environment of a service and its context.
pub mod Env
pub mod Config
pub mod Service
pub mod Complete
mod Samples
