-- ===== src/Task.antt =====
-- The package task: a queue of tasks, a worker that runs them, and the table of their results.
pub mod Message
pub mod Worker
mod Samples
