-- ===== src/Http.antt =====
-- http: the options of a client.
pub mod Options
