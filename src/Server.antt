-- ===== src/Server.antt =====
-- internal/server: what its handlers decide.
pub mod Authorization
pub mod Gate
