-- ===== src/Server.antt =====
-- src/server: the room server.
pub mod Wait
