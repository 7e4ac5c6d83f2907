-- ===== src/Server/Safety.antt =====
-- A lock that is in force, over the main loop: `Handle` of handlers.go and `Loop` of server.go.
pub mod Held
pub mod Requests
pub mod Lease
