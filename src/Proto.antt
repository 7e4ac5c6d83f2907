-- ===== src/Proto.antt =====
-- The messages of proto/*.proto as the generated Go code declares them.
pub mod Jobs
pub mod Peers
pub mod Message
pub mod Codec
