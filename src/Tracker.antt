-- ===== src/Tracker.antt =====
-- The package `tracker`: announce requests and responses.
pub mod Announce
pub mod Request
pub mod Server
