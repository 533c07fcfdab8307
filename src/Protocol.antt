-- ===== src/Protocol.antt =====
-- The package `protocol`: wire messages, the handshake, bencoding and metainfo.
pub mod Message
pub mod Handshake
pub mod Bencode
pub mod Metainfo
