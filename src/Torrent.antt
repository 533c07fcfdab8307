-- ===== src/Torrent.antt =====
-- The package `torrent`: pieces, their storage, peers and transfers.
pub mod Piece
pub mod Bitfield
pub mod FileStorage
pub mod PieceSet
pub mod Session
