-- ===== src/Torrent/FileStorage/Changes.antt =====
-- torrent/file.go: what a block that is accepted changes.
use mole_swarm.Base.{
  ℕ, ◌+◌, ◌-◌, ◌≤◌, ◌<◌, ◌≡◌, ◌≢◌, ◌⊎◌, refl, Bool, some, if◌then◌else◌, length, get_elem?,
  get_elem?-set_ne, ok,
}
use mole_swarm.Base.Bytes.{Bytes}
use mole_swarm.Protocol.Message.{BlockRequest}
use mole_swarm.Torrent.Piece.{
  Piece, TorrentError, missing, receiving, assembled, finalizing, complete, bytes_of, is_nil,
  all_blocks_received, request_length_for, is_stale, mark_complete, reject, restore,
  piece_hash_mismatch,
}
use mole_swarm.Torrent.Piece
use mole_swarm.Torrent.FileStorage.{Disk, FileStorage, with_piece, block_request}

-- A block is written into a piece in progress, and the piece is assembled with its last block.
pub record Stores (p : Piece) (begin : ℕ) (block : Bytes) (q : Piece) (done : Bool) : Type 0 where
  pub content : Bytes
  pub buffer : q.buffer ≡ some content
  pub in_progress : p.state ≡ receiving
  pub inside :
      (j : ℕ)
      → begin ≤ j
      → j < begin + length block
      → get_elem? content j ≡ get_elem? block (j - begin)
  pub outside :
      (j : ℕ)
      → (j < begin) ⊎ (begin + length block ≤ j)
      → get_elem? content j ≡ get_elem? (bytes_of p.buffer) j
  pub finished : q.state ≡ (if done then assembled else receiving)

-- The file is the same, and so are all pieces but one.
pub record IsUntouched {disk : Disk} (index : ℕ) (before after : FileStorage disk) : Type 0 where
  pub same_file : after.file ≡ before.file
  pub same_pieces : (j : ℕ) → index ≢ j → get_elem? after.pieces j ≡ get_elem? before.pieces j

pub with_piece-IsUntouched :
    {disk : Disk} (fs : FileStorage disk) (index : ℕ) (p : Piece)
    → IsUntouched index fs (with_piece fs index p)
with_piece-IsUntouched fs index p = record {
  same_file = refl;
  same_pieces = λ j apart. get_elem?-set_ne fs.pieces index j p apart;
}

-- The block that was asked for is stored in its piece, which was missing, and is prepared first, or in
-- progress; nothing else changes.
pub record Takes {disk : Disk} (fs : FileStorage disk) (request : BlockRequest) (block : Bytes)
    (done : Bool) (after : FileStorage disk) : Type 0 where
  pub before : Piece
  pub prepared : Piece
  pub next : Piece
  pub found : get_elem? fs.pieces request.piece_index ≡ some before
  pub ready : ((before.state ≡ receiving) × (prepared ≡ before)) ⊎ (before.state ≡ missing)
  pub asked : block_request fs request.piece_index request.begin ≡ ok request
  pub size : length block ≡ request.len
  pub stored : Stores prepared request.begin block next done
  pub placed : get_elem? after.pieces request.piece_index ≡ some next
  pub others : IsUntouched request.piece_index fs after
