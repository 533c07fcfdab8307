-- ===== src/Torrent/FileStorage/Layout.antt =====
-- torrent/file.go: where pieces and blocks lie in the content.
use mole_swarm.Base.{
  ℕ, ◌+◌, ◌*◌, ◌%◌, ◌^◌, ◌≤◌, ◌<◌, ◌≡◌, not, arith, ◌==◌, sym, subst, >>=-eq-ok, ok, ◌>>◌, fail_if,
}
use mole_swarm.Protocol.Message.{BlockRequest}
use mole_swarm.Torrent.Piece.{invalid_block, request_length_for}
use mole_swarm.Torrent.Piece.Assembly.{IsRequest, request_length_for-IsRequest}
use mole_swarm.Torrent.FileStorage.{
  Disk, FileStorage, nat_of, piece_offset, piece_length, block_request,
}

-- A piece within the content.
pub record IsPieceRange {disk : Disk} (fs : FileStorage disk) (index len : ℕ) : Type 0 where
  pub positive : 0 < len
  pub at_most : len ≤ nat_of fs.info.piece_length
  pub within : index * nat_of fs.info.piece_length + len ≤ nat_of fs.info.len

module _ {disk : Disk} (fs : FileStorage disk) where
  -- With a piece length that is positive and below 2^32, a piece that has a length lies within the
  -- content, is not empty and is at most as long as the piece length.
  pub piece_length-IsPieceRange :
      (index len : ℕ)
      → 0 < nat_of fs.info.piece_length
      → nat_of fs.info.piece_length < 2 ^ 32
      → piece_length fs index ≡ ok len
      → IsPieceRange fs index len
  unfolding piece_length piece_offset
  piece_length-IsPieceRange index len h lt e = record {
    positive = ground arith;
    at_most = ground arith;
    within = ground arith;
  }

  -- What a request for a block asks for.
  pub record IsBlock (index begin : ℕ) (r : BlockRequest) : Type 0 where
    pub piece_len : ℕ
    pub piece_size : piece_length fs index ≡ ok piece_len
    pub same_piece : r.piece_index ≡ index
    pub same_begin : r.begin ≡ begin
    pub range : IsRequest piece_len begin fs.block_length r.len

  IsBlock-of_length :
      (index begin len : ℕ) (r : BlockRequest)
      → piece_length fs index ≡ ok len
      → (fail_if (request_length_for len begin fs.block_length == 0) invalid_block
          >> ok (record {
            piece_index = index;
            begin = begin;
            len = request_length_for len begin fs.block_length;
          }))
        ≡ ok r
      → IsBlock index begin r
  IsBlock-of_length index begin len r size e =
      let checked : (0 < request_length_for len begin fs.block_length)
          × (r.piece_index ≡ index)
          × (r.begin ≡ begin)
          × (r.len ≡ request_length_for len begin fs.block_length) =
        ground arith in
      record {
        piece_len = len;
        piece_size = size;
        same_piece = checked.1;
        same_begin = checked.2;
        range =
            subst (IsRequest len begin fs.block_length) (sym checked.3)
              (request_length_for-IsRequest len begin fs.block_length checked.0);
      }

  -- A request that is built names the piece and offset that it was built for, is not empty, and
  -- ends within the piece, at the end of the block or of the piece.
  pub block_request-IsBlock :
      (index begin : ℕ) (r : BlockRequest)
      → block_request fs index begin ≡ ok r
      → IsBlock index begin r
  unfolding block_request
  block_request-IsBlock index begin r e =
      let (u, aligned, rest) =
        >>=-eq-ok (fail_if (not (begin % fs.block_length == 0)) invalid_block) _ e in
      let (len, size, made) = >>=-eq-ok (piece_length fs index) _ rest in
      IsBlock-of_length index begin len r size made
