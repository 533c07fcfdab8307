-- ===== src/Torrent/PieceSet/Content.antt =====
-- torrent/pieces.go: the operations of `PieceSet` that read or write the torrent's file.
use mole_swarm.Base.{
  ℕ, ◌+◌, ◌%◌, ◌^◌, true, not, Option, none, some, List, [], ◌∷◌, leb, ◌==◌, if◌then◌else◌, length,
  get_elem?, Result, ok, err, ◌>>=◌, ◌>>◌, fail_if,
}
use mole_swarm.Base.Bytes.{Bytes}
use mole_swarm.Protocol.Message.{BlockRequest}
use mole_swarm.Protocol.Metainfo.{verify_piece}
use mole_swarm.Torrent.Piece.{
  TorrentError, invalid_block, invalid_piece, piece_hash_mismatch, file_not_open, read_failed,
  write_failed, short_write, unexpected_eof, piece_unavailable, incomplete_piece, index_panic,
  bytes_of,
}
use mole_swarm.Torrent.FileStorage.{Disk, same_request, or_fail}
use mole_swarm.Torrent.PieceSet.{
  PieceData, PieceSet, with_state, is_complete, piece_offset, piece_length, block_request,
  all_blocks_received,
}

abbrev pub complete_data : PieceData
complete_data = record { complete = true; content = none; received = [] }

module _ (sha1 : Bytes → Bytes) (disk : Disk) where
  -- The end of `VerifyAndWrite`: the file after the write, and whether all bytes were written.
  unfoldable pub write_piece :
      PieceSet
      → ℕ
      → PieceData
      → ℕ
      → disk.File
      → Result TorrentError (Unit {0}) × PieceSet × disk.File
  write_piece ps index p offset file =
      let (after, written) = disk.write_at_file file (bytes_of p.content) offset in
      elim written [
        | none ↦ (err write_failed, ps, after)
        | some n ↦
            if not (n == length (bytes_of p.content))
            then (err short_write, ps, after)
            else (ok tt, with_state ps index complete_data, after)
      ]

  unfoldable pub verify_and_write_state :
      PieceSet → ℕ → PieceData → disk.File → Result TorrentError (Unit {0}) × PieceSet × disk.File
  unfolding all_blocks_received verify_piece piece_offset write_piece
  verify_and_write_state ps index p file =
      if not (all_blocks_received p)
      then (err incomplete_piece, ps, file)
      else if not
          (verify_piece sha1 (bytes_of p.content) (bytes_of (get_elem? ps.info.piece_hashes index)))
      then (
        err piece_hash_mismatch,
        with_state ps index (record p { content = none; received = [] }),
        file,
      )
      else elim (piece_offset ps index) [
        | err e ↦ (err e, ps, file)
        | ok offset ↦ write_piece ps index p offset file
      ]

  -- For a file that is open.
  unfoldable pub verify_and_write :
      PieceSet → ℕ → disk.File → Result TorrentError (Unit {0}) × PieceSet × disk.File
  unfolding verify_and_write_state
  verify_and_write ps index file =
      if leb (length ps.states % 2 ^ 32) index
      then (err invalid_piece, ps, file)
      else elim (get_elem? ps.states index) [
        | none ↦ (err index_panic, ps, file)
        | some p ↦ verify_and_write_state ps index p file
      ]

  -- One piece of `VerifyExisting`.
  unfoldable pub verify_state : PieceSet → disk.File → ℕ → PieceData → Result TorrentError PieceData
  unfolding piece_length piece_offset verify_piece
  verify_state ps file index p = do
    len ← piece_length ps (index % 2 ^ 32)
    offset ← piece_offset ps (index % 2 ^ 32)
    bytes ← or_fail (disk.read_at file offset len) read_failed
    fail_if (not (length bytes == len)) unexpected_eof
    fail_if
        (not (verify_piece sha1 bytes (bytes_of (get_elem? ps.info.piece_hashes (index % 2 ^ 32)))))
        piece_hash_mismatch
    ok (record p { complete = true })

  -- The loop over the pieces from `index` on. `OpenSeed` drops the set if this fails.
  unfoldable pub verify_states :
      PieceSet → disk.File → ℕ → List PieceData → Result TorrentError (List PieceData)
  unfolding verify_state
  verify_states ps file index [] = ok []
  verify_states ps file index (p ∷ states) = do
    q ← verify_state ps file index p
    rest ← verify_states ps file (index + 1) states
    ok (q ∷ rest)

  unfoldable pub verify_existing : PieceSet → Option disk.File → Result TorrentError PieceSet
  unfolding verify_states
  verify_existing ps opened = do
    file ← or_fail opened file_not_open
    states ← verify_states ps file 0 ps.states
    ok (record ps { states = states })

module _ (disk : Disk) where
  unfoldable pub read_block : PieceSet → BlockRequest → Option disk.File → Result TorrentError Bytes
  unfolding is_complete block_request piece_offset
  read_block ps request opened = do
    file ← or_fail opened file_not_open
    fail_if (not (is_complete ps request.piece_index)) piece_unavailable
    expected ← block_request ps request.piece_index request.begin
    fail_if (not (same_request request expected)) invalid_block
    offset ← piece_offset ps request.piece_index
    bytes ← or_fail (disk.read_at file (offset + request.begin) request.len) read_failed
    fail_if (not (length bytes == request.len)) unexpected_eof
    ok bytes
