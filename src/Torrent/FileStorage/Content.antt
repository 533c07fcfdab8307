-- ===== src/Torrent/FileStorage/Content.antt =====
-- torrent/file.go: the operations of a storage that read or write its file, and what it reports of
-- the whole content.
use mole_swarm.Base.{
  ℕ, ◌+◌, ◌%◌, ◌^◌, Bool, false, not, ◌&&◌, Option, none, some, List, [], ◌∷◌, map, ltb, ◌==◌,
  if◌then◌else◌, length, get_elem?, replicate, Result, ok, err, ◌>>=◌, ◌>>◌, fail_if,
}
use mole_swarm.Base.Bytes.{Bytes}
use mole_swarm.Protocol.Message.{BlockRequest}
use mole_swarm.Protocol.Metainfo.{Info, verify_piece}
use mole_swarm.Torrent.Piece.{
  Piece, TorrentError, new_piece, mark_existing_complete, is_complete, invalid_block, invalid_piece,
  piece_hash_mismatch, file_not_open, negative_length, bad_piece_length, zero_block_length,
  wrong_piece_count, read_failed, write_failed, short_write, unexpected_eof, bytes_of,
}
use mole_swarm.Torrent.Bitfield.{bitfield_of}
use mole_swarm.Torrent.FileStorage.{
  Disk, FileStorage, FinalizeJob, FinalizeResult, nat_of, is_negative, fits_wire, expected_count,
  same_request, or_fail, piece_at, piece_offset, piece_length, block_request,
}

-- The result that a failed job ends with.
abbrev pub failed : FinalizeJob → Option Bytes → TorrentError → FinalizeResult
failed job buffer e = record {
  piece_index = job.piece_index;
  generation = job.generation;
  buffer = buffer;
  failure = some e;
}

-- The outcome of a write, as a result.
abbrev pub written : FinalizeJob → Option ℕ → FinalizeResult
written job none = failed job (some job.buffer) write_failed
written job (some n) =
    if not (n == length job.buffer) then failed job (some job.buffer) short_write else record {
      piece_index = job.piece_index;
      generation = job.generation;
      buffer = none;
      failure = none;
    }

abbrev pub piece_is_complete : Option Piece → Bool
piece_is_complete none = false
piece_is_complete (some p) = is_complete p

module _ (sha1 : Bytes → Bytes) {disk : Disk} where
  -- A piece whose bytes the file already has, at an offset.
  unfoldable pub recheck_piece :
      FileStorage disk → ℕ → ℕ → ℕ → ℕ → Piece → Result TorrentError Piece
  unfolding verify_piece mark_existing_complete
  recheck_piece fs existing index offset len p =
      if ltb existing (offset + len)
      then ok p
      else or_fail (disk.read_at fs.file offset len) read_failed >>= λ bytes.
          if (length bytes == len)
            && verify_piece sha1 bytes (bytes_of (get_elem? fs.info.piece_hashes index))
          then ok (mark_existing_complete p)
          else ok p

  -- The loop over the pieces from `index` on.
  unfoldable pub recheck_pieces :
      FileStorage disk → ℕ → ℕ → List Piece → Result TorrentError (List Piece)
  unfolding recheck_piece piece_offset piece_length
  recheck_pieces fs existing index [] = ok []
  recheck_pieces fs existing index (p ∷ ps) = do
    offset ← piece_offset fs (index % 2 ^ 32)
    len ← piece_length fs (index % 2 ^ 32)
    q ← recheck_piece fs existing index offset len p
    qs ← recheck_pieces fs existing (index + 1) ps
    ok (q ∷ qs)

  unfoldable pub recheck : FileStorage disk → ℕ → Result TorrentError (FileStorage disk)
  unfolding recheck_pieces
  recheck fs existing =
      recheck_pieces fs existing 0 fs.pieces >>= λ pieces. ok (record fs { pieces = pieces })

  unfoldable pub new_file_storage :
      Option disk.File → Info → ℕ → Result TorrentError (FileStorage disk)
  unfolding recheck expected_count
  new_file_storage opened info block_length = do
    file ← or_fail opened file_not_open
    fail_if (is_negative info.len) negative_length
    fail_if (not (fits_wire info.piece_length)) bad_piece_length
    fail_if (block_length == 0) zero_block_length
    let count = expected_count (nat_of info.len) (nat_of info.piece_length)
    fail_if (not (length info.piece_hashes == count)) wrong_piece_count
    size ← or_fail (disk.size file) read_failed
    recheck
        (record {
          file = file;
          info = info;
          block_length = block_length;
          pieces = replicate count new_piece;
        })
        size

  unfoldable pub verify_and_write_piece :
      FileStorage disk → FinalizeJob → FinalizeResult × disk.File
  unfolding piece_length piece_offset verify_piece
  verify_and_write_piece fs job = elim (piece_length fs job.piece_index) [
    | err e ↦ (failed job (some job.buffer) invalid_piece, fs.file)
    | ok len ↦
        if not (length job.buffer % 2 ^ 32 == len)
        then (failed job (some job.buffer) invalid_piece, fs.file)
        else if not (
            verify_piece sha1 job.buffer
              (bytes_of (get_elem? fs.info.piece_hashes job.piece_index)))
        then (failed job none piece_hash_mismatch, fs.file)
        else elim (piece_offset fs job.piece_index) [
          | err e ↦ (failed job (some job.buffer) e, fs.file)
          | ok offset ↦
              let (file, n) = disk.write_at_file fs.file job.buffer offset in (written job n, file)
        ]
  ]

module _ {disk : Disk} where
  unfoldable pub read_block : FileStorage disk → BlockRequest → Result TorrentError Bytes
  unfolding piece_at block_request piece_offset is_complete
  read_block fs request = do
    p ← or_fail (piece_at fs request.piece_index) invalid_piece
    fail_if (not (is_complete p)) invalid_piece
    expected ← block_request fs request.piece_index request.begin
    fail_if (not (same_request request expected)) invalid_block
    offset ← piece_offset fs request.piece_index
    bytes ← or_fail (disk.read_at fs.file (offset + request.begin) request.len) read_failed
    fail_if (not (length bytes == request.len)) unexpected_eof
    ok bytes

  -- The loop over the pieces from `index` on; a length that fails is the panic of the source.
  unfoldable pub sum_left : FileStorage disk → ℕ → List Piece → Result TorrentError ℕ
  unfolding piece_length is_complete
  sum_left fs index [] = ok 0
  sum_left fs index (p ∷ ps) =
      let rest = sum_left fs (index + 1) ps in
      if is_complete p
      then rest
      else piece_length fs (index % 2 ^ 32) >>= λ len. rest >>= λ left. ok ((len + left) % 2 ^ 64)

  unfoldable pub bytes_left : FileStorage disk → Result TorrentError ℕ
  unfolding sum_left
  bytes_left fs = sum_left fs 0 fs.pieces

  unfoldable pub complete : FileStorage disk → Result TorrentError Bool
  unfolding bytes_left
  complete fs = bytes_left fs >>= λ left. ok (left == 0)

  unfoldable pub bitfield : FileStorage disk → Bytes
  unfolding bitfield_of
  bitfield fs = bitfield_of (map is_complete fs.pieces)
