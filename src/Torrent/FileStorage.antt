-- ===== src/Torrent/FileStorage.antt =====
-- torrent/file.go: the pieces of a torrent and the file that holds their bytes. The operating system's
-- file is the parameter `Disk`, `sha1.Sum` the parameter `sha1`; the goroutine that owns a storage
-- passes its state on from call to call.
pub mod Content
pub mod Layout
pub mod Verified
pub mod Served
pub mod Finalize
pub mod Changes
pub mod Settled
mod Tests
use mole_swarm.Base.{
  ℕ, zero, suc, ◌+◌, ◌-◌, ◌*◌, ◌/◌, ◌%◌, ◌^◌, ◌≤◌, Bool, true, false, not, ◌&&◌, ◌||◌, Option, none,
  some, List, [], ◌∷◌, map, ltb, leb, ◌==◌, if◌then◌else◌, length, get_elem?, set, replicate,
  Result, ok, err, ◌>>=◌, ◌>>◌, fail_if,
}
use mole_swarm.Base.Bytes.{Bytes}
use mole_swarm.Base.Int.{ℤ, pos, negsuc}
use mole_swarm.Protocol.Message.{BlockRequest}
use mole_swarm.Protocol.Metainfo.{Info, verify_piece}
use mole_swarm.Torrent.Piece.{
  Piece, PieceState, TorrentError, missing, receiving, new_piece, request_length_for, prepare,
  take_for_finalization, mark_complete, reject, restore, mark_existing_complete, is_complete,
  is_state, piece_invalid_state, invalid_block, invalid_piece, piece_hash_mismatch, file_not_open,
  negative_length, bad_piece_length, zero_block_length, wrong_piece_count, read_failed,
  write_failed, short_write, unexpected_eof,
}
use mole_swarm.Torrent.Piece
use mole_swarm.Torrent.Bitfield.{bitfield_of}

-- A file: its size; the bytes that `ReadAt` finds, fewer at the end of the file; what
-- `WriteAt` leaves, with the number of bytes it wrote. `none` is an error other than the end of the file.
pub record Disk : Type 1 where
  pub File : Type 0
  pub size : File → Option ℕ
  pub read_at : File → ℕ → ℕ → Option Bytes
  pub write_at_file : File → Bytes → ℕ → File × Option ℕ

-- An `int64` that has been checked not to be negative.
abbrev pub nat_of : ℤ → ℕ
nat_of (pos n) = n
nat_of (negsuc n) = 0

abbrev pub is_negative : ℤ → Bool
is_negative (pos n) = false
is_negative (negsuc n) = true

-- `info.PieceLength <= 0 || info.PieceLength > int64(^uint32(0))`
abbrev pub fits_wire : ℤ → Bool
fits_wire n = not (is_negative n || nat_of n == 0) && ltb (nat_of n) (2 ^ 32)

unfoldable pub expected_count : ℕ → ℕ → ℕ
expected_count total piece_length = if total == 0 then 0 else (total - 1) / piece_length + 1

abbrev pub same_request : BlockRequest → BlockRequest → Bool
same_request a b = (a.piece_index == b.piece_index) && (a.begin == b.begin) && (a.len == b.len)

abbrev pub or_fail {ℓ} : {A : Type ℓ} → Option A → TorrentError → Result TorrentError A
or_fail none e = err e
or_fail (some a) e = ok a

-- The part of the content that is left from an offset on, at most a piece's length.
abbrev pub length_from : ℕ → ℕ → ℕ → Result TorrentError ℕ
length_from total piece_length offset =
    if leb total offset
    then err invalid_piece
    else if ltb (total - offset) piece_length
    then ok ((total - offset) % 2 ^ 32)
    else ok (piece_length % 2 ^ 32)

unfoldable pub completed_count : List Piece → ℕ
completed_count [] = 0
completed_count (p ∷ ps) = let rest = completed_count ps in if is_complete p then rest + 1 else rest

pub record FinalizeJob : Type 0 where
  pub piece_index : ℕ
  pub generation : ℕ
  pub buffer : Bytes

pub record FinalizeResult : Type 0 where
  pub piece_index : ℕ
  pub generation : ℕ
  pub buffer : Option Bytes
  pub failure : Option TorrentError

pub record FileStorage (disk : Disk) : Type 0 where
  pub file : disk.File
  pub info : Info
  pub block_length : ℕ
  pub pieces : List Piece

-- The operation on the piece, by the kind of the failure.
unfoldable pub settle : Piece → FinalizeResult → Option TorrentError → Piece × Bool
unfolding mark_complete reject restore
settle p result none = mark_complete p result.generation
settle p result (some piece_hash_mismatch) = reject p result.generation
settle p result (some _) = restore p result.generation result.buffer

module _ {disk : Disk} where
  unfoldable pub piece_at : FileStorage disk → ℕ → Option Piece
  piece_at fs index =
      if leb (length fs.pieces % 2 ^ 32) index then none else get_elem? fs.pieces index

  abbrev pub with_piece : FileStorage disk → ℕ → Piece → FileStorage disk
  with_piece fs index p = record fs { pieces = set fs.pieces index p }

  unfoldable pub piece_offset : FileStorage disk → ℕ → Result TorrentError ℕ
  unfolding piece_at
  piece_offset fs index =
      or_fail (piece_at fs index) invalid_piece >>= λ p. ok (index * nat_of fs.info.piece_length)

  unfoldable pub piece_length : FileStorage disk → ℕ → Result TorrentError ℕ
  unfolding piece_offset
  piece_length fs index = do
    offset ← piece_offset fs index
    length_from (nat_of fs.info.len) (nat_of fs.info.piece_length) offset

  unfoldable pub block_request : FileStorage disk → ℕ → ℕ → Result TorrentError BlockRequest
  unfolding piece_length
  block_request fs index begin = do
    fail_if (not (begin % fs.block_length == 0)) invalid_block
    len ← piece_length fs index
    fail_if (request_length_for len begin fs.block_length == 0) invalid_block
    ok (record {
      piece_index = index;
      begin = begin;
      len = request_length_for len begin fs.block_length;
    })

  -- A missing piece is prepared for its blocks.
  unfoldable pub prepare_missing : FileStorage disk → ℕ → Piece → Result TorrentError Piece
  unfolding piece_length prepare
  prepare_missing fs index p = elim (is_state p.state missing) [
    | false ↦ ok p
    | true ↦ piece_length fs index >>= λ len. prepare p len fs.block_length
  ]

  -- The loop over the flags from a block's index on.
  unfoldable pub first_missing :
      FileStorage disk
      → ℕ
      → (BlockRequest → Bool)
      → List Bool
      → ℕ
      → Result TorrentError (Option BlockRequest)
  unfolding block_request
  first_missing fs index is_pending [] i = ok none
  first_missing fs index is_pending (true ∷ flags) i =
      first_missing fs index is_pending flags (i + 1)
  first_missing fs index is_pending (false ∷ flags) i =
      let rest = first_missing fs index is_pending flags (i + 1) in
      block_request fs index (i * fs.block_length % 2 ^ 32) >>= λ request.
      if not (is_pending request) then ok (some request) else rest

  -- A nil `isPending` is the test that is never true.
  unfoldable pub next_missing_block :
      FileStorage disk
      → ℕ
      → (BlockRequest → Bool)
      → Result TorrentError (Option BlockRequest × FileStorage disk)
  unfolding prepare_missing first_missing piece_at
  next_missing_block fs index is_pending = do
    p ← or_fail (piece_at fs index) invalid_piece
    q ← prepare_missing fs index p
    let next = with_piece fs index q
    elim (is_state q.state receiving) [
      | false ↦ ok (none, next)
      | true ↦
          first_missing next index is_pending q.received_blocks 0 >>= λ request. ok (request, next)
    ]

  -- The piece is changed only if the block is accepted: a piece that has just been prepared refuses
  -- none of the blocks that get this far.
  unfoldable pub accept_block :
      FileStorage disk → BlockRequest → Bytes → Result TorrentError (Bool × FileStorage disk)
  unfolding block_request piece_at prepare_missing Piece.accept_block
  accept_block fs request bytes = do
    expected ← block_request fs request.piece_index request.begin
    fail_if (not (same_request request expected) || not (length bytes % 2 ^ 32 == request.len))
        invalid_block
    p ← or_fail (piece_at fs request.piece_index) invalid_piece
    q ← prepare_missing fs request.piece_index p
    stored ← Piece.accept_block q request.begin bytes fs.block_length
    ok (stored.1, with_piece fs request.piece_index stored.0)

  unfoldable pub take_finalize_job :
      FileStorage disk → ℕ → Result TorrentError (FinalizeJob × FileStorage disk)
  unfolding piece_at take_for_finalization
  take_finalize_job fs index = do
    p ← or_fail (piece_at fs index) invalid_piece
    taken ← take_for_finalization p
    ok (
      record { piece_index = index; generation = taken.1; buffer = taken.0 },
      with_piece fs index taken.2,
    )

  -- An operation that reports whether it changed the piece.
  abbrev pub update : FileStorage disk → ℕ → Piece × Bool → FileStorage disk × Bool
  update fs index (p, changed) = (with_piece fs index p, changed)

  -- A result for the piece that was found.
  unfoldable pub apply_to :
      FileStorage disk → FinalizeResult → Option Piece → FileStorage disk × Bool
  unfolding settle
  apply_to fs result none = (fs, false)
  apply_to fs result (some p) = update fs result.piece_index (settle p result result.failure)

  unfoldable pub apply_finalize_result : FileStorage disk → FinalizeResult → FileStorage disk × Bool
  unfolding piece_at apply_to
  apply_finalize_result fs result = apply_to fs result (piece_at fs result.piece_index)
