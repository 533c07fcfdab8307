-- ===== src/Torrent/PieceSet.antt =====
-- torrent/pieces.go: `PieceSet`, the pieces of a running session. An index out of a slice's bounds,
-- which panics, is the error `index_panic`; a method that can fail after a change returns the set beside its result.
pub mod Content
pub mod WellFormed
pub mod Open
pub mod Stored
pub mod Missing
pub mod Refinement
pub mod Sized
mod Tests
use mole_swarm.Base.{
  ℕ, zero, suc, ◌+◌, ◌-◌, ◌*◌, ◌/◌, ◌%◌, ◌^◌, ◌≤◌, Bool, true, false, not, ◌&&◌, ◌||◌, Option, none,
  some, List, [], ◌∷◌, ltb, leb, ◌==◌, if◌then◌else◌, length, get_elem?, set, replicate, write_at,
  Result, ok, err, ◌>>=◌, ◌>>◌, fail_if,
}
use mole_swarm.Base.Bytes.{Bytes}
use mole_swarm.Protocol.Message.{BlockRequest}
use mole_swarm.Protocol.Metainfo.{Info}
use mole_swarm.Torrent.Piece.{
  TorrentError, invalid_block, invalid_piece, negative_length, bad_piece_length, wrong_piece_count,
  already_received, index_panic, all_set, is_set, is_nil, bytes_of, is_empty, sub32,
}
use mole_swarm.Torrent.FileStorage.{
  nat_of, is_negative, fits_wire, expected_count, length_from, same_request, or_fail,
}

abbrev pub block_size : ℕ
block_size = 16384

-- `PieceState`: a nil `Data` is `none`.
pub record PieceData : Type 0 where
  pub complete : Bool
  pub content : Option Bytes
  pub received : List Bool

abbrev pub no_data : PieceData
no_data = record { complete = false; content = none; received = [] }

pub record PieceSet : Type 0 where
  pub info : Info
  pub states : List PieceData

unfoldable pub new_piece_set : Info → Result TorrentError PieceSet
unfolding expected_count
new_piece_set info = do
  fail_if (is_negative info.len) negative_length
  fail_if (not (fits_wire info.piece_length)) bad_piece_length
  let count = expected_count (nat_of info.len) (nat_of info.piece_length)
  fail_if (not (length info.piece_hashes == count)) wrong_piece_count
  ok (record { info = info; states = replicate count no_data })

abbrev pub state_is_complete : Option PieceData → Bool
state_is_complete none = false
state_is_complete (some p) = p.complete

unfoldable pub is_complete : PieceSet → ℕ → Bool
is_complete ps index =
    ltb index (length ps.states % 2 ^ 32) && state_is_complete (get_elem? ps.states index)

unfoldable pub completed_count : List PieceData → ℕ
completed_count [] = 0
completed_count (p ∷ states) =
    let rest = completed_count states in if p.complete then rest + 1 else rest

unfoldable pub piece_offset : PieceSet → ℕ → Result TorrentError ℕ
piece_offset ps index =
    if leb (length ps.states % 2 ^ 32) index
    then err invalid_piece
    else ok (index * nat_of ps.info.piece_length)

unfoldable pub piece_length : PieceSet → ℕ → Result TorrentError ℕ
unfolding piece_offset
piece_length ps index = piece_offset ps index >>= λ offset.
    length_from (nat_of ps.info.len) (nat_of ps.info.piece_length) offset

-- The loop over the pieces from `index` on; a length that fails is the panic of the source.
unfoldable pub sum_left : PieceSet → ℕ → List PieceData → Result TorrentError ℕ
unfolding piece_length
sum_left ps index [] = ok 0
sum_left ps index (p ∷ states) =
    let rest = sum_left ps (index + 1) states in
    if p.complete
    then rest
    else piece_length ps (index % 2 ^ 32) >>= λ len. rest >>= λ left. ok ((len + left) % 2 ^ 64)

unfoldable pub bytes_left : PieceSet → Result TorrentError ℕ
unfolding sum_left
bytes_left ps = sum_left ps 0 ps.states

-- `uint64(p.info.Length) - p.BytesLeft()`
unfoldable pub bytes_complete : PieceSet → Result TorrentError ℕ
unfolding bytes_left
bytes_complete ps = bytes_left ps >>= λ left. ok ((nat_of ps.info.len + 2 ^ 64 - left) % 2 ^ 64)

unfoldable pub all_complete : PieceSet → Result TorrentError Bool
unfolding bytes_left
all_complete ps = bytes_left ps >>= λ left. ok (left == 0)

unfoldable pub block_count : ℕ → ℕ
block_count piece_length = sub32 piece_length 1 / block_size + 1

unfoldable pub request_length : ℕ → ℕ → ℕ
request_length piece_length begin =
    if leb piece_length begin
    then 0
    else if ltb (piece_length - begin) block_size
    then piece_length - begin
    else block_size

unfoldable pub block_request : PieceSet → ℕ → ℕ → Result TorrentError BlockRequest
unfolding piece_length request_length
block_request ps index begin = do
  fail_if (not (begin % block_size == 0)) invalid_block
  len ← piece_length ps index
  fail_if (request_length len begin == 0) invalid_block
  ok (record { piece_index = index; begin = begin; len = request_length len begin })

-- `len(piece.Data) == 0` holds of a nil slice too.
unfoldable pub all_blocks_received : PieceData → Bool
unfolding all_set
all_blocks_received p =
    if is_empty (bytes_of p.content) || is_empty p.received then false else all_set p.received

abbrev pub with_state : PieceSet → ℕ → PieceData → PieceSet
with_state ps index p = record ps { states = set ps.states index p }

-- The piece at an index of the slice, which panics out of its bounds.
abbrev pub state_at : PieceSet → ℕ → Result TorrentError PieceData
state_at ps index = or_fail (get_elem? ps.states index) index_panic

abbrev pub fresh_data : ℕ → PieceData
fresh_data len = record {
  complete = false;
  content = some (replicate len 0);
  received = replicate (block_count len) false;
}

-- A piece that is not complete and has no data gets the data of the piece's length.
unfoldable pub prepare_state : PieceSet → ℕ → PieceData → Result TorrentError PieceSet
unfolding piece_length block_count
prepare_state ps index p =
    if not (is_nil p.content)
    then ok ps
    else piece_length ps index >>= λ len. ok (with_state ps index (fresh_data len))

unfoldable pub prepare : PieceSet → ℕ → Result TorrentError PieceSet
unfolding is_complete prepare_state
prepare ps index =
    if is_complete ps index then ok ps else (state_at ps index >>= λ p. prepare_state ps index p)

-- The loop over the flags from a block's index on.
unfoldable pub first_missing :
    PieceSet → ℕ → (BlockRequest → Bool) → List Bool → ℕ → Result TorrentError (Option BlockRequest)
unfolding block_request
first_missing ps index is_pending [] i = ok none
first_missing ps index is_pending (true ∷ flags) i = first_missing ps index is_pending flags (i + 1)
first_missing ps index is_pending (false ∷ flags) i =
    let rest = first_missing ps index is_pending flags (i + 1) in
    block_request ps index (i * block_size % 2 ^ 32) >>= λ request.
    if not (is_pending request) then ok (some request) else rest

-- The search in a set that has been prepared.
unfoldable pub find_missing :
    PieceSet → ℕ → (BlockRequest → Bool) → Result TorrentError (Option BlockRequest)
unfolding first_missing
find_missing ps index is_pending =
    state_at ps index >>= λ p. first_missing ps index is_pending p.received 0

unfoldable pub next_missing_block :
    PieceSet → ℕ → (BlockRequest → Bool) → Result TorrentError (Option BlockRequest) × PieceSet
unfolding prepare find_missing
next_missing_block ps index is_pending = elim (prepare ps index) [
  | err e ↦ (err e, ps)
  | ok prepared ↦ (find_missing prepared index is_pending, prepared)
]

-- The block is copied and its flag set.
abbrev pub filled : PieceData → ℕ → Bytes → PieceData
filled p begin bytes = record p {
  content = some (write_at (bytes_of p.content) begin bytes);
  received = set p.received (begin / block_size) true;
}

-- `copy` into a set that has been prepared, behind the test of the flag.
unfoldable pub fill_block : PieceSet → BlockRequest → Bytes → Result TorrentError Bool × PieceSet
unfolding all_blocks_received
fill_block ps request bytes = elim (get_elem? ps.states request.piece_index) [
  | none ↦ (err index_panic, ps)
  | some p ↦ elim (get_elem? p.received (request.begin / block_size)) [
    | none ↦ (err index_panic, ps)
    | some true ↦ (err already_received, ps)
    | some false ↦
        if ltb (length (bytes_of p.content)) (request.begin + length bytes)
        then (err index_panic, ps)
        else (
          ok (all_blocks_received (filled p request.begin bytes)),
          with_state ps request.piece_index (filled p request.begin bytes),
        )
  ]
]

-- The checks of `StoreBlock` before it prepares the piece.
unfoldable pub check_block : PieceSet → BlockRequest → Bytes → Result TorrentError (Unit {0})
unfolding block_request
check_block ps request bytes = do
  expected ← block_request ps request.piece_index request.begin
  fail_if (not (same_request request expected) || not (length bytes % 2 ^ 32 == request.len))
      invalid_block

unfoldable pub store_block : PieceSet → BlockRequest → Bytes → Result TorrentError Bool × PieceSet
unfolding check_block prepare fill_block
store_block ps request bytes =
    elim (check_block ps request bytes >> prepare ps request.piece_index) [
      | err e ↦ (err e, ps)
      | ok prepared ↦ fill_block prepared request bytes
    ]
