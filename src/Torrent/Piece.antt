-- ===== src/Torrent/Piece.antt =====
-- torrent/piece.go: the in-memory state of one piece. A nil buffer is `none`; `uint32` and `uint64`
-- arithmetic keeps its wrap-around.
pub mod Assembly
pub mod Delivery
pub mod States
mod Tests
use mole_swarm.Base.{
  ℕ, suc, ◌+◌, ◌-◌, ◌/◌, ◌%◌, ◌^◌, ◌≡◌, Bool, true, false, not, ◌&&◌, ◌||◌, Option, none, some,
  List, [], ◌∷◌, ltb, leb, ◌==◌, if◌then◌else◌, length, get_elem?, set, replicate, write_at, Result,
  ok, err, ◌>>=◌, ◌>>◌, fail_if,
}
use mole_swarm.Base.Bytes.{Bytes}

pub data PieceState : Type 0 where
  missing receiving assembled finalizing complete : PieceState

pub data TorrentError : Type 0 where
  piece_invalid_state invalid_block invalid_piece piece_hash_mismatch : TorrentError
  file_not_open negative_length bad_piece_length zero_block_length wrong_piece_count : TorrentError
  read_failed write_failed short_write unexpected_eof piece_unavailable : TorrentError
  already_received incomplete_piece index_panic : TorrentError
  peer_write_queue_full unexpected_block nil_peer peer_limit_reached peer_already_active
        out_of_fuel :
      TorrentError
  already_running not_running wrong_protocol wrong_info_hash own_peer_id : TorrentError
  close_failed dial_failed short_handshake announce_failed cancelled : TorrentError

pub record Piece : Type 0 where
  pub state : PieceState
  pub generation : ℕ
  pub buffer : Option Bytes
  pub received_blocks : List Bool

-- The zero value.
abbrev pub new_piece : Piece
new_piece = record { state = missing; generation = 0; buffer = none; received_blocks = [] }

abbrev pub is_state : PieceState → PieceState → Bool
is_state missing missing = true
is_state receiving receiving = true
is_state assembled assembled = true
is_state finalizing finalizing = true
is_state complete complete = true
is_state _ _ = false

abbrev pub is_nil {ℓ} : {A : Type ℓ} → Option A → Bool
is_nil none = true
is_nil (some a) = false

-- The bytes of a slice: none of the nil slice.
abbrev pub bytes_of : Option Bytes → Bytes
bytes_of none = []
bytes_of (some b) = b

abbrev pub is_empty {ℓ} : {A : Type ℓ} → List A → Bool
is_empty xs = length xs == 0

-- An element of a `[]bool` within its bounds.
abbrev pub is_set : List Bool → ℕ → Bool
is_set flags i = elim (get_elem? flags i) [ none ↦ false | some b ↦ b ]

abbrev pub sub32 : ℕ → ℕ → ℕ
sub32 a b = (a + 2 ^ 32 - b) % 2 ^ 32

unfoldable pub block_count_for : ℕ → ℕ → ℕ
block_count_for piece_length block_length = (sub32 piece_length 1 / block_length + 1) % 2 ^ 32

unfoldable pub request_length_for : ℕ → ℕ → ℕ → ℕ
request_length_for piece_length begin block_length =
    if block_length == 0 || leb piece_length begin
    then 0
    else if ltb (piece_length - begin) block_length
    then piece_length - begin
    else block_length

unfoldable pub prepare : Piece → ℕ → ℕ → Result TorrentError Piece
unfolding block_count_for
prepare p len block_length = do
  fail_if (not (is_state p.state missing) || len == 0 || block_length == 0) piece_invalid_state
  ok (record {
    state = receiving;
    generation = (p.generation + 1) % 2 ^ 64;
    buffer = some (replicate len 0);
    received_blocks = replicate (block_count_for len block_length) false;
  })

-- The loop over the flags.
unfoldable pub all_set : List Bool → Bool
all_set [] = true
all_set (b ∷ bs) = b && all_set bs

unfoldable pub all_blocks_received : Piece → Bool
all_blocks_received p =
    if not (is_state p.state receiving) || is_nil p.buffer || is_empty p.received_blocks
    then false
    else all_set p.received_blocks

-- The writes of `acceptBlock`, after its checks.
unfoldable pub store_block : Piece → ℕ → Bytes → ℕ → Piece
store_block p begin block block_length = record p {
  buffer = some (write_at (bytes_of p.buffer) begin block);
  received_blocks = set p.received_blocks (begin / block_length) true;
}

abbrev pub finish_block : Piece → Piece × Bool
finish_block q =
    if not (all_blocks_received q)
    then (q, false)
    else (record q { state = assembled; received_blocks = [] }, true)

-- A block of 2 ^ 32 bytes or more, which no message holds, would panic in the source.
unfoldable pub accept_block : Piece → ℕ → Bytes → ℕ → Result TorrentError (Piece × Bool)
accept_block p begin block block_length = do
  fail_if (not (is_state p.state receiving) || is_nil p.buffer || is_empty p.received_blocks)
      piece_invalid_state
  fail_if (block_length == 0 || not (begin % block_length == 0)) invalid_block
  let expected = request_length_for (length (bytes_of p.buffer) % 2 ^ 32) begin block_length
  fail_if (expected == 0 || not (length block % 2 ^ 32 == expected)) invalid_block
  fail_if
      (leb (length p.received_blocks) (begin / block_length)
        || is_set p.received_blocks (begin / block_length))
      invalid_block
  ok (finish_block (store_block p begin block block_length))

-- The buffer and the generation go to the caller.
unfoldable pub take_for_finalization : Piece → Result TorrentError (Bytes × ℕ × Piece)
take_for_finalization p = do
  fail_if (not (is_state p.state assembled) || is_nil p.buffer) piece_invalid_state
  ok (bytes_of p.buffer, p.generation, record p { buffer = none; state = finalizing })

abbrev pub is_stale : Piece → ℕ → Bool
is_stale p generation = not (is_state p.state finalizing) || not (p.generation == generation)

unfoldable pub mark_complete : Piece → ℕ → Piece × Bool
mark_complete p generation =
    if is_stale p generation then (p, false) else (record p { state = complete }, true)

unfoldable pub reject : Piece → ℕ → Piece × Bool
reject p generation =
    if is_stale p generation
    then (p, false)
    else (record p { state = missing; buffer = none; received_blocks = [] }, true)

unfoldable pub restore : Piece → ℕ → Option Bytes → Piece × Bool
restore p generation buffer =
    if is_stale p generation || is_nil buffer
    then (p, false)
    else (record p { state = assembled; buffer = buffer }, true)

unfoldable pub mark_existing_complete : Piece → Piece
mark_existing_complete p = record p { state = complete; buffer = none; received_blocks = [] }

unfoldable pub is_complete : Piece → Bool
is_complete p = is_state p.state complete
