-- ===== src/Protocol/Message.antt =====
-- protocol/message.go: the peer wire messages and their length-prefixed frames.
-- A reader is the bytes it has still to deliver, and a writer is the frame it is given. The error
-- `slice_panic` stands for the panic of a read beyond the end of a slice.
pub mod RoundTrip
pub mod Sound
mod Tests
use mole_swarm.Base.{
  ℕ, zero, suc, ◌+◌, ◌-◌, ◌%◌, ◌^◌, ◌≡◌, Bool, true, false, not, ◌&&◌, Option, none, some, List, [],
  ◌∷◌, ◌++◌, ltb, ◌==◌, if◌then◌else◌, length, take, drop, Result, ok, err, ◌>>=◌, ◌>>◌, fail_if,
}
use mole_swarm.Base.Bytes.{Bytes, read_full, put_uint32, uint32}

abbrev pub choke_id : ℕ
choke_id = 0

abbrev pub unchoke_id : ℕ
unchoke_id = 1

abbrev pub interested_id : ℕ
interested_id = 2

abbrev pub not_interested_id : ℕ
not_interested_id = 3

abbrev pub have_id : ℕ
have_id = 4

abbrev pub bitfield_id : ℕ
bitfield_id = 5

abbrev pub request_id : ℕ
request_id = 6

abbrev pub piece_id : ℕ
piece_id = 7

abbrev pub cancel_id : ℕ
cancel_id = 8

-- The three fields are `uint32`.
pub record BlockRequest : Type 0 where
  pub piece_index : ℕ
  pub begin : ℕ
  pub len : ℕ

pub data Message : Type 0 where
  keep_alive choke unchoke interested not_interested : Message
  have : ℕ → Message
  bitfield : Bytes → Message
  request : BlockRequest → Message
  cancel_request : BlockRequest → Message
  piece : ℕ → ℕ → Bytes → Message

pub data MessageError : Type 0 where
  short_length length_over_limit short_body empty_body : MessageError
  invalid_payload_length short_piece unknown_id cannot_encode slice_panic : MessageError

abbrev pub max_peer_message_size : ℕ
max_peer_message_size = 500000

-- A lookup in the map `fixedPayloadLengths`.
abbrev pub fixed_payload_length : ℕ → Option ℕ
fixed_payload_length id =
    if id == choke_id
    then some 0
    else if id == unchoke_id
    then some 0
    else if id == interested_id
    then some 0
    else if id == not_interested_id
    then some 0
    else if id == have_id
    then some 4
    else if id == request_id
    then some 12
    else if id == cancel_id
    then some 12
    else none

abbrev pub has_wrong_length : Option ℕ → Bytes → Bool
has_wrong_length none payload = false
has_wrong_length (some expected) payload = not (length payload == expected)

-- `binary.BigEndian.Uint32`, which panics on less than four bytes.
abbrev pub big_endian : Bytes → Result MessageError ℕ
big_endian bs = if ltb (length bs) 4 then err slice_panic else ok (uint32 bs)

unfoldable pub decode_piece : Bytes → Result MessageError Message
decode_piece payload =
    if ltb (length payload) 8
    then err short_piece
    else (big_endian (take 4 payload) >>= λ index.
        big_endian (take 4 (drop 4 payload)) >>= λ begin. ok (piece index begin (drop 8 payload)))

unfoldable pub decode_block_request : Bytes → Result MessageError BlockRequest
decode_block_request body =
    if not (length body == 12)
    then err invalid_payload_length
    else (big_endian (take 4 body) >>= λ piece_index. big_endian (take 4 (drop 4 body)) >>= λ begin.
        big_endian (drop 8 body) >>= λ len.
        ok (record { piece_index = piece_index; begin = begin; len = len }))

-- The switch of `decodeBody` on the message's id.
unfoldable pub decode_payload : ℕ → Bytes → Result MessageError Message
unfolding decode_piece decode_block_request
decode_payload id payload =
    if id == interested_id
    then ok interested
    else if id == not_interested_id
    then ok not_interested
    else if id == choke_id
    then ok choke
    else if id == unchoke_id
    then ok unchoke
    else if id == have_id
    then (big_endian payload >>= λ index. ok (have index))
    else if id == request_id
    then (decode_block_request payload >>= λ block. ok (request block))
    else if id == cancel_id
    then (decode_block_request payload >>= λ block. ok (cancel_request block))
    else if id == bitfield_id
    then ok (bitfield payload)
    else if id == piece_id
    then decode_piece payload
    else err unknown_id

unfoldable pub decode_body : Bytes → Result MessageError Message
decode_body [] = err empty_body
decode_body (id ∷ payload) = do
  fail_if (has_wrong_length (fixed_payload_length id) payload) invalid_payload_length
  decode_payload id payload

unfoldable pub read_body : ℕ → Bytes → Result MessageError (Message × Bytes)
read_body n bs = elim (read_full n bs) [
  | none ↦ err short_body
  | some (body, rest) ↦ decode_body body >>= λ m. ok (m, rest)
]

abbrev pub read_length : ℕ → Bytes → Result MessageError (Message × Bytes)
read_length n rest =
    if n == 0
    then ok (keep_alive, rest)
    else if ltb max_peer_message_size n
    then err length_over_limit
    else read_body n rest

unfoldable pub read_message : Bytes → Result MessageError (Message × Bytes)
read_message bs = elim (read_full 4 bs) [
  | none ↦ err short_length
  | some (length_bytes, rest) ↦ read_length (uint32 length_bytes) rest
]

unfoldable pub encode_block_request : BlockRequest → Bytes
encode_block_request block =
    put_uint32 block.piece_index ++ (put_uint32 block.begin ++ put_uint32 block.len)

unfoldable pub encode_message : Message → Result MessageError Bytes
unfolding encode_block_request
encode_message choke = ok (choke_id ∷ [])
encode_message unchoke = ok (unchoke_id ∷ [])
encode_message interested = ok (interested_id ∷ [])
encode_message not_interested = ok (not_interested_id ∷ [])
encode_message (have index) = ok (have_id ∷ put_uint32 index)
encode_message (bitfield bits) = ok (bitfield_id ∷ bits)
encode_message (request block) = ok (request_id ∷ encode_block_request block)
encode_message (cancel_request block) = ok (cancel_id ∷ encode_block_request block)
encode_message (piece index begin contents) =
    ok (piece_id ∷ (put_uint32 index ++ (put_uint32 begin ++ contents)))
encode_message keep_alive = err cannot_encode

-- The frame handed to the writer in one call.
unfoldable pub write_message : Message → Result MessageError Bytes
unfolding encode_message
write_message keep_alive = ok (0 ∷ 0 ∷ 0 ∷ 0 ∷ [])
write_message m = encode_message m >>= λ body. ok (put_uint32 (length body % 2 ^ 32) ++ body)
