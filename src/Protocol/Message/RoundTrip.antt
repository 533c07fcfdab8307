-- ===== src/Protocol/Message/RoundTrip.antt =====
-- protocol/message.go: what `WriteMessage` sends, `ReadMessage` reads.
use mole_swarm.Base.{
  ℕ, ◌+◌, ◌%◌, ◌^◌, ◌≤◌, ◌<◌, ◌≡◌, refl, ap, [], ◌∷◌, ◌++◌, arith, length, ok, err, length-append,
  append_assoc, ◌∙◌,
}
use mole_swarm.Base.Bytes.{
  Bytes, IsU32, read_full, put_uint32, uint32, read_full-append, uint32-put_uint32_self,
  length-put_uint32,
}
use mole_swarm.Protocol.Message.{
  Message, BlockRequest, keep_alive, choke, unchoke, interested, not_interested, have, bitfield,
  request, cancel_request, piece, max_peer_message_size, length_over_limit, decode_piece,
  decode_block_request, decode_payload, decode_body, read_body, read_length, read_message,
  encode_block_request, encode_message, write_message,
}

pub record IsBlock (b : BlockRequest) : Type 0 where
  pub piece_index_range : IsU32 b.piece_index
  pub begin_range : IsU32 b.begin
  pub len_range : IsU32 b.len

-- The integer fields hold `uint32` values.
abbrev pub InRange : Message → Type 0
InRange (have index) = IsU32 index
InRange (request b) = IsBlock b
InRange (cancel_request b) = IsBlock b
InRange (piece index begin contents) = IsU32 index × IsU32 begin
InRange _ = Unit {0}

-- The three integers of a request, read at their places.
decode_block_request-encode :
    (b : BlockRequest) → IsBlock b → decode_block_request (encode_block_request b) ≡ ok b
unfolding decode_block_request encode_block_request uint32 put_uint32
decode_block_request-encode b r = ground arith

decode_piece-encode :
    (index begin : ℕ) (contents : Bytes)
    → IsU32 index
    → IsU32 begin
    → decode_piece (put_uint32 index ++ (put_uint32 begin ++ contents))
      ≡ ok (piece index begin contents)
unfolding decode_piece uint32 put_uint32
decode_piece-encode index begin contents hi hb = ground arith

-- A body is read back as the message it was made of.
decode_body-encode_message :
    (m : Message) (body : Bytes) → InRange m → encode_message m ≡ ok body → decode_body body ≡ ok m
unfolding encode_message decode_body decode_payload
decode_body-encode_message keep_alive body r e = cc
decode_body-encode_message choke body r e = ground arith
decode_body-encode_message unchoke body r e = ground arith
decode_body-encode_message interested body r e = ground arith
decode_body-encode_message not_interested body r e = ground arith
decode_body-encode_message (have index) body r e =
    ground (arith, uint32-put_uint32_self index r, length-put_uint32 index)
decode_body-encode_message (bitfield bits) body r e = ground arith
decode_body-encode_message (request b) body r e = ground (arith, decode_block_request-encode b r)
decode_body-encode_message (cancel_request b) body r e =
    ground (arith, decode_block_request-encode b r)
decode_body-encode_message (piece index begin contents) body r e =
    ground (arith, decode_piece-encode index begin contents)

encode_message_pos : (m : Message) (body : Bytes) → encode_message m ≡ ok body → 0 < length body
unfolding encode_message
encode_message_pos keep_alive body e = cc
encode_message_pos _ body e = ground arith

-- A frame is the zero length of a keep-alive, or the length of a body before it.
data Frame (m : Message) (frame : Bytes) : Type 0 where
  quiet : m ≡ keep_alive → frame ≡ 0 ∷ 0 ∷ 0 ∷ 0 ∷ [] → Frame m frame
  framed :
      (body : Bytes)
      → encode_message m ≡ ok body
      → frame ≡ put_uint32 (length body % 2 ^ 32) ++ body
      → Frame m frame

write_message-Frame : (m : Message) (frame : Bytes) → write_message m ≡ ok frame → Frame m frame
unfolding write_message
write_message-Frame keep_alive frame e = quiet refl (ground arith)
write_message-Frame choke frame e = framed _ refl (ground arith)
write_message-Frame unchoke frame e = framed _ refl (ground arith)
write_message-Frame interested frame e = framed _ refl (ground arith)
write_message-Frame not_interested frame e = framed _ refl (ground arith)
write_message-Frame (have index) frame e = framed _ refl (ground arith)
write_message-Frame (bitfield bits) frame e = framed _ refl (ground arith)
write_message-Frame (request b) frame e = framed _ refl (ground arith)
write_message-Frame (cancel_request b) frame e = framed _ refl (ground arith)
write_message-Frame (piece index begin contents) frame e = framed _ refl (ground arith)

-- Reading starts with the length, whatever follows it.
read_message-length :
    (n : ℕ) (body rest : Bytes)
    → IsU32 n
    → read_message ((put_uint32 n ++ body) ++ rest) ≡ read_length n (body ++ rest)
unfolding read_message
read_message-length n body rest h = rw append_assoc (
    ground (
      arith,
      read_full-append 4 (put_uint32 n) (body ++ rest) (omega (arith, length-put_uint32 n)),
      uint32-put_uint32_self n h,
    ))

read_body-append :
    (body rest : Bytes) (m : Message)
    → decode_body body ≡ ok m
    → read_body (length body) (body ++ rest) ≡ ok (m, rest)
unfolding read_body
read_body-append body rest m e = ground (arith, read_full-append (length body) body rest refl)

read_length-append :
    (body rest : Bytes) (m : Message)
    → 0 < length body
    → length body ≤ max_peer_message_size
    → decode_body body ≡ ok m
    → read_length (length body) (body ++ rest) ≡ ok (m, rest)
read_length-append body rest m pos le e = ground (arith, read_body-append body rest m e)

-- Every message with fields in range whose frame keeps the size limit is read back from its frame,
-- and what follows the frame is left in the stream.
pub read_message-write_message :
    (m : Message) (frame rest : Bytes)
    → InRange m
    → write_message m ≡ ok frame
    → length frame ≤ max_peer_message_size + 4
    → read_message (frame ++ rest) ≡ ok (m, rest)
read_message-write_message m frame rest r e le = elim (write_message-Frame m frame e) [
  | quiet same eq ↦ rw (same, eq) (unfold read_message read_full uint32 in ground arith)
  | framed body made eq ↦
      let fits : length body ≤ max_peer_message_size = omega (
        arith,
        ap length eq,
        length-append (put_uint32 (length body % 2 ^ 32)) body,
        length-put_uint32 (length body % 2 ^ 32),
      ) in
      let whole : length body % 2 ^ 32 ≡ length body = omega arith in
      rw (eq, whole)
        (read_message-length (length body) body rest (omega arith)
          ∙ read_length-append body rest m (encode_message_pos m body made) fits
              (decode_body-encode_message m body r made))
]

-- A frame above the limit, of less than 2 ^ 32 bytes, is refused by the reader, though the writer
-- sends it.
pub read_message_over_limit :
    (m : Message) (frame rest : Bytes)
    → write_message m ≡ ok frame
    → max_peer_message_size + 4 < length frame
    → length frame < 2 ^ 32
    → read_message (frame ++ rest) ≡ err length_over_limit
read_message_over_limit m frame rest e over lt = elim (write_message-Frame m frame e) [
  | quiet same eq ↦ absurd (omega (arith, ap length eq))
  | framed body made eq ↦
      let size = length-append (put_uint32 (length body % 2 ^ 32)) body in
      let four = length-put_uint32 (length body % 2 ^ 32) in
      let whole : length body % 2 ^ 32 ≡ length body = omega (arith, ap length eq) in
      let big : max_peer_message_size < length body = omega (arith, ap length eq) in
      rw (eq, whole)
        (read_message-length (length body) body rest (omega (arith, ap length eq)) ∙ ground arith)
]
