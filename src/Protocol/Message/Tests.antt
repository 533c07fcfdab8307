-- ===== src/Protocol/Message/Tests.antt =====
-- protocol/message.go: runs of the codec, and the theorems at concrete inputs.
use mole_swarm.Base.{
  ℕ, ◌^◌, ◌≡◌, refl, [], ◌∷◌, ◌++◌, ok, err, arith, length, length-append, zero, suc, ◌%◌, ap,
}
use mole_swarm.Base.Bytes.{Bytes, read_full, put_uint32, uint32, length-put_uint32}
use mole_swarm.Protocol.Message.{
  have, bitfield, request, BlockRequest, unknown_id, invalid_payload_length, length_over_limit,
  read_message, read_body, decode_body, decode_payload, write_message, bitfield_id,
}
use mole_swarm.Protocol.Message.RoundTrip.{
  read_message-write_message, read_message_over_limit, IsBlock,
}
use mole_swarm.Protocol.Message.Sound.{write_message-read_message}

-- TestWriteMessageFramesPayload
write_have : write_message (have 7) ≡ ok (0 ∷ 0 ∷ 0 ∷ 5 ∷ 4 ∷ 0 ∷ 0 ∷ 0 ∷ 7 ∷ [])
unfolding write_message put_uint32
write_have = refl

read_unknown : read_message (0 ∷ 0 ∷ 0 ∷ 1 ∷ 9 ∷ []) ≡ err unknown_id
unfolding read_message read_body decode_body decode_payload read_full uint32
read_unknown = refl

read_short_have : read_message (0 ∷ 0 ∷ 0 ∷ 2 ∷ 4 ∷ 1 ∷ []) ≡ err invalid_payload_length
unfolding read_message read_body decode_body decode_payload read_full uint32
read_short_have = refl

abbrev block : BlockRequest
block = record { piece_index = 3; begin = 16384; len = 16384 }

abbrev request_frame : Bytes
request_frame = 0 ∷ 0 ∷ 0 ∷ 13 ∷ 6 ∷ 0 ∷ 0 ∷ 0 ∷ 3 ∷ 0 ∷ 0 ∷ 64 ∷ 0 ∷ 0 ∷ 0 ∷ 64 ∷ 0 ∷ []

block-IsBlock : IsBlock block
block-IsBlock = record {
  piece_index_range = omega arith;
  begin_range = omega arith;
  len_range = omega arith;
}

write_request : write_message (request block) ≡ ok request_frame
unfolding write_message put_uint32
write_request = refl

read_message-write_message_example :
    read_message (request_frame ++ 0 ∷ []) ≡ ok (request block, 0 ∷ [])
read_message-write_message_example =
    read_message-write_message (request block) request_frame (0 ∷ []) block-IsBlock write_request
      (omega arith)

read_have : read_message (0 ∷ 0 ∷ 0 ∷ 5 ∷ 4 ∷ 0 ∷ 0 ∷ 0 ∷ 7 ∷ 1 ∷ []) ≡ ok (have 7, 1 ∷ [])
unfolding read_message read_body decode_body decode_payload read_full uint32
read_have = refl

write_message-read_message_example :
    (frame : Bytes) × (write_message (have 7) ≡ ok frame)
    × (◌≡◌ {A = Bytes} (0 ∷ 0 ∷ 0 ∷ 5 ∷ 4 ∷ 0 ∷ 0 ∷ 0 ∷ 7 ∷ 1 ∷ []) (frame ++ 1 ∷ []))
write_message-read_message_example =
    write_message-read_message (0 ∷ 0 ∷ 0 ∷ 5 ∷ 4 ∷ 0 ∷ 0 ∷ 0 ∷ 7 ∷ 1 ∷ []) (have 7) (1 ∷ [])
      (omega arith) read_have

-- So many zero bytes, not computed.
zeros : ℕ → Bytes
zeros zero = []
zeros (suc n) = 0 ∷ zeros n

length-zeros : (n : ℕ) → length (zeros n) ≡ n
unfolding zeros
length-zeros zero = refl
length-zeros (suc n) = ap suc (length-zeros n)

abbrev large_body : Bytes
large_body = bitfield_id ∷ zeros 500000

abbrev large_frame : Bytes
large_frame = put_uint32 (length large_body % 2 ^ 32) ++ large_body

write_large : write_message (bitfield (zeros 500000)) ≡ ok large_frame
unfolding write_message
write_large = refl

length-large_frame : length large_frame ≡ 500005
length-large_frame = omega (
  arith,
  length-append (put_uint32 (length large_body % 2 ^ 32)) large_body,
  length-put_uint32 (length large_body % 2 ^ 32),
  length-zeros 500000,
)

read_message_over_limit_example : read_message (large_frame ++ []) ≡ err length_over_limit
read_message_over_limit_example =
    read_message_over_limit (bitfield (zeros 500000)) large_frame [] write_large
      (omega (arith, length-large_frame)) (omega (arith, length-large_frame))
