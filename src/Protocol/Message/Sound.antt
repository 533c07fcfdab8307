-- ===== src/Protocol/Message/Sound.antt =====
-- protocol/message.go: `ReadMessage` accepts nothing but what `WriteMessage` sends.
use mole_swarm.Base.{
  ℕ, ◌%◌, ◌^◌, ◌≤◌, ◌≡◌, refl, [], ◌∷◌, ◌++◌, arith, length, ok, append_assoc, All, take, drop,
  take-append-drop, take_all, length-drop, drop-drop, All-drop, ◌⊎◌, subst, append-nil,
  All-append_left, All-append_right, length_zero, Result-cases, inl, inr, Option-cases,
}
use mole_swarm.Base.Bytes.{
  Bytes, IsByte, read_full, put_uint32, uint32, put_uint32-uint32, read_full-eq-some,
}
use mole_swarm.Protocol.Message.{
  Message, BlockRequest, keep_alive, piece_id, max_peer_message_size, decode_piece,
  decode_block_request, decode_payload, decode_body, read_body, read_length, read_message,
  encode_block_request, encode_message, write_message,
}

-- Four bytes or more are the integer that they hold, written again, and the rest.
put_uint32-take :
    (bs : Bytes) → All IsByte bs → 4 ≤ length bs → put_uint32 (uint32 (take 4 bs)) ≡ take 4 bs
put_uint32-take [] h le = absurd (omega arith)
put_uint32-take (a ∷ []) h le = absurd (omega arith)
put_uint32-take (a ∷ b ∷ []) h le = absurd (omega arith)
put_uint32-take (a ∷ b ∷ c ∷ []) h le = absurd (omega arith)
put_uint32-take (a ∷ b ∷ c ∷ d ∷ rest) (ha, (hb, (hc, (hd, _)))) le =
    put_uint32-uint32 a b c d [] ha hb hc hd

-- The integer at the front and what follows it.
split_four :
    (bs : Bytes) → All IsByte bs → 4 ≤ length bs → put_uint32 (uint32 (take 4 bs)) ++ drop 4 bs ≡ bs
split_four bs h le = rw (put_uint32-take bs h le) (take-append-drop 4 bs)

split_eight :
    (bs : Bytes)
    → All IsByte bs
    → 8 ≤ length bs
    → put_uint32 (uint32 (take 4 bs)) ++ (put_uint32 (uint32 (take 4 (drop 4 bs))) ++ drop 8 bs)
      ≡ bs
split_eight bs h le =
    rw
      (
        ← drop-drop 4 4 bs,
        split_four (drop 4 bs) (All-drop IsByte 4 bs h) (omega (arith, length-drop 4 bs)),
      )
      (split_four bs h (omega arith))

encode-decode_block_request :
    (bs : Bytes) (b : BlockRequest)
    → All IsByte bs
    → decode_block_request bs ≡ ok b
    → encode_block_request b ≡ bs
unfolding decode_block_request encode_block_request
encode-decode_block_request bs b h e = ground (
  arith,
  split_eight bs h,
  put_uint32-take (drop 8 bs) (All-drop IsByte 8 bs h),
  length-drop 8 bs,
  take_all 4 (drop 8 bs),
)

encode-decode_piece :
    (bs : Bytes) (m : Message)
    → All IsByte bs
    → decode_piece bs ≡ ok m
    → encode_message m ≡ ok (piece_id ∷ bs)
unfolding decode_piece encode_message
encode-decode_piece bs m h e = ground (arith, split_eight bs h)

encode-decode_body :
    (bs : Bytes) (m : Message) → All IsByte bs → decode_body bs ≡ ok m → encode_message m ≡ ok bs
unfolding decode_body decode_payload encode_message
encode-decode_body [] m h e = cc
encode-decode_body (id ∷ bs) m (_, h) e = elim (Result-cases (decode_block_request bs)) [
  | inl (b, eb) ↦ ground (
    arith,
    length_zero bs,
    put_uint32-take bs h,
    take_all 4 bs,
    encode-decode_block_request bs b h,
    encode-decode_piece bs m h,
  )
  | inr (f, ef) ↦
      ground
        (arith, length_zero bs, put_uint32-take bs h, take_all 4 bs, encode-decode_piece bs m h)
]

read_body-eq-ok :
    (n : ℕ) (bs : Bytes) (m : Message) (rest : Bytes)
    → read_body n bs ≡ ok (m, rest)
    → (body : Bytes) × (bs ≡ body ++ rest) × (length body ≡ n) × (decode_body body ≡ ok m)
unfolding read_body
read_body-eq-ok n bs m rest e = elim (Option-cases (read_full n bs)) [
  | inl short ↦ ground arith
  | inr ((body, rest'), full) ↦
      let (cut, size) = read_full-eq-some n bs body rest' full in
      elim (Result-cases (decode_body body)) [
        | inl (m', made) ↦ (body, ground arith, size, ground arith)
        | inr (f, failed) ↦ ground arith
      ]
]

write_message-framed :
    (m : Message) (body : Bytes)
    → encode_message m ≡ ok body
    → write_message m ≡ ok (put_uint32 (length body % 2 ^ 32) ++ body)
unfolding write_message encode_message
write_message-framed keep_alive body e = cc
write_message-framed _ body e = ground arith

-- The length is zero, or that of a body within the limit.
read_length-eq-ok :
    (n : ℕ) (bs : Bytes) (m : Message) (rest : Bytes)
    → read_length n bs ≡ ok (m, rest)
    → ((n ≡ 0) × (m ≡ keep_alive) × (bs ≡ rest))
      ⊎ ((n ≤ max_peer_message_size) × (read_body n bs ≡ ok (m, rest)))
read_length-eq-ok n bs m rest e = ground arith

write_message_quiet : write_message keep_alive ≡ ok (put_uint32 0)
unfolding write_message put_uint32
write_message_quiet = refl

read_length-write_message :
    (n : ℕ) (bs : Bytes) (m : Message) (rest : Bytes)
    → All IsByte bs
    → read_length n bs ≡ ok (m, rest)
    → (body : Bytes) × (write_message m ≡ ok (put_uint32 n ++ body)) × (bs ≡ body ++ rest)
read_length-write_message n bs m rest h e = elim (read_length-eq-ok n bs m rest e) [
  | inl (zero_length, same, left) ↦
      ([], rw (zero_length, same, append-nil) write_message_quiet, left)
  | inr (le, full) ↦
      let (body, cut, size, made) = read_body-eq-ok n bs m rest full in
      let sound =
        encode-decode_body body m (All-append_left IsByte body rest (subst (All IsByte) cut h))
          made in
      let whole : length body % 2 ^ 32 ≡ n = omega arith in
      (body, rw whole at (write_message-framed m body sound), cut)
]

-- Whatever `ReadMessage` accepts is the frame that `WriteMessage` makes of the result, followed by
-- what is left in the stream.
pub write_message-read_message :
    (bs : Bytes) (m : Message) (rest : Bytes)
    → All IsByte bs
    → read_message bs ≡ ok (m, rest)
    → (frame : Bytes) × (write_message m ≡ ok frame) × (bs ≡ frame ++ rest)
unfolding read_message
write_message-read_message bs m rest h e = elim (Option-cases (read_full 4 bs)) [
  | inl short ↦ ground arith
  | inr ((front, left), full) ↦
      let (cut, size) = read_full-eq-some 4 bs front left full in
      let bytes = subst (All IsByte) cut h in
      let (body, sent, left_cut) =
        read_length-write_message (uint32 front) left m rest
          (All-append_right IsByte front left bytes) (ground arith) in
      let same : put_uint32 (uint32 front) ≡ front =
        rw (take_all 4 front (omega arith)) at
          (put_uint32-take front (All-append_left IsByte front left bytes) (omega arith)) in
      (front ++ body, rw same at sent, rw append_assoc (rw (← left_cut) cut))
]
