-- ===== src/Torrent/Piece/Delivery.antt =====
-- torrent/piece.go: what a piece has received at the end of any run of accepted blocks, and which
-- blocks it accepts.
use mole_swarm.Base.{
  ℕ, ◌-◌, ◌*◌, ◌/◌, ◌%◌, ◌^◌, ◌<◌, ◌≡◌, ◌≢◌, subst, Bool, true, false, some, arith, length,
  get_elem?, drop, length-take, length-drop, lt_of_get_elem?, Bool-cases, ◌⊎◌, inl, inr, ok,
}
use native.Mathlib.Nat.{div-add-mod, mod-lt}
use mole_swarm.Base.Bytes.{Bytes}
use mole_swarm.Torrent.Piece.{
  Piece, receiving, assembled, block_count_for, request_length_for, prepare, all_set,
  all_blocks_received, store_block, finish_block, accept_block, is_set, bytes_of,
}
use mole_swarm.Torrent.Piece.Assembly.{
  IsAssembling, block_of, accept_block-eq-ok, store_block-IsAssembling, assembled_content,
  prepare-IsAssembling, request_length_for-IsRequest, block_count_for_lem,
}

-- What a piece holds after a block: everything, if that block was the last.
pub record IsAssembled (c : Bytes) (p : Piece) : Type 0 where
  pub is_done : p.state ≡ assembled
  pub content : p.buffer ≡ some c

all_blocks_received-eq-true :
    (p : Piece) → all_blocks_received p ≡ true → all_set p.received_blocks ≡ true
unfolding all_blocks_received
all_blocks_received-eq-true p h = ground arith

finish_block-cases :
    (c : Bytes) (bl : ℕ) (p q : Piece) (done : Bool)
    → IsAssembling c bl p
    → 0 < bl
    → length c < 2 ^ 32
    → finish_block p ≡ (q, done)
    → IsAssembling c bl q ⊎ IsAssembled c q
finish_block-cases c bl p q done v h lt e = elim (Bool-cases (all_blocks_received p)) [
  | inl all ↦ inr (record {
    is_done = ground arith;
    content = cc (assembled_content c bl p v h lt (all_blocks_received-eq-true p all), e, all);
  })
  | inr some_left ↦ inl (subst (IsAssembling c bl) (ground arith) v)
]

module _ (c : Bytes) (bl : ℕ) (lt : length c < 2 ^ 32) where
  own_length : (p : Piece) → IsAssembling c bl p → length (bytes_of p.buffer) % 2 ^ 32 ≡ length c
  own_length p v = rw v.has_buffer (omega (arith, v.buffer_size))

  pub accept_block-IsAssembling :
      (p q : Piece) (begin : ℕ) (done : Bool)
      → IsAssembling c bl p
      → accept_block p begin (block_of c begin bl) bl ≡ ok (q, done)
      → IsAssembling c bl q ⊎ IsAssembled c q
  accept_block-IsAssembling p q begin done v e =
      let checked = accept_block-eq-ok p q begin (block_of c begin bl) bl done e in
      finish_block-cases c bl (store_block p begin (block_of c begin bl) bl) q done
        (store_block-IsAssembling c bl p begin v checked.1
          (subst (λ n. 0 < request_length_for n begin bl) (own_length p v) checked.2) checked.4)
        checked.0 lt checked.6

  -- A piece takes no block once it is assembled.
  assembled-refuses :
      (p q : Piece) (begin : ℕ) (block : Bytes) (done : Bool)
      → p.state ≡ assembled
      → accept_block p begin block bl ≢ ok (q, done)
  unfolding accept_block
  assembled-refuses p q begin block done s e = cc

-- The states of a piece between `prepare` and its last block.
pub data Receives (c : Bytes) (bl : ℕ) : Piece → Type 0 where
  prepared : (p q : Piece) → prepare p (length c) bl ≡ ok q → Receives c bl q
  accepted :
      (p q : Piece) (begin : ℕ) (done : Bool)
      → Receives c bl p
      → accept_block p begin (block_of c begin bl) bl ≡ ok (q, done)
      → Receives c bl q

module _ (c : Bytes) (bl : ℕ) (lt : length c < 2 ^ 32) where
  Receives-cases : {p : Piece} → Receives c bl p → IsAssembling c bl p ⊎ IsAssembled c p
  Receives-cases (prepared p q e) = inl (prepare-IsAssembling p q c bl e)
  Receives-cases (accepted p q begin done h e) = elim (Receives-cases h) [
    | inl v ↦ accept_block-IsAssembling c bl lt p q begin done v e
    | inr v ↦ absurd (assembled-refuses c bl lt p q begin (block_of c begin bl) done v.is_done e)
  ]

-- When a piece that was prepared for a content of less than 2^32 bytes has accepted blocks cut
-- from it, in any order, and its state is assembled, its buffer is exactly that content.
pub assembled-content :
    (c : Bytes) (bl : ℕ) (p : Piece)
    → length c < 2 ^ 32
    → Receives c bl p
    → p.state ≡ assembled
    → p.buffer ≡ some c
assembled-content c bl p lt r s = elim (Receives-cases c bl lt r) [
  | inl v ↦ cc (s, v.receives)
  | inr v ↦ v.content
]

mul_block : (i bl : ℕ) → 0 < bl → (i * bl / bl ≡ i) × (i * bl % bl ≡ 0)
mul_block i bl h = grind (arith, div-add-mod (i * bl) bl, mod-lt)

missing_request :
    (len i bl : ℕ)
    → 0 < len
    → len < 2 ^ 32
    → 0 < bl
    → i < block_count_for len bl
    → 0 < request_length_for len (i * bl) bl
unfolding request_length_for
missing_request len i bl pos lt h room =
    let below : i * bl < len =
      grind (arith, block_count_for_lem len bl, div-add-mod (len - 1) bl, mod-lt) in
    ground arith

length-block_of :
    (c : Bytes) (begin bl : ℕ)
    → 0 < request_length_for (length c) begin bl
    → length (block_of c begin bl) ≡ request_length_for (length c) begin bl
length-block_of c begin bl h =
    let request = request_length_for-IsRequest (length c) begin bl h in
    omega (
      arith,
      length-take (request_length_for (length c) begin bl) (drop begin c),
      length-drop begin c,
      request.within_piece,
    )

accept_block-ok :
    (p : Piece) (begin : ℕ) (block : Bytes) (bl len : ℕ)
    → p.state ≡ receiving
    → (buffer : Bytes) → p.buffer ≡ some buffer
    → length (bytes_of p.buffer) % 2 ^ 32 ≡ len
    → 0 < bl
    → begin % bl ≡ 0
    → 0 < request_length_for len begin bl
    → length block % 2 ^ 32 ≡ request_length_for len begin bl
    → begin / bl < length p.received_blocks
    → is_set p.received_blocks (begin / bl) ≡ false
    → accept_block p begin block bl ≡ ok (finish_block (store_block p begin block bl))
unfolding accept_block
accept_block-ok p begin block bl len s buffer b own h aligned req size room unset = ground arith

-- Of a piece that is receiving a non-empty content of less than 2^32 bytes, every block whose flag
-- is not set is accepted, at the index of the flag times the block length.
pub accept_block_missing :
    (c : Bytes) (bl : ℕ) (p : Piece) (i : ℕ)
    → IsAssembling c bl p
    → 0 < length c
    → length c < 2 ^ 32
    → 0 < bl
    → get_elem? p.received_blocks i ≡ some false
    → accept_block p (i * bl) (block_of c (i * bl) bl) bl
      ≡ ok (finish_block (store_block p (i * bl) (block_of c (i * bl) bl) bl))
accept_block_missing c bl p i v pos lt h e =
    let quotient = mul_block i bl h in
    let room : i < length p.received_blocks = lt_of_get_elem? p.received_blocks i e in
    let some_bytes = missing_request (length c) i bl pos lt h (omega (arith, v.flag_count)) in
    let size = length-block_of c (i * bl) bl some_bytes in
    let own = own_length c bl lt p v in
    let small : request_length_for (length c) (i * bl) bl < 2 ^ 32 =
      omega
        (arith, (request_length_for-IsRequest (length c) (i * bl) bl some_bytes).within_piece) in
    accept_block-ok p (i * bl) (block_of c (i * bl) bl) bl (length c) v.receives v.buffer
      v.has_buffer own h quotient.1 some_bytes (omega (arith, size, small))
      (omega (arith, quotient.0, room)) (ground (arith, e, quotient.0))
