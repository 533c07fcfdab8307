-- ===== src/Torrent/Piece/Assembly.antt =====
-- torrent/piece.go: blocks accepted in any order assemble the content that they were cut from.
use mole_swarm.Base.{
  ℕ, zero, suc, ◌+◌, ◌-◌, ◌/◌, ◌%◌, ◌^◌, ◌≤◌, ◌<◌, ◌≡◌, ◌≢◌, ap, sym, ◌∙◌, Bool, true, false, some,
  List, [], ◌∷◌, arith, ltb, leb, ◌==◌, length, get_elem?, set, take, drop, replicate, write_at,
  length-set, length-take, length-drop, length-replicate, length-write_at,
  get_elem?-write_at_inside, get_elem?-write_at_outside, get_elem?-set_ne, get_elem?-take,
  get_elem?-drop, get_elem?-ext, get_elem?-replicate, Bool-cases, ◌⊎◌, inl, inr, ok,
}
use native.Mathlib.Nat.{div-add-mod, mod-lt}
use mole_swarm.Base.Bytes.{Bytes}
use mole_swarm.Torrent.Piece.{
  Piece, receiving, block_count_for, request_length_for, prepare, all_set, store_block,
  finish_block, accept_block, is_set, bytes_of,
}

-- The block of the content `c` at `begin`.
abbrev pub block_of : Bytes → ℕ → ℕ → Bytes
block_of c begin block_length =
    take (request_length_for (length c) begin block_length) (drop begin c)

-- The flags say of which blocks the buffer has the content.
pub record IsAssembling (c : Bytes) (block_length : ℕ) (p : Piece) : Type 0 where
  pub receives : p.state ≡ receiving
  pub buffer : Bytes
  pub has_buffer : p.buffer ≡ some buffer
  pub buffer_size : length buffer ≡ length c
  pub flag_count : length p.received_blocks ≡ block_count_for (length c) block_length
  pub agrees :
      (j : ℕ)
      → j < length c
      → get_elem? p.received_blocks (j / block_length) ≡ some true
      → get_elem? buffer j ≡ get_elem? c j

all_set-get_elem? :
    (flags : List Bool) (i : ℕ)
    → all_set flags ≡ true
    → i < length flags
    → get_elem? flags i ≡ some true
unfolding all_set
all_set-get_elem? [] i h lt = elim lt [ ]
all_set-get_elem? (b ∷ flags) zero h lt = ground arith
all_set-get_elem? (b ∷ flags) (suc i) h lt = all_set-get_elem? flags i (ground arith) (omega arith)

pub block_count_for_lem :
    (len block_length : ℕ)
    → 0 < len
    → len < 2 ^ 32
    → 0 < block_length
    → block_count_for len block_length ≡ (len - 1) / block_length + 1
unfolding block_count_for
block_count_for_lem len block_length h lt pos_length =
    let last : (len + 2 ^ 32 - 1) % 2 ^ 32 ≡ len - 1 = omega arith in
    let small : (len - 1) / block_length ≤ len - 1 = omega arith in rw last (omega arith)

-- A piece that is prepared has no block yet.
pub prepare-IsAssembling :
    (p q : Piece) (c : Bytes) (block_length : ℕ)
    → prepare p (length c) block_length ≡ ok q
    → IsAssembling c block_length q
unfolding prepare
prepare-IsAssembling p q c block_length e =
    let fresh : (q.state ≡ receiving)
        × (q.buffer ≡ some (replicate (length c) 0))
        × (q.received_blocks ≡ replicate (block_count_for (length c) block_length) false) =
      ground arith in
    record {
      receives = fresh.0;
      buffer = replicate (length c) 0;
      has_buffer = fresh.1;
      buffer_size = length-replicate (length c) 0;
      flag_count =
          ap length fresh.2 ∙ length-replicate (block_count_for (length c) block_length) false;
      agrees = λ j lt h. absurd (absent j (rw fresh.2 at h));
    }
  where
    absent :
        (j : ℕ)
        → get_elem? (replicate (block_count_for (length c) block_length) false) (j / block_length)
          ≢ some true
    absent j h =
        cc
          (get_elem?-replicate (block_count_for (length c) block_length) (j / block_length) false h)

-- What `acceptBlock` has checked when it goes on to write.
pub accept_block-eq-ok :
    (p q : Piece) (begin : ℕ) (block : Bytes) (block_length : ℕ) (done : Bool)
    → accept_block p begin block block_length ≡ ok (q, done)
    → (0 < block_length)
      × (begin % block_length ≡ 0)
      × (0 < request_length_for (length (bytes_of p.buffer) % 2 ^ 32) begin block_length)
      × (length block % 2 ^ 32
          ≡ request_length_for (length (bytes_of p.buffer) % 2 ^ 32) begin block_length)
      × (begin / block_length < length p.received_blocks)
      × (is_set p.received_blocks (begin / block_length) ≡ false)
      × (finish_block (store_block p begin block block_length) ≡ (q, done))
unfolding accept_block
accept_block-eq-ok p q begin block block_length done e = ground arith

-- A position is in the block that starts at `begin` if the quotients agree.
block_range :
    (begin j bl : ℕ)
    → 0 < bl
    → begin % bl ≡ 0
    → j / bl ≡ begin / bl
    → (begin ≤ j) × (j < begin + bl)
block_range begin j bl h z e = grind (arith, div-add-mod begin bl, div-add-mod j bl, mod-lt)

range_block :
    (begin j bl : ℕ) → 0 < bl → begin % bl ≡ 0 → begin ≤ j → j < begin + bl → j / bl ≡ begin / bl
range_block begin j bl h z lo hi = grind (arith, div-add-mod begin bl, div-add-mod j bl, mod-lt)

-- The length of a request: within the block and the piece, and up to the end of one of them.
pub record IsRequest (len begin bl r : ℕ) : Type 0 where
  pub positive : 0 < r
  pub within_block : r ≤ bl
  pub within_piece : begin + r ≤ len
  pub to_end : (r ≡ bl) ⊎ (begin + r ≡ len)

pub request_length_for-IsRequest :
    (len begin bl : ℕ)
    → 0 < request_length_for len begin bl
    → IsRequest len begin bl (request_length_for len begin bl)
unfolding request_length_for
request_length_for-IsRequest len begin bl h = elim (Bool-cases (ltb (len - begin) bl)) [
  | inl last ↦ record {
    positive = h;
    within_block = ground arith;
    within_piece = ground arith;
    to_end = inr (ground arith);
  }
  | inr full ↦ record {
    positive = h;
    within_block = ground arith;
    within_piece = ground arith;
    to_end = inl (ground arith);
  }
]

-- The writes for one block of the content, into a buffer with its flags.
module _ (c buffer : Bytes) (flags : List Bool) (begin bl r : ℕ) (aligned : begin % bl ≡ 0)
    (request : IsRequest (length c) begin bl r) (size : length buffer ≡ length c)
    (room : begin / bl < length flags) where
  length_block : length (take r (drop begin c)) ≡ r
  length_block =
      omega (arith, length-take r (drop begin c), length-drop begin c, request.within_piece)

  agrees_inside :
      (j : ℕ)
      → j < length c
      → j / bl ≡ begin / bl
      → get_elem? (write_at buffer begin (take r (drop begin c))) j ≡ get_elem? c j
  agrees_inside j lt same =
      let (lo, hi) =
        block_range begin j bl (omega (arith, request.positive, request.within_block)) aligned
          same in
      let inside : j < begin + r = omega (arith, request.to_end) in
      get_elem?-write_at_inside buffer begin (take r (drop begin c))
        (omega (arith, length_block, request.within_piece)) j lo (omega (arith, length_block))
      ∙ get_elem?-take r (j - begin) (drop begin c) (omega arith)
      ∙ get_elem?-drop begin (j - begin) c
      ∙ ap (get_elem? c) (omega arith)

  outside : (j : ℕ) → j / bl ≢ begin / bl → (j < begin) ⊎ (begin + r ≤ j)
  outside j other = elim (Bool-cases (ltb j begin)) [
    | inl below ↦ inl (ground arith)
    | inr above ↦ elim (Bool-cases (leb (begin + r) j)) [
      | inl past ↦ inr (ground arith)
      | inr inside ↦ absurd (
          other (
            range_block begin j bl (omega (arith, request.positive, request.within_block)) aligned
              (ground arith) (ground (arith, request.within_block))))
    ]
  ]

  agrees_after :
      ((j : ℕ)
        → j < length c
        → get_elem? flags (j / bl) ≡ some true
        → get_elem? buffer j ≡ get_elem? c j)
      → (j : ℕ) → j < length c
      → get_elem? (set flags (begin / bl) true) (j / bl) ≡ some true
      → get_elem? (write_at buffer begin (take r (drop begin c))) j ≡ get_elem? c j
  agrees_after before j lt h = elim (Bool-cases (j / bl == begin / bl)) [
    | inl same ↦ agrees_inside j lt (ground arith)
    | inr other ↦
        let apart : j / bl ≢ begin / bl = λ e. ground (arith, e) in
        get_elem?-write_at_outside buffer begin (take r (drop begin c))
          (omega (arith, length_block, request.within_piece)) j (rw length_block (outside j apart))
        ∙ before j lt
            (sym (get_elem?-set_ne flags (begin / bl) (j / bl) true (λ e. apart (sym e))) ∙ h)
  ]

-- A block of the content that is accepted is stored where it belongs.
pub store_block-IsAssembling :
    (c : Bytes) (bl : ℕ) (p : Piece) (begin : ℕ)
    → IsAssembling c bl p
    → begin % bl ≡ 0
    → 0 < request_length_for (length c) begin bl
    → begin / bl < length p.received_blocks
    → IsAssembling c bl (store_block p begin (block_of c begin bl) bl)
unfolding store_block
store_block-IsAssembling c bl p begin v aligned some_bytes room =
    let request = request_length_for-IsRequest (length c) begin bl some_bytes in
    let r = request_length_for (length c) begin bl in
    let small : begin + length (take r (drop begin c)) ≤ length v.buffer = omega (
      arith,
      v.buffer_size,
      request.within_piece,
      length_block c v.buffer p.received_blocks begin bl r aligned request v.buffer_size room,
    ) in
    record {
      receives = v.receives;
      buffer = write_at v.buffer begin (block_of c begin bl);
      has_buffer = rw v.has_buffer;
      buffer_size = length-write_at v.buffer begin (take r (drop begin c)) small ∙ v.buffer_size;
      flag_count = length-set p.received_blocks (begin / bl) true ∙ v.flag_count;
      agrees =
          agrees_after c v.buffer p.received_blocks begin bl r aligned request v.buffer_size room
            v.agrees;
    }

-- With every flag set the buffer is the content.
pub assembled_content :
    (c : Bytes) (bl : ℕ) (p : Piece)
    → IsAssembling c bl p
    → 0 < bl
    → length c < 2 ^ 32
    → all_set p.received_blocks ≡ true
    → p.buffer ≡ some c
assembled_content c bl p v h lt all =
    v.has_buffer
    ∙ ap some (
        get_elem?-ext v.buffer c v.buffer_size λ j low.
          let inside : j < length c = omega (arith, v.buffer_size) in
          v.agrees j inside (
            all_set-get_elem? p.received_blocks (j / bl) all (
              grind (
                arith,
                v.flag_count,
                block_count_for_lem (length c) bl,
                div-add-mod j bl,
                div-add-mod (length c - 1) bl,
                mod-lt,
              ))))
