-- ===== src/Torrent/PieceSet/Open.antt =====
-- torrent/pieces.go: the blocks that a piece in progress still lacks, and how they are found.
use mole_swarm.Base.{
  ℕ, suc, ◌+◌, ◌*◌, ◌/◌, ◌%◌, ◌^◌, ◌≤◌, ◌<◌, ◌≡◌, refl, ap, subst, ◌∙◌, Bool, true, false, not,
  Option, some, List, [], ◌∷◌, arith, ◌==◌, length, get_elem?, lt_of_get_elem?, Bool-cases,
  Option-cases, Result-cases, inl, inr, Result, ok, err, ◌>>◌, fail_if, >>=-eq-ok,
}
use mole_swarm.Base.Bytes.{Bytes}
use mole_swarm.Protocol.Message.{BlockRequest}
use mole_swarm.Torrent.Piece.{TorrentError, is_nil, invalid_block}
use mole_swarm.Torrent.PieceSet.{
  PieceData, PieceSet, piece_length, piece_offset, block_count, block_size, block_request,
  request_length, prepare, first_missing, find_missing, next_missing_block,
}
use mole_swarm.Torrent.PieceSet.WellFormed.{
  IsPieceState, idle, filling, IsWellFormed, IsPrepared, IsPrepared-refl, prepare-IsPrepared,
  piece_length-same,
}

-- A block of a piece in progress that has not been received.
pub record IsOpen (ps : PieceSet) (r : BlockRequest) : Type 0 where
  pub state : PieceData
  pub at_index : get_elem? ps.states r.piece_index ≡ some state
  pub unset : get_elem? state.received (r.begin / block_size) ≡ some false
  pub requested : block_request ps r.piece_index r.begin ≡ ok r

-- What a request that can be built asks for.
pub record IsBuilt (ps : PieceSet) (index begin : ℕ) (r : BlockRequest) : Type 0 where
  pub piece_len : ℕ
  pub piece_size : piece_length ps index ≡ ok piece_len
  pub aligned : begin % block_size ≡ 0
  pub same_piece : r.piece_index ≡ index
  pub same_begin : r.begin ≡ begin
  pub within_piece : begin + r.len ≤ piece_len
  pub len_positive : 0 < r.len

request_length-bounds :
    (len begin : ℕ) → 0 < request_length len begin → begin + request_length len begin ≤ len
unfolding request_length
request_length-bounds len begin h = ground arith

IsBuilt-of_length :
    (ps : PieceSet) (index begin len : ℕ) (r : BlockRequest)
    → piece_length ps index ≡ ok len
    → begin % block_size ≡ 0
    → (fail_if (request_length len begin == 0) invalid_block
        >> ok (record { piece_index = index; begin = begin; len = request_length len begin }))
      ≡ ok r
    → IsBuilt ps index begin r
IsBuilt-of_length ps index begin len r size aligned e =
    let checked : (0 < request_length len begin)
        × (r.piece_index ≡ index)
        × (r.begin ≡ begin)
        × (r.len ≡ request_length len begin) =
      ground arith in
    record {
      piece_len = len;
      piece_size = size;
      aligned = aligned;
      same_piece = checked.1;
      same_begin = checked.2;
      within_piece = omega (arith, checked.3, request_length-bounds len begin);
      len_positive = omega (arith, checked.3, checked.0);
    }

pub block_request-IsBuilt :
    (ps : PieceSet) (index begin : ℕ) (r : BlockRequest)
    → block_request ps index begin ≡ ok r
    → IsBuilt ps index begin r
unfolding block_request
block_request-IsBuilt ps index begin r e =
    let (u, aligned, rest) =
      >>=-eq-ok (fail_if (not (begin % block_size == 0)) invalid_block) _ e in
    let (len, size, made) = >>=-eq-ok (piece_length ps index) _ rest in
    IsBuilt-of_length ps index begin len r size (ground (arith, aligned)) made

pub block_request-same :
    (ps ps' : PieceSet) (i begin : ℕ)
    → ps'.info ≡ ps.info
    → length ps'.states ≡ length ps.states
    → block_request ps' i begin ≡ block_request ps i begin
unfolding block_request
block_request-same ps ps' i begin same_info same_count =
    cc (piece_length-same ps ps' i same_info same_count)

-- A piece with a flag is in progress.
pub IsPieceState-filling :
    {l : Result TorrentError ℕ} {p : PieceData} (k : ℕ) (b : Bool)
    → IsPieceState l p
    → get_elem? p.received k ≡ some b
    → (d : Bytes) × (p.content ≡ some d)
      × (p.complete ≡ false)
      × (l ≡ ok (length d))
      × (length p.received ≡ block_count (length d))
IsPieceState-filling k b (idle c) e = cc
IsPieceState-filling k b (filling d flags size count) e = (d, refl, refl, size, count)

IsOpen-prepared :
    (ps ps' : PieceSet) (r : BlockRequest)
    → IsWellFormed ps
    → IsPrepared ps ps'
    → IsOpen ps r
    → IsOpen ps' r
IsOpen-prepared ps ps' r v prepared o =
    let (d, has, open_piece, size, count) =
      IsPieceState-filling (r.begin / block_size) false (v r.piece_index o.state o.at_index)
        o.unset in
    record {
      state = o.state;
      at_index = prepared.keeps r.piece_index o.state o.at_index (ap is_nil has);
      unset = o.unset;
      requested =
          block_request-same ps ps' r.piece_index r.begin prepared.same_info prepared.same_count
          ∙ o.requested;
    }

-- A piece length is a `uint32`.
pub piece_length-IsU32 : (ps : PieceSet) (i len : ℕ) → piece_length ps i ≡ ok len → len < 2 ^ 32
unfolding piece_length piece_offset
piece_length-IsU32 ps i len e = ground arith

flag_index :
    (len k : ℕ) → len < 2 ^ 32 → k < block_count len → k * block_size % 2 ^ 32 / block_size ≡ k
unfolding block_count
flag_index len k lt h = omega arith

-- What the loop over the flags finds.
pub record IsFound (ps : PieceSet) (index i : ℕ) (flags : List Bool)
    (is_pending : BlockRequest → Bool) (r : BlockRequest) : Type 0 where
  pub position : ℕ
  pub flag : get_elem? flags position ≡ some false
  pub built : block_request ps index ((i + position) * block_size % 2 ^ 32) ≡ ok r
  pub not_pending : is_pending r ≡ false

IsFound-cons :
    {ps : PieceSet} {index i : ℕ} {flags : List Bool} {is_pending : BlockRequest → Bool}
    {r : BlockRequest} (b : Bool)
    → IsFound ps index (i + 1) flags is_pending r
    → IsFound ps index i (b ∷ flags) is_pending r
IsFound-cons {ps} {index} {i} {flags} {is_pending} {r} b f = record {
  position = suc f.position;
  flag = f.flag;
  built =
      subst (λ n. block_request ps index (n * block_size % 2 ^ 32) ≡ ok r) (omega arith) f.built;
  not_pending = f.not_pending;
}

first_missing-IsFound :
    (ps : PieceSet) (index : ℕ) (is_pending : BlockRequest → Bool) (flags : List Bool) (i : ℕ)
    (r : BlockRequest)
    → first_missing ps index is_pending flags i ≡ ok (some r)
    → IsFound ps index i flags is_pending r
unfolding first_missing
first_missing-IsFound ps index is_pending [] i r e = cc
first_missing-IsFound ps index is_pending (true ∷ flags) i r e =
    IsFound-cons true (first_missing-IsFound ps index is_pending flags (i + 1) r e)
first_missing-IsFound ps index is_pending (false ∷ flags) i r e =
    let (found, built, rest) = >>=-eq-ok (block_request ps index (i * block_size % 2 ^ 32)) _ e in
    elim (Bool-cases (is_pending found)) [
      | inl taken ↦
          IsFound-cons false (
            first_missing-IsFound ps index is_pending flags (i + 1) r (ground (arith, taken, rest)))
      | inr free ↦
          let same : found ≡ r = ground (arith, free, rest) in
          record {
            position = 0;
            flag = refl;
            built =
                subst (λ n. block_request ps index (n * block_size % 2 ^ 32) ≡ ok r) (omega arith)
                  (built ∙ ap ok same);
            not_pending = cc (free, same);
          }
    ]

find_missing-IsOpen :
    (ps : PieceSet) (index : ℕ) (is_pending : BlockRequest → Bool) (r : BlockRequest)
    → IsWellFormed ps
    → find_missing ps index is_pending ≡ ok (some r)
    → IsOpen ps r × (is_pending r ≡ false)
unfolding find_missing
find_missing-IsOpen ps index is_pending r v e = elim (Option-cases (get_elem? ps.states index)) [
  | inl absent ↦ absurd (ground (arith, absent))
  | inr (p, present) ↦
      let f = first_missing-IsFound ps index is_pending p.received 0 r (ground (arith, present)) in
      let b = block_request-IsBuilt ps index ((0 + f.position) * block_size % 2 ^ 32) r f.built in
      let (d, has, open_piece, size, count) =
        IsPieceState-filling f.position false (v index p present) f.flag in
      let place : r.begin / block_size ≡ f.position =
        ap (λ n. n / block_size) b.same_begin
        ∙ ap (λ n. n * block_size % 2 ^ 32 / block_size) (omega arith)
        ∙ flag_index (length d) f.position (piece_length-IsU32 ps index (length d) size)
            (omega (arith, count, lt_of_get_elem? p.received f.position f.flag)) in
      (
        record {
          state = p;
          at_index = ap (get_elem? ps.states) b.same_piece ∙ present;
          unset = ap (get_elem? p.received) place ∙ f.flag;
          requested =
              ap (λ i. block_request ps i r.begin) b.same_piece
              ∙ ap (block_request ps index) b.same_begin
              ∙ f.built;
        },
        f.not_pending,
      )
]

-- A request that is chosen asks for a block that is missing, and not for one that is on its way. The
-- set keeps its shape, and every other block that is missing stays so.
pub next_missing_block-IsOpen :
    (ps ps' : PieceSet) (index : ℕ) (is_pending : BlockRequest → Bool)
    (found : Result TorrentError (Option BlockRequest))
    → IsWellFormed ps
    → next_missing_block ps index is_pending ≡ (found, ps')
    → IsPrepared ps ps'
      × ((r : BlockRequest) → IsOpen ps r → IsOpen ps' r)
      × ((r : BlockRequest) → found ≡ ok (some r) → IsOpen ps' r × (is_pending r ≡ false))
unfolding next_missing_block
next_missing_block-IsOpen ps ps' index is_pending found v e =
    elim (Result-cases (prepare ps index)) [
      | inr (failure, failed) ↦
          let same : (found ≡ err failure) × (ps ≡ ps') = ground (arith, failed) in
          (
            subst (IsPrepared ps) (same.1) (IsPrepared-refl ps v),
            (λ r o. subst (λ q. IsOpen q r) (same.1) o),
            (λ r f. cc (f, same.0)),
          )
      | inl (prepared, done) ↦
          let same : (find_missing prepared index is_pending ≡ found) × (prepared ≡ ps') =
            ground (arith, done) in
          let kept = prepare-IsPrepared ps prepared index v done in
          (
            subst (IsPrepared ps) (same.1) kept,
            (λ r o. subst (λ q. IsOpen q r) (same.1) (IsOpen-prepared ps prepared r v kept o)),
            (λ r f.
                subst (λ q. IsOpen q r × (is_pending r ≡ false)) (same.1)
                  (find_missing-IsOpen prepared index is_pending r kept.well_formed (same.0 ∙ f))),
          )
    ]
