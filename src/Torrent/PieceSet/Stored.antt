-- ===== src/Torrent/PieceSet/Stored.antt =====
-- torrent/pieces.go: what a block that is delivered and the check of a piece do to the pieces.
use mole_swarm.Base.{
  ℕ, zero, suc, ◌+◌, ◌/◌, ◌%◌, ◌^◌, ◌≤◌, ◌<◌, ◌≡◌, ◌≢◌, ap, sym, subst, ◌∙◌, Bool, true, false,
  none, some, List, [], ◌∷◌, arith, leb, ◌==◌, length, get_elem?, set, write_at, lt_of_get_elem?,
  get_elem?-set_ne, get_elem?-set_self, length-set, length-write_at, get_elem?-replicate, replicate,
  Bool-cases, Option-cases, Result-cases, inl, inr, Result, ok, ok-injective,
}
use mole_swarm.Base.Bytes.{Bytes}
use mole_swarm.Protocol.Message.{BlockRequest}
use mole_swarm.Protocol.Metainfo.{Info, verify_piece}
use mole_swarm.Torrent.Piece.{TorrentError, is_nil, bytes_of, all_set}
use mole_swarm.Torrent.FileStorage.{Disk, nat_of, expected_count, same_request}
use mole_swarm.Torrent.PieceSet.{
  PieceData, PieceSet, no_data, new_piece_set, is_complete, piece_length, piece_offset, block_count,
  block_size, block_request, prepare_state, prepare, filled, fill_block, check_block, store_block,
  with_state, all_blocks_received,
}
use mole_swarm.Torrent.PieceSet.Content.{write_piece, verify_and_write_state, verify_and_write}
use mole_swarm.Torrent.PieceSet.WellFormed.{
  IsPieceState, idle, filling, IsWellFormed, with_state-IsWellFormed, block_request-with_state,
}
use mole_swarm.Torrent.PieceSet.Open.{IsOpen, block_request-IsBuilt, IsPieceState-filling}

pub new_piece_set-IsWellFormed :
    (info : Info) (ps : PieceSet) → new_piece_set info ≡ ok ps → IsWellFormed ps
unfolding new_piece_set
new_piece_set-IsWellFormed info ps e i p found =
    let count = expected_count (nat_of info.len) (nat_of info.piece_length) in
    let same : record { info = info; states = replicate count no_data } ≡ ps = ground (arith, e) in
    let at_start : get_elem? (replicate count no_data) i ≡ some p =
      ap (λ q. get_elem? q.states i) same ∙ found in
    subst (IsPieceState (piece_length ps i)) (sym (get_elem?-replicate count i no_data at_start))
      (idle false)

same_request_refl : (r : BlockRequest) → same_request r r ≡ true
same_request_refl r = ground arith

-- A block that fits the piece's data.
filled-IsPieceState :
    {l : Result TorrentError ℕ} {p : PieceData} {b : Bool} (begin : ℕ) (bytes : Bytes)
    → IsPieceState l p
    → get_elem? p.received (begin / block_size) ≡ some b
    → begin + length bytes ≤ length (bytes_of p.content)
    → IsPieceState l (filled p begin bytes)
filled-IsPieceState begin bytes (idle c) unset fits = cc
filled-IsPieceState begin bytes (filling d flags size count) unset fits =
    let same = length-write_at d begin bytes fits in
    filling (write_at d begin bytes) (set flags (begin / block_size) true) (size ∙ ap ok (sym same))
      (length-set flags (begin / block_size) true ∙ count ∙ ap block_count (sym same))

pub IsOpen-fits :
    (ps : PieceSet) (r : BlockRequest) (bytes : Bytes) (v : IsWellFormed ps) (o : IsOpen ps r)
    → length bytes ≡ r.len
    → r.begin + length bytes ≤ length (bytes_of o.state.content)
IsOpen-fits ps r bytes v o e =
    let (d, has, open_piece, size, count) =
      IsPieceState-filling (r.begin / block_size) false (v r.piece_index o.state o.at_index)
        o.unset in
    let b = block_request-IsBuilt ps r.piece_index r.begin r o.requested in
    let same : b.piece_len ≡ length d = ok-injective (sym b.piece_size ∙ size) in
    omega (arith, b.within_piece, same, e, ap (λ c. length (bytes_of c)) has)

pub check_block-requested :
    (ps : PieceSet) (r : BlockRequest) (bytes : Bytes)
    → block_request ps r.piece_index r.begin ≡ ok r
    → length bytes ≡ r.len
    → length bytes < 2 ^ 32
    → check_block ps r bytes ≡ ok tt
unfolding check_block
check_block-requested ps r bytes requested e lt =
    rw requested (ground (arith, same_request_refl r, e))

pub prepare-IsOpen :
    (ps : PieceSet) (r : BlockRequest)
    → IsWellFormed ps
    → IsOpen ps r
    → prepare ps r.piece_index ≡ ok ps
unfolding prepare prepare_state is_complete
prepare-IsOpen ps r v o =
    let (d, has, open_piece, size, count) =
      IsPieceState-filling (r.begin / block_size) false (v r.piece_index o.state o.at_index)
        o.unset in
    let lacks : is_nil o.state.content ≡ false = ap is_nil has in
    ground (arith, o.at_index, open_piece, lacks)

pub fill_block-IsOpen :
    (ps : PieceSet) (r : BlockRequest) (bytes : Bytes) (o : IsOpen ps r)
    → r.begin + length bytes ≤ length (bytes_of o.state.content)
    → fill_block ps r bytes ≡ (
      ok (all_blocks_received (filled o.state r.begin bytes)),
      with_state ps r.piece_index (filled o.state r.begin bytes),
    )
unfolding fill_block
fill_block-IsOpen ps r bytes o fits = ground (arith, o.at_index, o.unset)

-- The block of an open request is stored: there is no error and no panic.
pub store_block-IsOpen :
    (ps : PieceSet) (r : BlockRequest) (bytes : Bytes) (v : IsWellFormed ps) (o : IsOpen ps r)
    → length bytes ≡ r.len
    → length bytes < 2 ^ 32
    → store_block ps r bytes ≡ (
      ok (all_blocks_received (filled o.state r.begin bytes)),
      with_state ps r.piece_index (filled o.state r.begin bytes),
    )
unfolding store_block
store_block-IsOpen ps r bytes v o e lt = ground (
  arith,
  check_block-requested ps r bytes o.requested e lt,
  prepare-IsOpen ps r v o,
  fill_block-IsOpen ps r bytes o (IsOpen-fits ps r bytes v o e),
)

pub store_block-IsWellFormed :
    (ps : PieceSet) (r : BlockRequest) (bytes : Bytes) (v : IsWellFormed ps) (o : IsOpen ps r)
    → length bytes ≡ r.len
    → IsWellFormed (with_state ps r.piece_index (filled o.state r.begin bytes))
store_block-IsWellFormed ps r bytes v o e =
    with_state-IsWellFormed ps r.piece_index (filled o.state r.begin bytes) v (
      filled-IsPieceState r.begin bytes (v r.piece_index o.state o.at_index) o.unset
        (IsOpen-fits ps r bytes v o e))

-- Two requests for blocks of one piece that can be built and fall on one flag are one request.
IsOpen-apart :
    (ps : PieceSet) (r s : BlockRequest)
    → IsOpen ps r
    → IsOpen ps s
    → s ≢ r
    → r.piece_index ≡ s.piece_index
    → r.begin / block_size ≢ s.begin / block_size
IsOpen-apart ps r s o u apart same_piece same_flag =
    let b = block_request-IsBuilt ps r.piece_index r.begin r o.requested in
    let c = block_request-IsBuilt ps s.piece_index s.begin s u.requested in
    let same_begin : r.begin ≡ s.begin = omega (arith, b.aligned, c.aligned, same_flag) in
    let same : ◌≡◌ {A = Result TorrentError BlockRequest} (ok s) (ok r) =
      cc (o.requested, u.requested, same_piece, same_begin) in
    apart (ok-injective same)

-- The other requests stay open.
pub store_block-keeps :
    (ps : PieceSet) (r s : BlockRequest) (bytes : Bytes) (o : IsOpen ps r)
    → IsOpen ps s
    → s ≢ r
    → IsOpen (with_state ps r.piece_index (filled o.state r.begin bytes)) s
store_block-keeps ps r s bytes o u apart = elim (Bool-cases (r.piece_index == s.piece_index)) [
  | inl same ↦
      let same_piece : r.piece_index ≡ s.piece_index = ground arith in
      let state : o.state ≡ u.state = cc (o.at_index, u.at_index, same_piece) in
      record {
        state = filled o.state r.begin bytes;
        at_index =
            ap (get_elem? (set ps.states r.piece_index (filled o.state r.begin bytes)))
              (sym same_piece)
            ∙ get_elem?-set_self ps.states r.piece_index (filled o.state r.begin bytes)
                (lt_of_get_elem? ps.states r.piece_index o.at_index);
        unset =
            get_elem?-set_ne o.state.received (r.begin / block_size) (s.begin / block_size) true
              (IsOpen-apart ps r s o u apart same_piece)
            ∙ ap (λ p. get_elem? p.received (s.begin / block_size)) state
            ∙ u.unset;
        requested =
            block_request-with_state ps r.piece_index (filled o.state r.begin bytes) s.piece_index
              s.begin
            ∙ u.requested;
      }
  | inr other ↦ record {
    state = u.state;
    at_index =
        get_elem?-set_ne ps.states r.piece_index s.piece_index (filled o.state r.begin bytes)
          (λ e. ground (arith, e))
        ∙ u.at_index;
    unset = u.unset;
    requested =
        block_request-with_state ps r.piece_index (filled o.state r.begin bytes) s.piece_index
          s.begin
        ∙ u.requested;
  }
]

all_set-get_elem? :
    (flags : List Bool) (k : ℕ) → all_set flags ≡ true → get_elem? flags k ≢ some false
unfolding all_set
all_set-get_elem? [] k h e = cc
all_set-get_elem? (b ∷ flags) zero h e = ground arith
all_set-get_elem? (b ∷ flags) (suc k) h e = all_set-get_elem? flags k (ground arith) e

-- The set after the check of a piece: the same, or that piece has neither data nor flags any more.
pub data IsChecked (ps : PieceSet) (index : ℕ) : PieceSet → Type 0 where
  unchanged : IsChecked ps index ps
  cleared :
      (p : PieceData) (c : Bool)
      → get_elem? ps.states index ≡ some p
      → all_blocks_received p ≡ true
      → IsChecked ps index
          (with_state ps index (record { complete = c; content = none; received = [] }))

module _ (sha1 : Bytes → Bytes) (disk : Disk) where
  write_piece-IsChecked :
      (ps : PieceSet) (index : ℕ) (p : PieceData) (offset : ℕ) (file : disk.File)
      → get_elem? ps.states index ≡ some p
      → all_blocks_received p ≡ true
      → IsChecked ps index (write_piece sha1 disk ps index p offset file).1
  unfolding write_piece
  write_piece-IsChecked ps index p offset file found all =
      elim (Option-cases ((disk.write_at_file file (bytes_of p.content) offset).1)) [
        | inl failed ↦ rw (failed, write_piece) unchanged
        | inr (n, written) ↦ elim (Bool-cases (n == length (bytes_of p.content))) [
          | inl full ↦ rw (written, full, write_piece) (cleared p true found all)
          | inr short ↦ rw (written, short, write_piece) unchanged
        ]
      ]

  verify_and_write_state-IsChecked :
      (ps : PieceSet) (index : ℕ) (p : PieceData) (file : disk.File)
      → get_elem? ps.states index ≡ some p
      → IsChecked ps index (verify_and_write_state sha1 disk ps index p file).1
  unfolding verify_and_write_state
  verify_and_write_state-IsChecked ps index p file found =
      elim (Bool-cases (all_blocks_received p)) [
        | inr lacks ↦ rw lacks unchanged
        | inl all ↦
            elim (Bool-cases (
              verify_piece sha1 (bytes_of p.content)
                (bytes_of (get_elem? ps.info.piece_hashes index)))) [
                  | inr corrupt ↦ rw (all, corrupt) (cleared p p.complete found all)
                  | inl intact ↦ elim (Result-cases (piece_offset ps index)) [
                    | inl (offset, at_offset) ↦
                        rw (all, intact, at_offset)
                          (write_piece-IsChecked ps index p offset file found all)
                    | inr (e, outside) ↦ rw (all, intact, outside) unchanged
                  ]
                ]
      ]

  pub verify_and_write-IsChecked :
      (ps : PieceSet) (index : ℕ) (file : disk.File)
      → IsChecked ps index (verify_and_write sha1 disk ps index file).1
  unfolding verify_and_write
  verify_and_write-IsChecked ps index file =
      elim (Bool-cases (leb (length ps.states % 2 ^ 32) index)) [
        | inl outside ↦ rw outside unchanged
        | inr inside ↦ elim (Option-cases (get_elem? ps.states index)) [
          | inl absent ↦ rw (inside, absent) unchanged
          | inr (p, present) ↦
              rw (inside, present) (verify_and_write_state-IsChecked ps index p file present)
        ]
      ]

all_blocks_received-all_set :
    (p : PieceData) → all_blocks_received p ≡ true → all_set p.received ≡ true
unfolding all_blocks_received
all_blocks_received-all_set p h = ground arith

pub IsChecked-IsWellFormed :
    {ps ps' : PieceSet} {index : ℕ} → IsChecked ps index ps' → IsWellFormed ps → IsWellFormed ps'
IsChecked-IsWellFormed unchanged v = v
IsChecked-IsWellFormed {ps} {index = index} (cleared p c found all) v =
    with_state-IsWellFormed ps index (record { complete = c; content = none; received = [] }) v
      (idle c)

-- A piece with a missing block is not checked.
pub IsChecked-IsOpen :
    {ps ps' : PieceSet} {index : ℕ} (r : BlockRequest)
    → IsChecked ps index ps'
    → IsOpen ps r
    → IsOpen ps' r
IsChecked-IsOpen r unchanged o = o
IsChecked-IsOpen {ps} {index = index} r (cleared p c found all) o =
    let q : PieceData = record { complete = c; content = none; received = [] } in
    let apart : index ≢ r.piece_index = λ e.
      let same : p ≡ o.state = cc (found, o.at_index, e) in
      all_set-get_elem? p.received (r.begin / block_size) (all_blocks_received-all_set p all)
        (cc (o.unset, same)) in
    record {
      state = o.state;
      at_index = get_elem?-set_ne ps.states index r.piece_index q apart ∙ o.at_index;
      unset = o.unset;
      requested = block_request-with_state ps index q r.piece_index r.begin ∙ o.requested;
    }
