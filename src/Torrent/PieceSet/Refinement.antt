-- ===== src/Torrent/PieceSet/Refinement.antt =====
-- torrent/pieces.go: the pieces seen as the set of the blocks that they lack.
use mole_swarm.Base.{
  ◌/◌, ◌^◌, ◌<◌, ◌≡◌, ◌≢◌, ◌↔◌, ap, sym, subst, ◌∙◌, Bool, true, false, none, some, arith, ◌==◌,
  length, get_elem?, set, get_elem?-set_self, get_elem?-set_ne, lt_of_get_elem?, Bool-cases, inl,
  inr, ok,
}
use mole_swarm.Base.Bytes.{Bytes}
use mole_swarm.Protocol.Message.{BlockRequest}
use mole_swarm.Torrent.PieceSet.{
  PieceData, PieceSet, block_size, block_request, filled, with_state, all_blocks_received,
  store_block,
}
use mole_swarm.Torrent.PieceSet.WellFormed.{IsWellFormed, block_request-with_state}
use mole_swarm.Torrent.PieceSet.Open.{IsOpen, IsPieceState-filling}
use mole_swarm.Torrent.PieceSet.Stored.{
  IsOpen-fits, check_block-requested, fill_block-IsOpen, store_block-IsWellFormed,
  store_block-keeps,
}
use mole_swarm.Torrent.PieceSet.Missing.{
  IsMissing, IsReady, IsOpen-IsMissing, IsMissing-with_state, prepare-IsReady,
}

store_block-closes :
    (ps : PieceSet) (r s : BlockRequest) (bytes : Bytes) (o : IsOpen ps r)
    → IsOpen (with_state ps r.piece_index (filled o.state r.begin bytes)) s
    → IsOpen ps s × (s ≢ r)
store_block-closes ps r s bytes o u = elim (Bool-cases (r.piece_index == s.piece_index)) [
  | inl same ↦
      let same_piece : r.piece_index ≡ s.piece_index = ground arith in
      let q = filled o.state r.begin bytes in
      let here : get_elem? (set ps.states r.piece_index q) r.piece_index ≡ some q =
        get_elem?-set_self ps.states r.piece_index q
          (lt_of_get_elem? ps.states r.piece_index o.at_index) in
      let state : q ≡ u.state = cc (here, u.at_index, same_piece) in
      let unset : get_elem? (set o.state.received (r.begin / block_size) true)
            (s.begin / block_size)
          ≡ some false =
        ap (λ p. get_elem? p.received (s.begin / block_size)) state ∙ u.unset in
      let apart : r.begin / block_size ≢ s.begin / block_size = λ e. cc (
        unset,
        e,
        get_elem?-set_self o.state.received (r.begin / block_size) true
            (lt_of_get_elem? o.state.received (r.begin / block_size) o.unset),
      ) in
      (
        record {
          state = o.state;
          at_index = ap (get_elem? ps.states) (sym same_piece) ∙ o.at_index;
          unset =
              sym (
                get_elem?-set_ne o.state.received (r.begin / block_size) (s.begin / block_size) true
                  apart)
              ∙ unset;
          requested =
              sym (block_request-with_state ps r.piece_index q s.piece_index s.begin) ∙ u.requested;
        },
        λ e. apart (cc (e)),
      )
  | inr other ↦
      let apart : r.piece_index ≢ s.piece_index = λ e. ground (arith, e) in
      (
        record {
          state = u.state;
          at_index =
              sym (
                get_elem?-set_ne ps.states r.piece_index s.piece_index
                  (filled o.state r.begin bytes) apart)
              ∙ u.at_index;
          unset = u.unset;
          requested =
              sym (
                block_request-with_state ps r.piece_index (filled o.state r.begin bytes)
                  s.piece_index s.begin)
              ∙ u.requested;
        },
        λ e. apart (cc (e)),
      )
]

-- The set of missing blocks without one of them.
abbrev pub Removes : PieceSet → BlockRequest → PieceSet → Type 0
Removes before r after = (s : BlockRequest) → IsMissing after s ↔ (IsMissing before s × (s ≢ r))

-- The piece of an open block has data, so that a piece without data is another one.
idle_apart :
    (ps : PieceSet) (r s : BlockRequest) (o : IsOpen ps r) (p : PieceData)
    → IsWellFormed ps
    → get_elem? ps.states s.piece_index ≡ some p
    → p.content ≡ none
    → r.piece_index ≢ s.piece_index
idle_apart ps r s o p v found no_content same =
    let (d, has, open_piece, size, count) =
      IsPieceState-filling (r.begin / block_size) false (v r.piece_index o.state o.at_index)
        o.unset in
    cc (found, o.at_index, same, has, no_content)

filled_apart :
    (ps : PieceSet) (r s : BlockRequest) (bytes : Bytes) (o : IsOpen ps r) (p : PieceData)
    → get_elem? (set ps.states r.piece_index (filled o.state r.begin bytes)) s.piece_index ≡ some p
    → p.content ≡ none
    → r.piece_index ≢ s.piece_index
filled_apart ps r s bytes o p found no_content same =
    let here =
      get_elem?-set_self ps.states r.piece_index (filled o.state r.begin bytes)
        (lt_of_get_elem? ps.states r.piece_index o.at_index) in
    let state : filled o.state r.begin bytes ≡ p = cc (here, found, same) in
    cc (ap (λ q. q.content) state, no_content)

-- Storing an open block takes it, and no other, from the missing ones.
filled-Removes :
    (ps : PieceSet) (r : BlockRequest) (bytes : Bytes) (o : IsOpen ps r)
    → IsWellFormed ps
    → length bytes ≡ r.len
    → Removes ps r (with_state ps r.piece_index (filled o.state r.begin bytes))
filled-Removes ps r bytes o v size s = (closes, keeps)
  where
    q : PieceData
    q = filled o.state r.begin bytes

    others :
        r.piece_index ≢ s.piece_index → IsMissing ps s ↔ IsMissing (with_state ps r.piece_index q) s
    others = IsMissing-with_state ps r.piece_index q s

    closes : IsMissing (with_state ps r.piece_index q) s → IsMissing ps s × (s ≢ r)
    closes m = elim m.lacks [
      | inl no_content ↦
          let apart = filled_apart ps r s bytes o m.state m.at_index no_content in
          ((others apart).1 m, λ e. apart (ap BlockRequest.piece_index (sym e)))
      | inr unset ↦
          let (u, apart) = store_block-closes ps r s bytes o (record {
            state = m.state;
            at_index = m.at_index;
            unset = unset;
            requested = m.requested;
          }) in
          (IsOpen-IsMissing ps s v u, apart)
    ]

    keeps : IsMissing ps s × (s ≢ r) → IsMissing (with_state ps r.piece_index q) s
    keeps (m, apart) = elim m.lacks [
      | inl no_content ↦ (others (idle_apart ps r s o m.state v m.at_index no_content)).0 m
      | inr unset ↦
          IsOpen-IsMissing (with_state ps r.piece_index q) s
            (store_block-IsWellFormed ps r bytes v o size)
            (store_block-keeps ps r s bytes o
              (record {
                state = m.state;
                at_index = m.at_index;
                unset = unset;
                requested = m.requested;
              })
              apart)
    ]

-- The block is stored in the set that `prepare` has made ready.
store_block-ready :
    (ps ready : PieceSet) (r : BlockRequest) (bytes : Bytes) (i : IsReady ps r ready)
    → block_request ps r.piece_index r.begin ≡ ok r
    → length bytes ≡ r.len
    → length bytes < 2 ^ 32
    → store_block ps r bytes ≡ (
      ok (all_blocks_received (filled i.is_open.state r.begin bytes)),
      with_state ready r.piece_index (filled i.is_open.state r.begin bytes),
    )
unfolding store_block
store_block-ready ps ready r bytes i requested size small = ground (
  arith,
  check_block-requested ps r bytes requested size small,
  i.prepared,
  fill_block-IsOpen ready r bytes i.is_open
      (IsOpen-fits ready r bytes i.well_formed i.is_open size),
)

-- Storing a block that is missing, of the length that is asked for, which is below 2 ^ 32, succeeds in a
-- well-formed set, whether the data of its piece have been made or not, and removes this block, and no
-- other, from the blocks that the set lacks; the set stays well-formed.
pub store_block-Removes :
    (ps : PieceSet) (r : BlockRequest) (bytes : Bytes)
    → IsWellFormed ps
    → IsMissing ps r
    → length bytes ≡ r.len
    → length bytes < 2 ^ 32
    → (assembled : Bool) × ((store_block ps r bytes).0 ≡ ok assembled)
      × IsWellFormed (store_block ps r bytes).1
      × Removes ps r (store_block ps r bytes).1
store_block-Removes ps r bytes v m size small =
    let (ready, i) = prepare-IsReady ps r v m in
    let stored = store_block-ready ps ready r bytes i m.requested size small in
    let removed = filled-Removes ready r bytes i.is_open i.well_formed size in
    (
      all_blocks_received (filled i.is_open.state r.begin bytes),
      ap (λ out. out.0) stored,
      subst IsWellFormed (sym (ap (λ out. out.1) stored))
          (store_block-IsWellFormed ready r bytes i.well_formed i.is_open size),
      subst (Removes ps r) (sym (ap (λ out. out.1) stored)) (λ s. (
        (λ n. let (before, apart) = (removed s).0 n in ((i.same_missing s).1 before, apart)),
        λ (before, apart). (removed s).1 ((i.same_missing s).0 before, apart),
      )),
    )
