-- ===== src/Torrent/PieceSet/Missing.antt =====
-- torrent/pieces.go: the blocks that a set lacks, and that `prepare` leaves them as they are.
use mole_swarm.Base.{
  ℕ, ◌/◌, ◌≡◌, ◌≢◌, ◌↔◌, ◌⊎◌, refl, ap, sym, ◌∙◌, true, false, none, some, arith, ◌==◌, get_elem?,
  set, replicate, get_elem?-set_self, get_elem?-set_ne, get_elem?-replicate_lt, lt_of_get_elem?,
  Bool-cases, inl, inr, ok, ok-injective,
}
use mole_swarm.Protocol.Message.{BlockRequest}
use mole_swarm.Torrent.Piece.{is_nil}
use mole_swarm.Torrent.PieceSet.{
  PieceData, PieceSet, is_complete, piece_length, block_count, block_size, block_request,
  with_state, fresh_data, prepare_state, prepare,
}
use mole_swarm.Torrent.PieceSet.WellFormed.{
  IsWellFormed, IsPrepared, prepare-IsPrepared, block_request-with_state,
}
use mole_swarm.Torrent.PieceSet.Open.{
  IsOpen, block_request-IsBuilt, IsPieceState-filling, piece_length-IsU32,
}
use mole_swarm.Torrent.PieceSet.Stored.{prepare-IsOpen}

-- A block that the set lacks: its piece is not complete, and has no data yet or not this block.
pub record IsMissing (ps : PieceSet) (r : BlockRequest) : Type 0 where
  pub state : PieceData
  pub at_index : get_elem? ps.states r.piece_index ≡ some state
  pub incomplete : state.complete ≡ false
  pub lacks :
      (state.content ≡ none) ⊎ (get_elem? state.received (r.begin / block_size) ≡ some false)
  pub requested : block_request ps r.piece_index r.begin ≡ ok r

pub IsOpen-IsMissing :
    (ps : PieceSet) (r : BlockRequest) → IsWellFormed ps → IsOpen ps r → IsMissing ps r
IsOpen-IsMissing ps r v o =
    let (d, has, open_piece, size, count) =
      IsPieceState-filling (r.begin / block_size) false (v r.piece_index o.state o.at_index)
        o.unset in
    record {
      state = o.state;
      at_index = o.at_index;
      incomplete = open_piece;
      lacks = inr o.unset;
      requested = o.requested;
    }

-- Another piece is as it was.
pub IsMissing-with_state :
    (ps : PieceSet) (j : ℕ) (q : PieceData) (s : BlockRequest)
    → j ≢ s.piece_index
    → IsMissing ps s ↔ IsMissing (with_state ps j q) s
IsMissing-with_state ps j q s apart =
    let same = get_elem?-set_ne ps.states j s.piece_index q apart in
    let made = block_request-with_state ps j q s.piece_index s.begin in
    (
      (λ m. record {
        state = m.state;
        at_index = same ∙ m.at_index;
        incomplete = m.incomplete;
        lacks = m.lacks;
        requested = made ∙ m.requested;
      }),
      (λ m. record {
        state = m.state;
        at_index = sym same ∙ m.at_index;
        incomplete = m.incomplete;
        lacks = m.lacks;
        requested = sym made ∙ m.requested;
      }),
    )

-- The flag of a block that can be asked for stands among the flags of a fresh piece.
fresh_flag :
    (ps : PieceSet) (s : BlockRequest) (len : ℕ)
    → piece_length ps s.piece_index ≡ ok len
    → block_request ps s.piece_index s.begin ≡ ok s
    → get_elem? (replicate (block_count len) false) (s.begin / block_size) ≡ some false
unfolding block_count
fresh_flag ps s len size made =
    let b = block_request-IsBuilt ps s.piece_index s.begin s made in
    let same : b.piece_len ≡ len = ok-injective (sym b.piece_size ∙ size) in
    let small = piece_length-IsU32 ps s.piece_index len size in
    get_elem?-replicate_lt (block_count len) (s.begin / block_size) false
      (omega (arith, b.within_piece, b.len_positive, same, small))

-- A piece without data lacks the same blocks once its data are made.
IsMissing-fresh_data :
    (ps : PieceSet) (j len : ℕ) (p : PieceData) (s : BlockRequest)
    → get_elem? ps.states j ≡ some p
    → p.complete ≡ false
    → p.content ≡ none
    → piece_length ps j ≡ ok len
    → IsMissing ps s ↔ IsMissing (with_state ps j (fresh_data len)) s
IsMissing-fresh_data ps j len p s found incomplete no_content size =
    elim (Bool-cases (j == s.piece_index)) [
      | inr other ↦ IsMissing-with_state ps j (fresh_data len) s (λ e. ground (arith, e))
      | inl same ↦
          let same_piece : j ≡ s.piece_index = ground arith in
          let made = block_request-with_state ps j (fresh_data len) s.piece_index s.begin in
          (
            (λ m. record {
              state = fresh_data len;
              at_index =
                  ap (get_elem? (set ps.states j (fresh_data len))) (sym same_piece)
                  ∙ get_elem?-set_self ps.states j (fresh_data len)
                      (lt_of_get_elem? ps.states j found);
              incomplete = refl;
              lacks =
                  inr (
                    fresh_flag ps s len (ap (piece_length ps) (sym same_piece) ∙ size) m.requested);
              requested = made ∙ m.requested;
            }),
            (λ m. record {
              state = p;
              at_index = ap (get_elem? ps.states) (sym same_piece) ∙ found;
              incomplete = incomplete;
              lacks = inl no_content;
              requested = sym made ∙ m.requested;
            }),
          )
    ]

-- `prepare` before a block of a piece: it lacks what the set lacked, and is ready for the block.
pub record IsReady (before : PieceSet) (r : BlockRequest) (after : PieceSet) : Type 0 where
  pub prepared : prepare before r.piece_index ≡ ok after
  pub well_formed : IsWellFormed after
  pub is_open : IsOpen after r
  pub same_missing : (s : BlockRequest) → IsMissing before s ↔ IsMissing after s

prepare_fresh :
    (ps : PieceSet) (j len : ℕ) (p : PieceData)
    → get_elem? ps.states j ≡ some p
    → p.complete ≡ false
    → p.content ≡ none
    → piece_length ps j ≡ ok len
    → prepare ps j ≡ ok (with_state ps j (fresh_data len))
unfolding prepare prepare_state is_complete
prepare_fresh ps j len p found incomplete no_content size =
    let lacks : is_nil p.content ≡ true = ap is_nil no_content in
    ground (arith, found, incomplete, lacks, size)

pub prepare-IsReady :
    (ps : PieceSet) (r : BlockRequest)
    → IsWellFormed ps
    → IsMissing ps r
    → (after : PieceSet) × IsReady ps r after
prepare-IsReady ps r v m = elim m.lacks [
  | inr unset ↦
      let o : IsOpen ps r = record {
        state = m.state;
        at_index = m.at_index;
        unset = unset;
        requested = m.requested;
      } in
      (
        ps,
        record {
          prepared = prepare-IsOpen ps r v o;
          well_formed = v;
          is_open = o;
          same_missing = λ s. ((λ n. n), λ n. n);
        },
      )
  | inl no_content ↦
      let b = block_request-IsBuilt ps r.piece_index r.begin r m.requested in
      let made =
        prepare_fresh ps r.piece_index b.piece_len m.state m.at_index m.incomplete no_content
          b.piece_size in
      (
        with_state ps r.piece_index (fresh_data b.piece_len),
        record {
          prepared = made;
          well_formed = IsPrepared.well_formed (prepare-IsPrepared ps _ r.piece_index v made);
          is_open = record {
            state = fresh_data b.piece_len;
            at_index =
                get_elem?-set_self ps.states r.piece_index (fresh_data b.piece_len)
                  (lt_of_get_elem? ps.states r.piece_index m.at_index);
            unset = fresh_flag ps r b.piece_len b.piece_size m.requested;
            requested =
                block_request-with_state ps r.piece_index (fresh_data b.piece_len) r.piece_index
                  r.begin
                ∙ m.requested;
          };
          same_missing = λ s.
              IsMissing-fresh_data ps r.piece_index b.piece_len m.state s m.at_index m.incomplete
                no_content b.piece_size;
        },
      )
]
