-- ===== src/Torrent/PieceSet/WellFormed.antt =====
-- torrent/pieces.go: the shape of the pieces between two operations, and that the operations keep it.
use mole_swarm.Base.{
  ℕ, ◌≡◌, ◌≢◌, refl, ap, sym, subst, ◌∙◌, Bool, false, none, some, List, [], arith, ◌==◌, length,
  get_elem?, set, replicate, get_elem?-set_self, get_elem?-set_ne, lt_of_get_elem?, length-set,
  length-replicate, Bool-cases, Option-cases, inl, inr, Result, ok, ◌>>=◌, >>=-eq-ok, ok-injective,
}
use mole_swarm.Base.Bytes.{Bytes}
use mole_swarm.Torrent.Piece.{TorrentError, is_nil}
use mole_swarm.Torrent.PieceSet.{
  PieceData, PieceSet, is_complete, piece_length, piece_offset, block_count, block_request,
  with_state, fresh_data, prepare_state, prepare,
}

-- A piece has no data, or it lacks blocks or a check: then it is not complete, and its data and its
-- flags are as long as the piece asks.
pub data IsPieceState (len : Result TorrentError ℕ) : PieceData → Type 0 where
  idle : (c : Bool) → IsPieceState len (record { complete = c; content = none; received = [] })
  filling :
      (d : Bytes) (flags : List Bool)
      → len ≡ ok (length d)
      → length flags ≡ block_count (length d)
      → IsPieceState len (record { complete = false; content = some d; received = flags })

abbrev pub IsWellFormed : PieceSet → Type 0
IsWellFormed ps =
    (i : ℕ) (p : PieceData) → get_elem? ps.states i ≡ some p → IsPieceState (piece_length ps i) p

-- The length of a piece is a matter of the description and of the number of pieces.
pub piece_length-same :
    (ps ps' : PieceSet) (i : ℕ)
    → ps'.info ≡ ps.info
    → length ps'.states ≡ length ps.states
    → piece_length ps' i ≡ piece_length ps i
unfolding piece_length piece_offset
piece_length-same ps ps' i same_info same_count = cc (same_info, same_count)

pub piece_length-with_state :
    (ps : PieceSet) (j : ℕ) (q : PieceData) (i : ℕ)
    → piece_length (with_state ps j q) i ≡ piece_length ps i
piece_length-with_state ps j q i =
    piece_length-same ps (with_state ps j q) i refl (length-set ps.states j q)

pub block_request-with_state :
    (ps : PieceSet) (j : ℕ) (q : PieceData) (i begin : ℕ)
    → block_request (with_state ps j q) i begin ≡ block_request ps i begin
unfolding block_request
block_request-with_state ps j q i begin = cc (piece_length-with_state ps j q i)

pub with_state-IsWellFormed :
    (ps : PieceSet) (j : ℕ) (q : PieceData)
    → IsWellFormed ps
    → IsPieceState (piece_length ps j) q
    → IsWellFormed (with_state ps j q)
with_state-IsWellFormed ps j q v w i p found = elim (Bool-cases (j == i)) [
  | inl same ↦
      let index : j ≡ i = ground arith in
      let here : get_elem? (set ps.states j q) j ≡ some q = get_elem?-set_self ps.states j q (
        omega
          (arith, length-set ps.states j q, lt_of_get_elem? (set ps.states j q) i found, index)) in
      let value : q ≡ p = cc (here, index, found) in
      subst (IsPieceState (piece_length (with_state ps j q) i)) value
        (subst (λ l. IsPieceState l q) (cc (piece_length-with_state ps j q i, index)) w)
  | inr other ↦
      let apart : j ≢ i = λ e. ground (arith, e) in
      subst (λ l. IsPieceState l p) (sym (piece_length-with_state ps j q i))
        (v i p (sym (get_elem?-set_ne ps.states j i q apart) ∙ found))
]

fresh_data-IsPieceState :
    (l : Result TorrentError ℕ) (len : ℕ) → l ≡ ok len → IsPieceState l (fresh_data len)
fresh_data-IsPieceState l len e =
    filling (replicate len 0) (replicate (block_count len) false)
      (e ∙ ap ok (sym (length-replicate len 0)))
      (length-replicate (block_count len) false ∙ ap block_count (sym (length-replicate len 0)))

-- A set with the states of another one, but for pieces that had no data.
pub record IsPrepared (before after : PieceSet) : Type 0 where
  pub well_formed : IsWellFormed after
  pub same_info : after.info ≡ before.info
  pub same_count : length after.states ≡ length before.states
  pub keeps :
      (i : ℕ) (p : PieceData)
      → get_elem? before.states i ≡ some p
      → is_nil p.content ≡ false
      → get_elem? after.states i ≡ some p

pub IsPrepared-refl : (ps : PieceSet) → IsWellFormed ps → IsPrepared ps ps
IsPrepared-refl ps v = record {
  well_formed = v;
  same_info = refl;
  same_count = refl;
  keeps = λ i p e h. e;
}

prepare_state-IsPrepared :
    (ps out : PieceSet) (j : ℕ) (p : PieceData)
    → IsWellFormed ps
    → get_elem? ps.states j ≡ some p
    → prepare_state ps j p ≡ ok out
    → IsPrepared ps out
unfolding prepare_state
prepare_state-IsPrepared ps out j p v found e = elim (Bool-cases (is_nil p.content)) [
  | inr has ↦ subst (IsPrepared ps) (ground arith) (IsPrepared-refl ps v)
  | inl lacks ↦
      let rest : (piece_length ps j >>= λ len. ok (with_state ps j (fresh_data len))) ≡ ok out =
        ground arith in
      let (len, size, made) = >>=-eq-ok (piece_length ps j) _ rest in
      subst (IsPrepared ps) (ok-injective made) (record {
        well_formed =
            with_state-IsWellFormed ps j (fresh_data len) v
              (fresh_data-IsPieceState (piece_length ps j) len size);
        same_info = refl;
        same_count = length-set ps.states j (fresh_data len);
        keeps = λ i q at_i has.
            get_elem?-set_ne ps.states j i (fresh_data len)
              (λ same. cc (same, at_i, found, has, lacks))
            ∙ at_i;
      })
]

pub prepare-IsPrepared :
    (ps out : PieceSet) (j : ℕ) → IsWellFormed ps → prepare ps j ≡ ok out → IsPrepared ps out
unfolding prepare
prepare-IsPrepared ps out j v e = elim (Bool-cases (is_complete ps j)) [
  | inl done ↦ subst (IsPrepared ps) (ground arith) (IsPrepared-refl ps v)
  | inr open_piece ↦ elim (Option-cases (get_elem? ps.states j)) [
    | inl absent ↦ absurd (ground (arith, absent))
    | inr (p, present) ↦ prepare_state-IsPrepared ps out j p v present (ground (arith, present))
  ]
]
