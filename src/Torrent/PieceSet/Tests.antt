-- ===== src/Torrent/PieceSet/Tests.antt =====
-- torrent/pieces.go at three bytes in pieces of two.
use mole_swarm.Base.{◌≡◌, refl, Bool, [], ◌∷◌, arith, inl, ok}
use mole_swarm.Base.Int.{pos}
use mole_swarm.Protocol.Message.{BlockRequest}
use mole_swarm.Protocol.Metainfo.{Info}
use mole_swarm.Torrent.PieceSet.{PieceSet, new_piece_set, no_data, block_request, store_block}
use mole_swarm.Torrent.PieceSet.WellFormed.{IsWellFormed}
use mole_swarm.Torrent.PieceSet.Missing.{IsMissing}
use mole_swarm.Torrent.PieceSet.Stored.{new_piece_set-IsWellFormed}
use mole_swarm.Torrent.PieceSet.Refinement.{Removes, store_block-Removes}

abbrev info : Info
info = record {
  name = [];
  len = pos 3;
  piece_length = pos 2;
  piece_hashes = (2 ∷ 7 ∷ []) ∷ (1 ∷ 4 ∷ []) ∷ [];
}

abbrev fresh : PieceSet
fresh = record { info = info; states = no_data ∷ no_data ∷ [] }

made : new_piece_set info ≡ ok fresh
unfolding new_piece_set
made = refl

abbrev first_block : BlockRequest
first_block = record { piece_index = 0; begin = 0; len = 2 }

fresh-IsWellFormed : IsWellFormed fresh
fresh-IsWellFormed = new_piece_set-IsWellFormed info fresh made

first_block-IsMissing : IsMissing fresh first_block
unfolding block_request
first_block-IsMissing = record {
  state = no_data;
  at_index = refl;
  incomplete = refl;
  lacks = inl refl;
  requested = refl;
}

store_block-Removes_example :
    (assembled : Bool) × ((store_block fresh first_block (7 ∷ 9 ∷ [])).0 ≡ ok assembled)
    × IsWellFormed (store_block fresh first_block (7 ∷ 9 ∷ [])).1
    × Removes fresh first_block (store_block fresh first_block (7 ∷ 9 ∷ [])).1
store_block-Removes_example =
    store_block-Removes fresh first_block (7 ∷ 9 ∷ []) fresh-IsWellFormed first_block-IsMissing refl
      (omega arith)
