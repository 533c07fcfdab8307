-- ===== src/Torrent/Piece/Tests.antt =====
-- torrent/piece.go at a piece of three bytes in blocks of two.
use mole_swarm.Base.{
  ℕ, ◌*◌, ◌≡◌, inr, refl, Bool, true, false, Option, none, some, List, [], ◌∷◌, arith, write_at, ok,
}
use mole_swarm.Base.Bytes.{Bytes}
use mole_swarm.Torrent.Piece.{
  Piece, PieceState, missing, receiving, assembled, finalizing, complete, new_piece, prepare,
  accept_block, finish_block, store_block, request_length_for, all_blocks_received, all_set,
  take_for_finalization, mark_complete, reject, restore, is_complete, mark_existing_complete,
}
use mole_swarm.Torrent.Piece.Assembly.{block_of, prepare-IsAssembling}
use mole_swarm.Torrent.Piece.Delivery.{
  Receives, prepared, accepted, assembled-content, accept_block_missing,
}
use mole_swarm.Torrent.Piece.States.{
  prepares, rechecks, Reaches, none_yet, one_more, result-applied_once,
  restore-take_for_finalization, complete-Reaches,
}

abbrev content : Bytes
content = 5 ∷ 6 ∷ 7 ∷ []

abbrev at_generation : ℕ → PieceState → Option Bytes → List Bool → Piece
at_generation g state buffer flags = record {
  state = state;
  generation = g;
  buffer = buffer;
  received_blocks = flags;
}

abbrev empty_piece : Piece
empty_piece = at_generation 1 receiving (some (0 ∷ 0 ∷ 0 ∷ [])) (false ∷ false ∷ [])

abbrev half_piece : Piece
half_piece = at_generation 1 receiving (some (0 ∷ 0 ∷ 7 ∷ [])) (false ∷ true ∷ [])

abbrev whole_piece : Piece
whole_piece = at_generation 1 assembled (some content) []

abbrev away : Piece
away = at_generation 1 finalizing none []

first_step : prepare new_piece 3 2 ≡ ok empty_piece
unfolding prepare
first_step = refl

last_block : accept_block empty_piece 2 (block_of content 2 2) 2 ≡ ok (half_piece, false)
unfolding accept_block store_block request_length_for all_blocks_received all_set write_at
last_block = refl

first_block : accept_block half_piece 0 (block_of content 0 2) 2 ≡ ok (whole_piece, true)
unfolding accept_block store_block request_length_for all_blocks_received all_set write_at
first_block = refl

received : Receives content 2 whole_piece
received =
    accepted half_piece whole_piece 0 true
      (accepted empty_piece half_piece 2 false (prepared new_piece empty_piece first_step)
        last_block)
      first_block

assembled-content_example : whole_piece.buffer ≡ some content
assembled-content_example = assembled-content content 2 whole_piece (omega arith) received refl

accept_block_missing_example :
    accept_block empty_piece (1 * 2) (block_of content (1 * 2) 2) 2
    ≡ ok (finish_block (store_block empty_piece (1 * 2) (block_of content (1 * 2) 2) 2))
accept_block_missing_example =
    accept_block_missing content 2 empty_piece 1
      (prepare-IsAssembling new_piece empty_piece content 2 first_step) (omega arith) (omega arith)
      (omega arith) refl

taken : take_for_finalization whole_piece ≡ ok (content, 1, away)
unfolding take_for_finalization
taken = refl

restore-take_for_finalization_example : restore away 1 (some content) ≡ (whole_piece, true)
restore-take_for_finalization_example =
    restore-take_for_finalization whole_piece away content 1 taken

abbrev rejected : Piece
rejected = at_generation 1 missing none []

abbrev again : Piece
again = at_generation 2 receiving (some (0 ∷ [])) (false ∷ [])

was_rejected : reject away 1 ≡ (rejected, true)
unfolding reject
was_rejected = refl

prepared_again : prepare rejected 1 1 ≡ ok again
unfolding prepare
prepared_again = refl

result-applied_once_example :
    (mark_complete again 1 ≡ (again, false))
    × (reject again 1 ≡ (again, false))
    × (restore again 1 (some content) ≡ (again, false))
result-applied_once_example =
    result-applied_once away rejected again 1 (some content) (inr was_rejected)
      (one_more rejected again none_yet (prepares rejected again 1 1 (omega arith) prepared_again))

abbrev finished : Piece
finished = at_generation 1 complete none []

finished-is_complete : is_complete finished ≡ true
unfolding is_complete
finished-is_complete = refl

rechecked : Reaches finished (mark_existing_complete finished)
rechecked = one_more finished (mark_existing_complete finished) none_yet (rechecks finished)

complete-Reaches_example : is_complete (mark_existing_complete finished) ≡ true
complete-Reaches_example =
    complete-Reaches finished (mark_existing_complete finished) finished-is_complete rechecked
