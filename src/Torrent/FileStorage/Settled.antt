-- ===== src/Torrent/FileStorage/Settled.antt =====
-- torrent/file.go: what the result of a finalization changes.
use mole_swarm.Base.{
  ℕ, ◌^◌, ◌<◌, ◌≡◌, refl, ap, sym, subst, Bool, true, false, ◌||◌, Option, none, some, [], arith,
  if◌then◌else◌, length, get_elem?, get_elem?-lt, get_elem?-set_self, lt_of_get_elem?,
}
use mole_swarm.Base.Bytes.{Bytes}
use mole_swarm.Torrent.Piece.{
  Piece, PieceState, TorrentError, missing, assembled, finalizing, complete, is_nil, is_state,
  is_stale, mark_complete, reject, restore, piece_hash_mismatch,
}
use mole_swarm.Torrent.FileStorage.{
  Disk, FileStorage, FinalizeResult, piece_at, settle, apply_finalize_result, apply_to,
}
use mole_swarm.Torrent.FileStorage.Changes.{IsUntouched, with_piece-IsUntouched}

-- Where a piece stands after the result of its finalization.
abbrev pub state_after : Option TorrentError → PieceState
state_after none = complete
state_after (some piece_hash_mismatch) = missing
state_after (some _) = assembled

abbrev pub buffer_after : Option TorrentError → Option Bytes → Option Bytes → Option Bytes
buffer_after none held returned = held
buffer_after (some piece_hash_mismatch) held returned = none
buffer_after (some _) held returned = returned

-- A result is in time for a piece that waits for it, in the generation that it was taken in.
pub record IsTimely (p : Piece) (generation : ℕ) : Type 0 where
  pub waits : p.state ≡ finalizing
  pub same_generation : p.generation ≡ generation

-- A result that is applied was in time, and moves the piece on; else the piece stays as it is. A
-- result in time is applied, but for a failure other than the wrong hash that returns no buffer.
pub record Answers (p : Piece) (result : FinalizeResult) (q : Piece) (changed : Bool) : Type 0 where
  pub applied :
      changed ≡ true
      → IsTimely p result.generation
        × (q.state ≡ state_after result.failure)
        × (q.buffer ≡ buffer_after result.failure p.buffer result.buffer)
        × (q.generation ≡ p.generation)
  pub ignored : changed ≡ false → q ≡ p
  pub in_time :
      IsTimely p result.generation
      → (state_after result.failure ≡ assembled → is_nil result.buffer ≡ false)
      → changed ≡ true

is_finalizing : (s : PieceState) → is_state s finalizing ≡ true → s ≡ finalizing
is_finalizing finalizing e = refl
is_finalizing _ e = cc

fresh-IsTimely :
    (p : Piece) (generation : ℕ) → is_stale p generation ≡ false → IsTimely p generation
fresh-IsTimely p generation fresh = record {
  waits = is_finalizing p.state (ground (arith, fresh));
  same_generation = ground (arith, fresh);
}

IsTimely-fresh :
    (p : Piece) (generation : ℕ) → IsTimely p generation → is_stale p generation ≡ false
IsTimely-fresh p generation t = rw (t.waits, t.same_generation) (ground arith)

abbrev guarded : Bool → Piece → Piece → Piece × Bool
guarded guard p q = if guard then (p, false) else (q, true)

-- An operation behind a guard that lets through what is in time.
guarded-Answers :
    (p q : Piece) (result : FinalizeResult) (guard : Bool)
    → (guard ≡ false → IsTimely p result.generation)
    → (IsTimely p result.generation
        → (state_after result.failure ≡ assembled → is_nil result.buffer ≡ false)
        → guard ≡ false)
    → q.state ≡ state_after result.failure
    → q.buffer ≡ buffer_after result.failure p.buffer result.buffer
    → q.generation ≡ p.generation
    → Answers p result (guarded guard p q).0 (guarded guard p q).1
guarded-Answers p q result true h k s b g = record {
  applied = λ c. cc (c);
  ignored = λ c. refl;
  in_time = λ t f. cc (k t f);
}
guarded-Answers p q result false h k s b g = record {
  applied = λ c. (h refl, s, b, g);
  ignored = λ c. cc (c);
  in_time = λ t f. refl;
}

-- A failure other than the wrong hash gives the buffer back.
restore-Answers :
    (p : Piece) (result : FinalizeResult)
    → state_after result.failure ≡ assembled
    → buffer_after result.failure p.buffer result.buffer ≡ result.buffer
    → Answers p result
        (restore p result.generation result.buffer).0
        (restore p result.generation result.buffer).1
unfolding restore
restore-Answers p result s b =
    guarded-Answers p (record p { state = assembled; buffer = result.buffer }) result
      (is_stale p result.generation || is_nil result.buffer)
      (λ fresh. fresh-IsTimely p result.generation (ground (arith, fresh)))
      (λ t has. ground (arith, IsTimely-fresh p result.generation t, has s)) (sym s) (sym b) refl

settle-Answers :
    (p : Piece) (result : FinalizeResult) (failure : Option TorrentError)
    → result.failure ≡ failure
    → Answers p result (settle p result failure).0 (settle p result failure).1
unfolding settle mark_complete reject
settle-Answers p result none e =
    guarded-Answers p (record p { state = complete }) result (is_stale p result.generation)
      (fresh-IsTimely p result.generation) (λ t has. IsTimely-fresh p result.generation t)
      (sym (ap state_after e)) (sym (ap (λ f. buffer_after f p.buffer result.buffer) e)) refl
settle-Answers p result (some piece_hash_mismatch) e =
    guarded-Answers p (record p { state = missing; buffer = none; received_blocks = [] }) result
      (is_stale p result.generation) (fresh-IsTimely p result.generation)
      (λ t has. IsTimely-fresh p result.generation t) (sym (ap state_after e))
      (sym (ap (λ f. buffer_after f p.buffer result.buffer) e)) refl
settle-Answers p result (some _) e =
    restore-Answers p result (ap state_after e) (ap (λ f. buffer_after f p.buffer result.buffer) e)

-- What the result of a finalization makes of the storage.
pub record Applies {disk : Disk} (fs : FileStorage disk) (result : FinalizeResult)
    (after : FileStorage disk) (changed : Bool) : Type 0 where
  pub before : Piece
  pub next : Piece
  pub found : get_elem? fs.pieces result.piece_index ≡ some before
  pub placed : get_elem? after.pieces result.piece_index ≡ some next
  pub answers : Answers before result next changed
  pub others : IsUntouched result.piece_index fs after

piece_at-found :
    {disk : Disk} (fs : FileStorage disk) (index : ℕ) (p : Piece)
    → length fs.pieces < 2 ^ 32
    → index < length fs.pieces
    → get_elem? fs.pieces index ≡ some p
    → piece_at fs index ≡ some p
unfolding piece_at
piece_at-found fs index p small within found = ground (arith, found)

apply_to-Applies :
    {disk : Disk} (fs : FileStorage disk) (result : FinalizeResult) (p : Piece)
    → get_elem? fs.pieces result.piece_index ≡ some p
    → Applies fs result (apply_to fs result (some p)).0 (apply_to fs result (some p)).1
unfolding apply_to
apply_to-Applies fs result p found = record {
  before = p;
  next = (settle p result result.failure).0;
  found = found;
  placed =
      get_elem?-set_self fs.pieces result.piece_index (settle p result result.failure).0
        (lt_of_get_elem? fs.pieces result.piece_index found);
  answers = settle-Answers p result result.failure refl;
  others = with_piece-IsUntouched fs result.piece_index (settle p result result.failure).0;
}

-- A result for one of the pieces, of which there are less than 2 ^ 32, is applied exactly if the piece
-- waits for it in the generation that it was taken in, but for a failure other than the wrong hash that
-- gives no buffer back. It makes the piece complete, missing after the wrong hash, and assembled again
-- after any other failure, with the buffer that this leaves. Else the piece stays as it is; the other
-- pieces and the file always do.
pub apply_finalize_result-Applies :
    {disk : Disk} (fs : FileStorage disk) (result : FinalizeResult)
    → length fs.pieces < 2 ^ 32
    → result.piece_index < length fs.pieces
    → Applies fs result (apply_finalize_result fs result).0 (apply_finalize_result fs result).1
unfolding apply_finalize_result
apply_finalize_result-Applies fs result small within =
    let (p, found) = get_elem?-lt fs.pieces result.piece_index within in
    let here : piece_at fs result.piece_index ≡ some p =
      piece_at-found fs result.piece_index p small within found in
    subst
      (λ (o : Option Piece). Applies fs result (apply_to fs result o).0 (apply_to fs result o).1)
      (sym here) (apply_to-Applies fs result p found)
