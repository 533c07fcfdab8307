-- ===== src/Torrent/Session/Delivery.antt =====
-- torrent/transfer.go: a block that was taken in is not taken in again.
use mole_swarm.Base.{
  ℕ, ◌+◌, ◌%◌, ◌^◌, ◌<◌, ◌≡◌, refl, sym, subst, Bool, true, false, not, none, some, arith, length,
  if◌then◌else◌, Option-cases, inl, inr, Result, ok, err,
}
use mole_swarm.Base.Bytes.{Bytes}
use mole_swarm.Base.State.{Runs, Runs-bind, Runs-pure, pure, modify, ◌>>◌, Post}
use mole_swarm.Protocol.Message.{BlockRequest}
use mole_swarm.Torrent.Piece.{TorrentError, unexpected_block}
use mole_swarm.Torrent.PieceSet.{PieceSet, store_block}
use mole_swarm.Torrent.PieceSet.Stored.{store_block-IsOpen}
use mole_swarm.Torrent.Session.{World, Session, on_pieces}
use mole_swarm.Torrent.Session.Pending.{
  Pending, assigned_peer, drop_request, assigned_peer-drop_request,
}
use mole_swarm.Torrent.Session.Transfer.{
  is_assigned, delivered_request, verify_piece_at, receive_block,
}
use mole_swarm.Torrent.Session.Sound.{IsSound}
use mole_swarm.Torrent.Session.Sound.Blocks.{is_assigned-some}

assigned_peer-dropped : (m : Pending) (r : BlockRequest) → assigned_peer (drop_request m r) r ≡ none
assigned_peer-dropped m r = elim (Option-cases (assigned_peer (drop_request m r) r)) [
  | inl absent ↦ absent
  | inr (k, present) ↦
      let (apart, found) = assigned_peer-drop_request m r r k present in absurd (apart refl)
]

is_assigned-none :
    (w : World) (s : Session w) (k : ℕ) (r : BlockRequest)
    → assigned_peer s.pending r ≡ none
    → is_assigned w s k r ≡ false
unfolding is_assigned
is_assigned-none w s k r e = rw (e, is_assigned) refl

receive_block-unassigned :
    (w : World) (h index begin : ℕ) (bytes : Bytes) (s : Session w)
    → is_assigned w s h (delivered_request index begin bytes) ≡ false
    → receive_block w h index begin bytes s ≡ (err unexpected_block, s)
unfolding receive_block
receive_block-unassigned w h index begin bytes s e = rw (e, receive_block) refl

module _ (w : World) (h index begin : ℕ) (bytes : Bytes) (small : length bytes < 2 ^ 32)
    (total : ℕ) where
  -- The request is not pending any more, and the bytes are counted.
  abbrev Taken : Session w → Type 0
  Taken s =
      (assigned_peer s.pending (delivered_request index begin bytes) ≡ none)
      × (s.downloaded ≡ total)

  take-Runs :
      Runs
        (λ s.
          IsSound w s
          × (assigned_peer s.pending (delivered_request index begin bytes) ≡ some h)
          × ((s.downloaded + length bytes) % 2 ^ 64 ≡ total))
        (λ (a : Bool) s. (s.downloaded + length bytes) % 2 ^ 64 ≡ total)
        (λ (e : TorrentError). Taken)
        (on_pieces w (λ ps. store_block ps (delivered_request index begin bytes) bytes))
  take-Runs = record {
    after = λ s (i, found, counted).
        subst
          (λ out.
            Post {A = Bool} (λ a q. (Session.downloaded q + length bytes) % 2 ^ 64 ≡ total)
              (λ (e : TorrentError). Taken) (out.0, record s { pieces = out.1 }))
          (sym (
            store_block-IsOpen s.pieces (delivered_request index begin bytes) bytes i.well_formed
              (i.wanted (delivered_request index begin bytes) h found) (omega (arith, small))
              small))
          counted;
  }

  drop-Runs :
      Runs
        (λ s. (s.downloaded + length bytes) % 2 ^ 64 ≡ total)
        (λ u. Taken)
        (λ (e : TorrentError). Taken)
        (modify (λ (q : Session w). record q {
          pending = drop_request q.pending (delivered_request index begin bytes);
          downloaded = (q.downloaded + length bytes) % 2 ^ 64;
        }))
  drop-Runs = record {
    after = λ s counted.
        (assigned_peer-dropped s.pending (delivered_request index begin bytes), counted);
  }

  verify-Runs : Runs Taken (λ u. Taken) (λ (e : TorrentError). Taken) (verify_piece_at w index)
  unfolding verify_piece_at
  verify-Runs = record {
    after = λ s i. elim (Option-cases s.file) [
      | inl closed ↦ rw (closed, verify_piece_at) i
      | inr (file, opened) ↦ rw (opened, verify_piece_at) (ends s _ _ _ i)
    ];
  }
    where
      ends :
          (s : Session w) (out : Result TorrentError (Unit {0})) (ps : PieceSet)
          (file : w.disk.File)
          → Taken s
          → Post {A = Unit {0}}
              (λ u. Taken)
              (λ (e : TorrentError). Taken)
              (out, record s { pieces = ps; file = some file })
      ends s (ok u) ps file i = i
      ends s (err e) ps file i = i

  end-Runs :
      (assembled : Bool)
      → Runs Taken
          (λ (a : Bool). Taken)
          (λ (e : TorrentError). Taken)
          (if not assembled then pure false else (do verify_piece_at w index; pure true))
  end-Runs true = Runs-bind verify-Runs λ v. Runs-pure true
  end-Runs false = Runs-pure false

receive_block-Taken :
    (w : World) (h index begin : ℕ) (bytes : Bytes) (small : length bytes < 2 ^ 32) (total : ℕ)
    (s : Session w)
    → IsSound w s
    → assigned_peer s.pending (delivered_request index begin bytes) ≡ some h
    → (s.downloaded + length bytes) % 2 ^ 64 ≡ total
    → Taken w h index begin bytes small total (receive_block w h index begin bytes s).1
unfolding receive_block
receive_block-Taken w h index begin bytes small total s i found counted =
    let assigned : is_assigned w s h (delivered_request index begin bytes) ≡ true =
      unfold is_assigned in ground (arith, found) in
    rw (assigned, receive_block)
      (ends _ (
        (Runs-bind (take-Runs w h index begin bytes small total) λ assembled.
            Runs-bind (drop-Runs w h index begin bytes small total)
              λ u. end-Runs w h index begin bytes small total assembled).after
          s (i, found, counted)))
  where
    ends :
        (out : Result TorrentError Bool × Session w)
        → Post {A = Bool}
            (λ a. Taken w h index begin bytes small total)
            (λ e. Taken w h index begin bytes small total)
            out
        → Taken w h index begin bytes small total (out.1)
    ends (ok a, q) t = t
    ends (err e, q) t = t

-- A block that was asked of a peer and that this peer delivers to a sound session is counted once: its
-- bytes are added to the number of downloaded bytes, and when any peer delivers the block again, it is
-- refused and nothing changes; the block is shorter than 2 ^ 32 bytes.
pub receive_block-once :
    (w : World) (h k index begin : ℕ) (bytes : Bytes) (s : Session w)
    → length bytes < 2 ^ 32
    → IsSound w s
    → is_assigned w s h (delivered_request index begin bytes) ≡ true
    → (Session.downloaded ((receive_block w h index begin bytes s).1)
        ≡ (s.downloaded + length bytes) % 2 ^ 64)
      × (receive_block w k index begin bytes (receive_block w h index begin bytes s).1
          ≡ (err unexpected_block, (receive_block w h index begin bytes s).1))
receive_block-once w h k index begin bytes s small i e =
    let total = (s.downloaded + length bytes) % 2 ^ 64 in
    let (gone, counted) =
      receive_block-Taken w h index begin bytes small total s i (is_assigned-some w s h _ e) refl in
    (counted, receive_block-unassigned w k index begin bytes _ (is_assigned-none w _ k _ gone))
