-- ===== src/Torrent/Session/Departure.antt =====
-- torrent/peers.go: what the removal of a peer leaves of it.
use mole_swarm.Base.{
  ℕ, ◌≡◌, ◌≢◌, refl, ap, ◌∙◌, true, false, none, some, [], ◌∷◌, arith, Bool-cases, inl, inr, ok,
}
use mole_swarm.Base.Bytes.{Bytes}
use mole_swarm.Torrent.Session.{World, Session}
use mole_swarm.Torrent.Session.Pending.{
  release, pending_count, pending_count-release_same, pending_count-release_other,
}
use mole_swarm.Torrent.Session.Peers.{
  close_peer, is_active, forget_peer, remove_peer, disconnected, handle_peer_event,
}
use mole_swarm.Tracker.Server.{Map, lookup, delete}

lookup-delete : (m : Map ℕ) (id : Bytes) → lookup (delete m id) id ≡ none
unfolding lookup delete
lookup-delete [] id = refl
lookup-delete ((k, h) ∷ m) id = ground (arith, lookup-delete m id)

-- A peer that is gone, and the requests of the others.
pub record IsGone (w : World) (h : ℕ) (before after : Session w) : Type 0 where
  pub inactive : is_active w after h ≡ false
  pub closed : (after.heap h).closed ≡ true
  pub released : pending_count after.pending h ≡ 0
  pub others_keep : (k : ℕ) → k ≢ h → pending_count after.pending k ≡ pending_count before.pending k
  pub same_pieces : after.pieces ≡ before.pieces

module _ (w : World) (h : ℕ) (s : Session w) where
  forgotten : is_active w (forget_peer w h s) h ≡ false
  unfolding forget_peer
  forgotten = elim (Bool-cases (is_active w s h)) [
    | inl here ↦
        rw (here, forget_peer) (unfold is_active in rw (lookup-delete s.peers (s.heap h).id) refl)
    | inr absent ↦ rw (absent, forget_peer) absent
  ]

forget_peer-same :
    (w : World) (h : ℕ) (s : Session w)
    → (Session.pending (forget_peer w h s) ≡ s.pending)
      × (Session.pieces (forget_peer w h s) ≡ s.pieces)
unfolding forget_peer
forget_peer-same w h s = elim (Bool-cases (is_active w s h)) [
  | inl here ↦ rw (here, forget_peer) (refl, refl)
  | inr absent ↦ rw (absent, forget_peer) (refl, refl)
]

close_peer-is_active :
    (w : World) (h : ℕ) (s : Session w) → is_active w (close_peer w h s) h ≡ is_active w s h
unfolding is_active
close_peer-is_active w h s = ground arith

-- After a peer disconnected, it is not active, its connection is closed and no request is pending with
-- it; the other peers have as many pending requests as before, and the pieces are the same.
pub disconnected-IsGone :
    (w : World) (h : ℕ) (s : Session w)
    → ((handle_peer_event w (disconnected (some h)) s).0 ≡ ok tt)
      × IsGone w h s (handle_peer_event w (disconnected (some h)) s).1
unfolding handle_peer_event remove_peer
disconnected-IsGone w h s =
    let before : Session w = record s { pending = release s.pending h } in
    let (pending, pieces) = forget_peer-same w h before in
    (
      refl,
      record {
        inactive = close_peer-is_active w h (forget_peer w h before) ∙ forgotten w h before;
        closed = ground arith;
        released = ap (λ m. pending_count m h) pending ∙ pending_count-release_same s.pending h;
        others_keep = λ k apart.
            ap (λ m. pending_count m k) pending ∙ pending_count-release_other s.pending h k apart;
        same_pieces = pieces;
      },
    )
