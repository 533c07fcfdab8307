-- ===== src/Torrent/Session/Arrival.antt =====
-- torrent/peers.go: which peers that arrive join the session.
use mole_swarm.Base.{
  ℕ, ◌≤◌, ◌<◌, ◌≡◌, ◌≢◌, ◌↔◌, refl, ap, ◌∙◌, true, false, none, some, arith, leb, length,
  Bool-cases, Option-cases, inl, inr,
}
use mole_swarm.Base.Bytes.{Bytes}
use mole_swarm.Torrent.Session.{World, Session, send_message}
use mole_swarm.Torrent.Session.Peers.{max_peers, activate_peer, handle_peer_event, arrived}
use mole_swarm.Tracker.Server.{Map, lookup, put}
use mole_swarm.Tracker.Server.Swarm.{bytes_eq_refl}

-- There is a place for the peer, no other one has its identifier, and its queue takes the bit field.
pub record CanJoin (w : World) (h : ℕ) (s : Session w) : Type 0 where
  pub below_limit : length s.peers < max_peers
  pub new_id : lookup s.peers (s.heap h).id ≡ none
  pub has_room : w.room h s.attempts ≡ true

-- The session after the arrival of a peer.
abbrev pub after_arrival : (w : World) → ℕ → Session w → Session w
after_arrival w h s = (handle_peer_event w (arrived (some h)) s).1

lookup-put : (m : Map ℕ) (key : Bytes) (h : ℕ) → lookup (put m key h) key ≡ some h
unfolding lookup put
lookup-put m key h = rw (bytes_eq_refl key) refl

module _ (w : World) (h : ℕ) (s : Session w) where
  joined : CanJoin w h s → Session.peers (after_arrival w h s) ≡ put s.peers (s.heap h).id h
  unfolding handle_peer_event activate_peer send_message
  joined c = ground (arith, c.below_limit, c.new_id, c.has_room)

  over_limit : max_peers ≤ length s.peers → Session.peers (after_arrival w h s) ≡ s.peers
  unfolding handle_peer_event activate_peer send_message
  over_limit full = ground (arith, full)

  same_id :
      (k : ℕ)
      → lookup s.peers (s.heap h).id ≡ some k
      → Session.peers (after_arrival w h s) ≡ s.peers
  unfolding handle_peer_event activate_peer send_message
  same_id k taken = ground (arith, taken)

  no_room : w.room h s.attempts ≡ false → Session.peers (after_arrival w h s) ≡ s.peers
  unfolding handle_peer_event activate_peer send_message
  no_room full = ground (arith, full)

-- A peer that is not active and arrives is active afterwards exactly if it can join.
pub arrived-joins_iff :
    (w : World) (h : ℕ) (s : Session w)
    → lookup s.peers (s.heap h).id ≢ some h
    → (lookup (Session.peers (after_arrival w h s)) (s.heap h).id ≡ some h) ↔ CanJoin w h s
arrived-joins_iff w h s absent = (only_if, if_it_can)
  where
    refused :
        Session.peers (after_arrival w h s) ≡ s.peers
        → lookup (Session.peers (after_arrival w h s)) (s.heap h).id ≢ some h
    refused same found = absent (cc (ap (λ m. lookup m (s.heap h).id) same, found))

    if_it_can : CanJoin w h s → lookup (Session.peers (after_arrival w h s)) (s.heap h).id ≡ some h
    if_it_can c =
        ap (λ m. lookup m (s.heap h).id) (joined w h s c) ∙ lookup-put s.peers (s.heap h).id h

    only_if : lookup (Session.peers (after_arrival w h s)) (s.heap h).id ≡ some h → CanJoin w h s
    only_if found = elim (Bool-cases (leb max_peers (length s.peers))) [
      | inl full ↦ absurd (refused (over_limit w h s (ground (arith, full))) found)
      | inr place ↦ elim (Option-cases (lookup s.peers (s.heap h).id)) [
        | inr (k, taken) ↦ absurd (refused (same_id w h s k taken) found)
        | inl free ↦ elim (Bool-cases (w.room h s.attempts)) [
          | inr full ↦ absurd (refused (no_room w h s full) found)
          | inl room ↦ record {
            below_limit = ground (arith, place);
            new_id = free;
            has_room = room;
          }
        ]
      ]
    ]
