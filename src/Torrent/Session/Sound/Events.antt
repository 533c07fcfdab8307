-- ===== src/Torrent/Session/Sound/Events.antt =====
-- torrent/peers.go: every event keeps the state of a session, and none ends it.
use mole_swarm.Base.{
  ℕ, ◌^◌, ◌≤◌, ◌<◌, refl, true, false, not, Option, none, some, List, [], ◌∷◌, arith, leb,
  if◌then◌else◌, length, All, Bool-cases, inl, inr,
}
use mole_swarm.Base.Bytes.{Bytes}
use mole_swarm.Base.State.{
  Runs, Runs-bind, Runs-if, Runs-or_else, Runs-pure, pure, fail, get, modify, ◌>>=◌, ◌>>◌,
}
use mole_swarm.Protocol.Message.{
  Message, keep_alive, choke, unchoke, interested, not_interested, have, bitfield, request,
  cancel_request, piece,
}
use mole_swarm.Torrent.Piece.{TorrentError, is_nil}
use mole_swarm.Torrent.Bitfield.{set_piece}
use mole_swarm.Torrent.PieceSet.{PieceSet}
use mole_swarm.Torrent.Session.{
  World, Session, Action, Peer, is_crash, send_message, update_state, update_peer,
}
use mole_swarm.Torrent.Session.Pending.{Pending, release}
use mole_swarm.Torrent.Session.Transfer.{update_interest, is_interesting, same_bool}
use mole_swarm.Torrent.Session.Peers.{
  PeerEvent, unknown_event, arrived, disconnected, message_received, is_active, has_peer,
  forget_peer, remove_peer, broadcast_to, broadcast_message, max_peers, handle_interested,
  handle_piece, handle_protocol_message, activate_peer, close_if_any, handle_message_event,
  handle_peer_event, handle_events, pieces_bitfield,
}
use mole_swarm.Torrent.Session.Sound.{
  IsSoundState, IsSound, IsRefused, Keeps, send_message-Keeps, send_message-Runs,
  release-IsSoundState,
}
use mole_swarm.Torrent.Session.Sound.Requests.{fill_request_window-Keeps}
use mole_swarm.Torrent.Session.Sound.Blocks.{serve_block-Keeps, receive_block-Keeps}
use mole_swarm.Tracker.Server.{Map, lookup, delete, put}

length-delete : (m : Map ℕ) (id : Bytes) → length (delete m id) ≤ length m
unfolding delete
length-delete [] id = omega arith
length-delete ((k, h) ∷ m) id = ground (arith, length-delete m id)

-- Other peers keep a state sound.
with_peers-IsSoundState :
    {ps : PieceSet} {m : Pending} {peers : Map ℕ} (peers' : Map ℕ)
    → length peers' ≤ 5
    → IsSoundState ps m peers
    → IsSoundState ps m peers'
with_peers-IsSoundState peers' few i = record {
  well_formed = i.well_formed;
  wanted = i.wanted;
  window = i.window;
  few = few;
  sized = i.sized;
}

module _ (w : World) where
  forget_peer-IsSound : (h : ℕ) (s : Session w) → IsSound w s → IsSound w (forget_peer w h s)
  unfolding forget_peer
  forget_peer-IsSound h s i = elim (Bool-cases (is_active w s h)) [
    | inl here ↦
        rw (here, forget_peer)
          (with_peers-IsSoundState (delete s.peers (s.heap h).id)
            (omega (arith, length-delete s.peers (s.heap h).id, i.few)) i)
    | inr absent ↦ rw (absent, forget_peer) i
  ]

  pub remove_peer-IsSound :
      (p : Option ℕ) (s : Session w) → IsSound w s → IsSound w (remove_peer w p s)
  unfolding remove_peer
  remove_peer-IsSound none s i = i
  remove_peer-IsSound (some h) s i =
      forget_peer-IsSound h (record s { pending = release s.pending h })
        (release-IsSoundState s.pieces s.pending s.peers h i)

  -- A broadcast drops the peers that it cannot reach, and never fails.
  broadcast_to-Runs :
      (Z : TorrentError → Session w → Type 0) (message : Message) (m : Map ℕ)
      → Runs (IsSound w) (λ u. IsSound w) Z (broadcast_to w message m)
  unfolding broadcast_to
  broadcast_to-Runs Z message [] = Runs-pure tt
  broadcast_to-Runs Z message ((id, h) ∷ rest) =
      let drop_it : (e : TorrentError)
          → Runs (IsRefused w e) (λ u. IsSound w) Z (modify (remove_peer w (some h))) =
        λ e. record { after = λ s i. remove_peer-IsSound (some h) s (i.0) } in
      Runs-bind (Runs-or_else (send_message-Keeps w h message) drop_it)
        λ u. broadcast_to-Runs Z message rest

  pub broadcast_message-Runs :
      (Z : TorrentError → Session w → Type 0) (message : Message)
      → Runs (IsSound w) (λ u. IsSound w) Z (broadcast_message w message)
  unfolding broadcast_message
  broadcast_message-Runs Z message = record {
    after = λ s i. (broadcast_to-Runs Z message (w.visit s.attempts s.peers)).after s i;
  }

  -- A change of an object that a pointer leads to.
  update-Keeps : (h : ℕ) (f : Peer → Peer) → Keeps w (modify (update_peer w h f))
  update-Keeps h f = record { after = λ s i. i }

  update_interest-Keeps : (h : ℕ) → Keeps w (update_interest w h)
  unfolding update_interest
  update_interest-Keeps h = record {
    after = λ s i.
        let now = is_interesting s.pieces (s.heap h).bits (length s.pieces.states) 0 in
        (Runs-if (same_bool now (s.heap h).state.am_interested) (λ same. Runs-pure tt)
            (λ other.
              Runs-bind (send_message-Keeps w h (if now then interested else not_interested)) λ u.
                update-Keeps h
                  (λ p. record p { state = record p.state { am_interested = now } }))).after
          s i;
  }

  offer-Keeps :
      (h : ℕ)
      → Keeps w (do
        s ← get
        if not (s.heap h).state.am_choking then pure tt else do
          send_message w h unchoke
          modify (update_state w h (λ p. record p { am_choking = false })))
  offer-Keeps h = record {
    after = λ s i.
        (Runs-if (not (s.heap h).state.am_choking) (λ open_peer. Runs-pure tt)
            (λ choked. Runs-bind (send_message-Keeps w h unchoke) λ u.
              update-Keeps h
                (λ p. record p { state = record p.state { am_choking = false } }))).after
          s i;
  }

  handle_interested-Keeps : (h : ℕ) → Keeps w (handle_interested w h)
  unfolding handle_interested
  handle_interested-Keeps h =
      Runs-bind
        (update-Keeps h (λ p. record p { state = record p.state { peer_interested = true } }))
        λ u. offer-Keeps h

  handle_piece-Keeps :
      (h index begin : ℕ) (bytes : Bytes)
      → length bytes < 2 ^ 32
      → Keeps w (handle_piece w h index begin bytes)
  unfolding handle_piece
  handle_piece-Keeps h index begin bytes small =
      Runs-bind (receive_block-Keeps w h index begin bytes small) λ completed.
        Runs-bind
          (Runs-if completed (λ c. broadcast_message-Runs (IsRefused w) (have index))
            (λ c. Runs-pure tt))
          λ u. fill_request_window-Keeps w h

  -- A block of a message is shorter than 2 ^ 32 bytes.
  abbrev pub IsSmall : Message → Type 0
  IsSmall (piece index begin bytes) = length bytes < 2 ^ 32
  IsSmall _ = Unit

  pub handle_protocol_message-Keeps :
      (h : ℕ) (message : Message) → IsSmall message → Keeps w (handle_protocol_message w h message)
  unfolding handle_protocol_message
  handle_protocol_message-Keeps h keep_alive small = Runs-pure tt
  handle_protocol_message-Keeps h choke small = record {
    after = λ s i. release-IsSoundState s.pieces s.pending s.peers h i;
  }
  handle_protocol_message-Keeps h unchoke small =
      Runs-bind (update-Keeps h (λ p. record p { state = record p.state { peer_choking = false } }))
        λ u. fill_request_window-Keeps w h
  handle_protocol_message-Keeps h interested small = handle_interested-Keeps h
  handle_protocol_message-Keeps h not_interested small =
      update-Keeps h (λ p. record p { state = record p.state { peer_interested = false } })
  handle_protocol_message-Keeps h (have index) small =
      Runs-bind (update-Keeps h (λ p. record p { bits = set_piece p.bits index }))
        λ u. Runs-bind (update_interest-Keeps h) λ v. fill_request_window-Keeps w h
  handle_protocol_message-Keeps h (bitfield bits) small =
      Runs-bind (update-Keeps h (λ p. record p { bits = bits }))
        λ u. Runs-bind (update_interest-Keeps h) λ v. fill_request_window-Keeps w h
  handle_protocol_message-Keeps h (request block) small = serve_block-Keeps w h block
  handle_protocol_message-Keeps h (cancel_request block) small = Runs-pure tt
  handle_protocol_message-Keeps h (piece index begin bytes) small =
      handle_piece-Keeps h index begin bytes small

  join-Keeps :
      (h : ℕ) (message : Message)
      → Runs
          (λ s. IsSound w s × (length s.peers < 5))
          (λ u. IsSound w)
          (IsRefused w)
          (do
            send_message w h message
            modify (λ (q : Session w). record q { peers = put q.peers (q.heap h).id h }))
  unfolding put
  join-Keeps h message =
      Runs-bind (send_message-Runs w h message (λ s n l p. p) (λ s n p. (p.0, refl))) λ u. enter
    where
      enter :
          Runs
            (λ s. IsSound w s × (length s.peers < 5))
            (λ u. IsSound w)
            (IsRefused w)
            (modify (λ (q : Session w). record q { peers = put q.peers (q.heap h).id h }))
      enter = record {
        after = λ s (i, room).
            with_peers-IsSoundState (put s.peers (s.heap h).id h)
              (omega (arith, length-delete s.peers (s.heap h).id, room)) i;
      }

  pub activate_peer-Keeps : (p : Option ℕ) → Keeps w (activate_peer w p)
  unfolding activate_peer
  activate_peer-Keeps none = record { after = λ s i. (i, refl) }
  activate_peer-Keeps (some h) = record {
    after = λ s i. elim (Bool-cases (leb max_peers (length s.peers))) [
      | inl full ↦ rw (full, activate_peer) (i, refl)
      | inr room ↦ elim (Bool-cases (is_nil (lookup s.peers (s.heap h).id))) [
        | inr taken ↦ rw (room, taken, activate_peer) (i, refl)
        | inl free ↦
            rw (room, free, activate_peer)
              ((join-Keeps h (bitfield (pieces_bitfield s.pieces))).after s
                (i, ground (arith, room)))
      ]
    ];
  }

  -- The action always succeeds, and keeps the state.
  abbrev pub Completes : {A : Type 0} → Action w A → Type 0
  Completes m = Runs (IsSound w) (λ a. IsSound w) (λ e s. ⊥) m

  drop_failed :
      (h : ℕ) (e : TorrentError)
      → Runs
          (IsRefused w e)
          (λ u. IsSound w)
          (λ f s. ⊥)
          (if is_crash e then fail e else modify (remove_peer w (some h)))
  drop_failed h e =
      Runs-if (is_crash e) (λ crash. record { after = λ s (i, safe). cc (crash, safe) })
        (λ refused. remove_it)
    where
      remove_it :
          Runs
            (IsRefused w e)
            (λ u. IsSound w)
            (λ (f : TorrentError) s. ⊥)
            (modify (remove_peer w (some h)))
      remove_it = record { after = λ s p. remove_peer-IsSound (some h) s (p.0) }

  handle_message_event-Completes :
      (p : Option ℕ) (message : Message)
      → IsSmall message
      → Completes (handle_message_event w p message)
  unfolding handle_message_event
  handle_message_event-Completes none message small = Runs-pure tt
  handle_message_event-Completes (some h) message small =
      Runs-or_else (handle_protocol_message-Keeps h message small) (drop_failed h)

  close_it : (p : Option ℕ) (s : Session w) → IsSound w s → IsSound w (close_if_any w p s)
  close_it none s i = i
  close_it (some h) s i = i

  -- The messages of an event are small.
  abbrev pub IsSmallEvent : PeerEvent → Type 0
  IsSmallEvent (message_received p message) = IsSmall message
  IsSmallEvent _ = Unit

  pub handle_peer_event-Completes :
      (event : PeerEvent) → IsSmallEvent event → Completes (handle_peer_event w event)
  unfolding handle_peer_event
  handle_peer_event-Completes unknown_event small = Runs-pure tt
  handle_peer_event-Completes (arrived p) small =
      let close : (e : TorrentError)
          → Runs (IsRefused w e) (λ u. IsSound w) (λ f s. ⊥) (modify (close_if_any w p)) =
        λ e. record { after = λ s i. close_it p s (i.0) } in
      Runs-or_else (activate_peer-Keeps p) close
  handle_peer_event-Completes (message_received p message) small = record {
    after = λ s i.
        (Runs-if (has_peer w s p) (λ here. handle_message_event-Completes p message small)
            (λ gone. Runs-pure tt)).after
          s i;
  }
  handle_peer_event-Completes (disconnected p) small = record { after = remove_peer-IsSound p }

  pub handle_events-Completes :
      (events : List PeerEvent) → All IsSmallEvent events → Completes (handle_events w events)
  unfolding handle_events
  handle_events-Completes [] small = Runs-pure tt
  handle_events-Completes (event ∷ events) small =
      Runs-bind (handle_peer_event-Completes event (small.0))
        λ u. handle_events-Completes events (small.1)
