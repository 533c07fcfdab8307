-- ===== src/Torrent/Session/Peers.antt =====
-- torrent/peers.go and torrent/transfer.go: the messages and the events of the peers, as the loop of a
-- session takes them. A nil `*peer` is `none`.
use mole_swarm.Base.{
  ℕ, zero, suc, ◌+◌, ◌%◌, ◌^◌, Bool, true, false, not, Option, none, some, List, [], ◌∷◌, leb, ◌==◌,
  if◌then◌else◌, length,
}
use mole_swarm.Base.Bytes.{Bytes}
use mole_swarm.Base.State.{pure, fail, get, modify, ◌>>=◌, ◌>>◌, or_else}
use mole_swarm.Protocol.Message.{
  Message, keep_alive, choke, unchoke, interested, not_interested, have, bitfield, request,
  cancel_request, piece,
}
use mole_swarm.Torrent.Piece.{nil_peer, peer_limit_reached, peer_already_active, is_nil}
use mole_swarm.Torrent.Bitfield.{set_piece, bitfield_of}
use mole_swarm.Torrent.PieceSet.{PieceSet, is_complete}
use mole_swarm.Torrent.Session.{
  World, Session, Action, is_crash, send_message, update_peer, update_state,
}
use mole_swarm.Torrent.Session.Pending.{release}
use mole_swarm.Torrent.Session.Transfer.{
  update_interest, fill_request_window, serve_block, receive_block,
}
use mole_swarm.Tracker.Server.{Map, lookup, delete, put}

abbrev pub max_peers : ℕ
max_peers = 5

-- The loop of `PiecesBitfield` over the pieces from `index` on.
unfoldable pub complete_flags : PieceSet → ℕ → ℕ → List Bool
unfolding is_complete
complete_flags ps zero index = []
complete_flags ps (suc n) index = is_complete ps (index % 2 ^ 32) ∷ complete_flags ps n (index + 1)

unfoldable pub pieces_bitfield : PieceSet → Bytes
unfolding complete_flags bitfield_of
pieces_bitfield ps = bitfield_of (complete_flags ps (length ps.states) 0)

abbrev pub is_same_peer : Option ℕ → ℕ → Bool
is_same_peer none h = false
is_same_peer (some k) h = k == h

pub data PeerEvent : Type 0 where
  unknown_event : PeerEvent
  arrived disconnected : Option ℕ → PeerEvent
  message_received : Option ℕ → Message → PeerEvent

module _ (w : World) where
  abbrev pub close_peer : ℕ → Session w → Session w
  close_peer h s = update_peer w h (λ p. record p { closed = true }) s

  unfoldable pub is_active : Session w → ℕ → Bool
  unfolding lookup
  is_active s h = is_same_peer (lookup s.peers (s.heap h).id) h

  unfoldable pub has_peer : Session w → Option ℕ → Bool
  unfolding is_active
  has_peer s none = false
  has_peer s (some h) = is_active s h

  abbrev pub release_pending_requests : ℕ → Session w → Session w
  release_pending_requests h s = record s { pending = release s.pending h }

  -- The peer is taken off the map if the map leads to it.
  unfoldable pub forget_peer : ℕ → Session w → Session w
  unfolding is_active delete
  forget_peer h s = if is_active s h then record s { peers = delete s.peers (s.heap h).id } else s

  unfoldable pub remove_peer : Option ℕ → Session w → Session w
  unfolding forget_peer release
  remove_peer none s = s
  remove_peer (some h) s = close_peer h (forget_peer h (release_pending_requests h s))

  -- The loop of `broadcastMessage` over the peers that are left to visit.
  unfoldable pub broadcast_to : Message → Map ℕ → Action w (Unit {0})
  unfolding send_message remove_peer
  broadcast_to message [] = pure tt
  broadcast_to message ((id, h) ∷ rest) = do
    or_else (send_message w h message) (λ e. modify (remove_peer (some h)))
    broadcast_to message rest

  unfoldable pub broadcast_message : Message → Action w (Unit {0})
  unfolding broadcast_to
  broadcast_message message = do s ← get; broadcast_to message (w.visit s.attempts s.peers)

  unfoldable pub handle_interested : ℕ → Action w (Unit {0})
  unfolding send_message
  handle_interested h = do
    modify (update_state w h (λ p. record p { peer_interested = true }))
    s ← get
    if not (s.heap h).state.am_choking then pure tt else do
      send_message w h unchoke
      modify (update_state w h (λ p. record p { am_choking = false }))

  unfoldable pub handle_piece : ℕ → ℕ → ℕ → Bytes → Action w (Unit {0})
  unfolding receive_block broadcast_message fill_request_window
  handle_piece h index begin bytes = do
    completed ← receive_block w h index begin bytes
    if completed then broadcast_message (have index) else pure tt
    fill_request_window w h

  unfoldable pub handle_protocol_message : ℕ → Message → Action w (Unit {0})
  unfolding update_interest serve_block handle_interested handle_piece fill_request_window set_piece
      release
  handle_protocol_message h keep_alive = pure tt
  handle_protocol_message h choke = do
    modify (update_state w h (λ p. record p { peer_choking = true }))
    modify (release_pending_requests h)
  handle_protocol_message h unchoke = do
    modify (update_state w h (λ p. record p { peer_choking = false }))
    fill_request_window w h
  handle_protocol_message h interested = handle_interested h
  handle_protocol_message h not_interested =
      modify (update_state w h (λ p. record p { peer_interested = false }))
  handle_protocol_message h (have index) = do
    modify (update_peer w h (λ p. record p { bits = set_piece p.bits index }))
    update_interest w h
    fill_request_window w h
  handle_protocol_message h (bitfield bits) = do
    modify (update_peer w h (λ p. record p { bits = bits }))
    update_interest w h
    fill_request_window w h
  handle_protocol_message h (request block) = serve_block w h block
  handle_protocol_message h (cancel_request block) = pure tt
  handle_protocol_message h (piece index begin bytes) = handle_piece h index begin bytes

  unfoldable pub activate_peer : Option ℕ → Action w (Unit {0})
  unfolding pieces_bitfield lookup put send_message
  activate_peer none = fail nil_peer
  activate_peer (some h) = do
    s ← get
    if leb max_peers (length s.peers)
        then fail peer_limit_reached
        else if not (is_nil (lookup s.peers (s.heap h).id))
        then fail peer_already_active
        else do
          send_message w h (bitfield (pieces_bitfield s.pieces))
          modify (λ q. record q { peers = put q.peers (q.heap h).id h })

  abbrev pub close_if_any : Option ℕ → Session w → Session w
  close_if_any none s = s
  close_if_any (some h) s = close_peer h s

  unfoldable pub handle_message_event : Option ℕ → Message → Action w (Unit {0})
  unfolding handle_protocol_message remove_peer
  handle_message_event none message = pure tt
  handle_message_event (some h) message =
      or_else (handle_protocol_message h message)
        λ e. if is_crash e then fail e else modify (remove_peer (some h))

  unfoldable pub handle_peer_event : PeerEvent → Action w (Unit {0})
  unfolding activate_peer has_peer handle_message_event
  handle_peer_event unknown_event = pure tt
  handle_peer_event (arrived peer) = or_else (activate_peer peer) λ e. modify (close_if_any peer)
  handle_peer_event (message_received peer message) = do
    s ← get
    if has_peer s peer then handle_message_event peer message else pure tt
  handle_peer_event (disconnected peer) = modify (remove_peer peer)

  -- The events of a run, in the order in which the loop takes them.
  unfoldable pub handle_events : List PeerEvent → Action w (Unit {0})
  unfolding handle_peer_event
  handle_events [] = pure tt
  handle_events (event ∷ events) = do handle_peer_event event; handle_events events

  unfoldable pub close_all : Map ℕ → Session w → Session w
  close_all [] s = s
  close_all ((id, h) ∷ rest) s = close_all rest (close_peer h s)

  unfoldable pub close_peers : Session w → Session w
  unfolding close_all
  close_peers s = record (close_all (w.visit s.attempts s.peers) s) { pending = []; peers = [] }
