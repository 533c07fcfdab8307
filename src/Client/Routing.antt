-- ===== src/Client/Routing.antt =====
-- client/client.go, torrent/torrent.go, torrent/discovery.go and torrent/peers.go: which torrent a
-- connection reaches, and which peers join it.
use mole_swarm.Base.{◌≡◌, true, false, [], ◌++◌, ok}
use mole_swarm.Base.Bytes.{Bytes}
use mole_swarm.Protocol.Handshake.{Handshake, write_handshake}
use mole_swarm.Torrent.Session.{World, Peer, Session}
use mole_swarm.Torrent.Session.Lifecycle.{Torrent, local_handshake}
use mole_swarm.Client.{Client, handle_incoming_connection}

-- The peer behind a connection that sent this handshake.
abbrev pub incoming_peer : Bytes → Bytes → Peer
incoming_peer info_hash id = record {
  id = id;
  info_hash = info_hash;
  incoming = true;
  state = record {
    am_choking = true;
    am_interested = false;
    peer_choking = true;
    peer_interested = false;
  };
  bits = [];
  closed = false;
}

module _ (w : World) where
  -- A connection that can be written to and that starts with the handshake of the torrent.
  abbrev pub Reaches : Client w → Torrent w → Bytes → Bytes → Type 0
  Reaches c t id rest =
      handle_incoming_connection w
        (write_handshake (local_handshake t.session.meta.info_hash id) ++ rest) true c
      ≡ ok (t.session.meta.info_hash, incoming_peer t.session.meta.info_hash id)
