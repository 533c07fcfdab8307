-- ===== src/Client.antt =====
-- client/client.go and client/management.go: the torrents of a process and the connections that come
-- in. The mutex makes each operation one step, and a torrent stands where its pointer does.
pub mod Routing
mod Tests
use mole_swarm.Base.{
  ℕ, zero, suc, ◌≤◌, Bool, true, false, not, ◌||◌, Option, none, some, List, [], ◌∷◌, ltb, leb,
  if◌then◌else◌, length, Result, ok, err,
}
use mole_swarm.Base.Bytes.{Bytes}
use mole_swarm.Base.Int.{ℤ, pos, negsuc}
use mole_swarm.Protocol.Handshake.{Handshake, read_handshake}
use mole_swarm.Torrent.Piece.{TorrentError, not_running, is_nil}
use mole_swarm.Torrent.Session.{World, Session, Peer, DownloadMode, progress, paused}
use mole_swarm.Torrent.Session.Mode.{change_download_mode}
use mole_swarm.Torrent.Session.Lifecycle.{RunConfig, Torrent, accept_incoming_peer}
use mole_swarm.Torrent.Session.Loop.{LoopEvent, run_download}
use mole_swarm.Tracker.Server.{Map, lookup, delete, put}

pub data ClientError : Type 0 where
  torrent_not_found torrent_already_registered torrent_is_nil bad_handshake : ClientError
  of_torrent : TorrentError → ClientError

pub record ClientStatus : Type 0 where
  pub peer_id : Bytes
  pub registered_torrents : ℕ
  pub info_hashes : List Bytes

abbrev pub keys : {A : Type 0} → Map A → List Bytes
keys [] = []
keys ((k, a) ∷ m) = k ∷ keys m

module _ (w : World) where
  pub record Client : Type 0 where
    pub peer_id : Bytes
    pub torrents : Map (Torrent w)
    pub listen_port : ℕ

  -- `New`, with the identifier that the system's source of randomness gives.
  unfoldable pub new_client : Bytes → Client
  new_client peer_id = record { peer_id = peer_id; torrents = []; listen_port = 0 }

  unfoldable pub get_torrent : Client → Bytes → Option (Torrent w)
  unfolding lookup
  get_torrent c info_hash = lookup c.torrents info_hash

  unfoldable pub register_torrent : Option (Torrent w) → Client → Result ClientError Client
  unfolding lookup put
  register_torrent none c = err torrent_is_nil
  register_torrent (some t) c =
      if not (is_nil (lookup c.torrents t.session.meta.info_hash))
      then err torrent_already_registered
      else ok (record c { torrents = put c.torrents t.session.meta.info_hash t })

  -- The torrent that is taken off, for `Close`.
  unfoldable pub unregister_torrent : Bytes → Client → Result ClientError (Torrent w) × Client
  unfolding lookup delete
  unregister_torrent info_hash c = elim (lookup c.torrents info_hash) [
    | none ↦ (err torrent_not_found, c)
    | some t ↦ (ok t, record c { torrents = delete c.torrents info_hash })
  ]

  -- A request that the loop of a running torrent answers.
  unfoldable pub request_download_mode :
      DownloadMode → Torrent w → Result TorrentError (Unit {0}) × Torrent w
  unfolding change_download_mode
  request_download_mode mode t =
      if not t.running
      then (err not_running, t)
      else let (result, s) = change_download_mode w mode t.session in
        (result, record t { session = s })

  abbrev pub client_result : {A : Type 0} → Result TorrentError A → Result ClientError A
  client_result (ok a) = ok a
  client_result (err e) = err (of_torrent e)

  -- An operation on a torrent that is registered.
  unfoldable pub on_torrent :
      Bytes
      → (Torrent w → Result TorrentError (Unit {0}) × Torrent w)
      → Client
      → Result ClientError (Unit {0}) × Client
  unfolding lookup put
  on_torrent info_hash operation c = elim (lookup c.torrents info_hash) [
    | none ↦ (err torrent_not_found, c)
    | some t ↦
        let (result, after) = operation t in
        (client_result result, record c { torrents = put c.torrents info_hash after })
  ]

  unfoldable pub pause_torrent_download : Bytes → Client → Result ClientError (Unit {0}) × Client
  unfolding on_torrent request_download_mode
  pause_torrent_download info_hash c = on_torrent info_hash (request_download_mode paused) c

  unfoldable pub resume_torrent_download : Bytes → Client → Result ClientError (Unit {0}) × Client
  unfolding on_torrent request_download_mode
  resume_torrent_download info_hash c = on_torrent info_hash (request_download_mode progress) c

  -- A run from its start to its end; it ends with an error always.
  abbrev pub run_result : Option TorrentError → Result TorrentError (Unit {0})
  run_result none = ok tt
  run_result (some e) = err e

  unfoldable pub start_torrent_download :
      Bytes
      → Option (List w.Candidate)
      → List (LoopEvent w)
      → Client
      → Result ClientError (Unit {0}) × Client
  unfolding on_torrent run_download
  start_torrent_download info_hash answer events c =
      on_torrent info_hash
        (λ t.
          let (result, after) =
            run_download w (record { peer_id = c.peer_id; port = c.listen_port }) answer events t in
          (run_result result, after))
        c

  -- The port of a TCP address, if the listener has one.
  unfoldable pub set_listen_port : Option ℤ → Client → Client
  set_listen_port none c = c
  set_listen_port (some (negsuc n)) c = c
  set_listen_port (some (pos n)) c = if ltb 65535 n then c else record c { listen_port = n }

  abbrev pub arrival : Bytes → Result TorrentError Peer → Result ClientError (Bytes × Peer)
  arrival info_hash (err e) = err (of_torrent e)
  arrival info_hash (ok peer) = ok (info_hash, peer)

  -- What a connection makes of its bytes: the torrent that is told of an arrival, and the peer.
  unfoldable pub handle_incoming_connection :
      Bytes → Bool → Client → Result ClientError (Bytes × Peer)
  unfolding read_handshake lookup accept_incoming_peer
  handle_incoming_connection stream can_write c = elim (read_handshake stream) [
    | err e ↦ err bad_handshake
    | ok (handshake, rest) ↦ elim (lookup c.torrents handshake.info_hash) [
      | none ↦ err torrent_not_found
      | some t ↦
          arrival handshake.info_hash (accept_incoming_peer w t handshake c.peer_id can_write)
    ]
  ]

  unfoldable pub status : Client → ClientStatus
  status c = record {
    peer_id = c.peer_id;
    registered_torrents = length c.torrents;
    info_hashes = keys c.torrents;
  }

  -- `PauseAllDownloads`, over the torrents in the order of their answers.
  unfoldable pub pause_all :
      Map (Torrent w) → List (Bytes × Result TorrentError (Unit {0})) × Map (Torrent w)
  unfolding request_download_mode
  pause_all [] = ([], [])
  pause_all ((info_hash, t) ∷ m) =
      let (result, after) = request_download_mode paused t in
      let (results, rest) = pause_all m in
      ((info_hash, result) ∷ results, (info_hash, after) ∷ rest)
