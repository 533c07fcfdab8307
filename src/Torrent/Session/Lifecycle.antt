-- ===== src/Torrent/Session/Lifecycle.antt =====
-- torrent/torrent.go, torrent/run.go and torrent/discovery.go: how a torrent is opened and closed, and
-- what it says of itself to a tracker and to a peer.
use mole_swarm.Base.{
  ℕ, ◌*◌, Bool, true, false, not, Option, none, some, ltb, if◌then◌else◌, Result, ok, err, ◌>>=◌,
  ◌>>◌, fail_if, replicate,
}
use mole_swarm.Base.Bytes.{Bytes}
use mole_swarm.Protocol.Bencode.{bytes_eq}
use mole_swarm.Protocol.Metainfo.{MetaInfo}
use mole_swarm.Protocol.Handshake.{Handshake, HandshakeError, read_handshake, peer_protocol}
use mole_swarm.Torrent.Piece.{
  TorrentError, already_running, wrong_protocol, wrong_info_hash, own_peer_id, file_not_open,
  write_failed, close_failed, dial_failed, short_handshake,
}
use mole_swarm.Torrent.FileStorage.{or_fail}
use mole_swarm.Torrent.PieceSet.{new_piece_set, bytes_left}
use mole_swarm.Torrent.PieceSet.Content.{verify_existing}
use mole_swarm.Torrent.Session.{World, Session, Peer, new_peer, new_session}
use mole_swarm.Torrent.Session.Peers.{close_peers}
use mole_swarm.Tracker.Request.{AnnounceRequest, AnnounceEvent}
use mole_swarm.Tracker.Announce.{second}

-- `normalizeTrackerInterval`, on an interval that is not negative.
unfoldable pub normalize_tracker_interval : ℕ → ℕ
normalize_tracker_interval interval = if ltb interval second then 30 * second else interval

unfoldable pub validate_peer_handshake : Handshake → Bytes → Bytes → Result TorrentError (Unit {0})
unfolding bytes_eq
validate_peer_handshake handshake expected_hash local_peer_id = do
  fail_if (not (bytes_eq handshake.protocol peer_protocol)) wrong_protocol
  fail_if (not (bytes_eq handshake.info_hash expected_hash)) wrong_info_hash
  fail_if (bytes_eq handshake.peer_id local_peer_id) own_peer_id

-- What `writePeerHandshake` writes.
abbrev pub local_handshake : Bytes → Bytes → Handshake
local_handshake info_hash peer_id = record {
  protocol = peer_protocol;
  reserved = replicate 8 0;
  info_hash = info_hash;
  peer_id = peer_id;
}

abbrev pub received_handshake :
    Result HandshakeError (Handshake × Bytes) → Result TorrentError Handshake
received_handshake (err e) = err short_handshake
received_handshake (ok (handshake, rest)) = ok handshake

pub record RunConfig : Type 0 where
  pub peer_id : Bytes
  pub port : ℕ

module _ (w : World) where
  unfoldable pub open_download : MetaInfo → Bytes → (ℕ → Peer) → Result TorrentError (Session w)
  unfolding new_piece_set
  open_download meta path heap = do
    pieces ← new_piece_set meta.info
    created ← or_fail (w.create_file path) file_not_open
    file ← or_fail (w.truncate created meta.info.len) write_failed
    ok (record (new_session w meta pieces heap) { file = some file })

  unfoldable pub open_seed : MetaInfo → Bytes → (ℕ → Peer) → Result TorrentError (Session w)
  unfolding new_piece_set verify_existing
  open_seed meta path heap = do
    pieces ← new_piece_set meta.info
    file ← or_fail (w.open_file path) file_not_open
    verified ← verify_existing w.sha1 w.disk pieces (some file)
    ok (record (new_session w meta verified heap) { file = some file })

  -- The fields that `lifecycleMu` protects, beside the session.
  pub record Torrent : Type 0 where
    pub session : Session w
    pub running : Bool
    pub close_err : Option TorrentError

  unfoldable pub begin_run : Torrent → Result TorrentError Torrent
  begin_run t = do
    fail_if t.running already_running
    ok (record t { running = true; close_err = none })

  unfoldable pub close_file : Session w → Option TorrentError × Session w
  close_file s = elim s.file [
    | none ↦ (none, s)
    | some file ↦ (if w.close_fails file then some close_failed else none, record s { file = none })
  ]

  -- The result of the run, or else that of closing the file.
  abbrev pub first_error : Option TorrentError → Option TorrentError → Option TorrentError
  first_error none file_err = file_err
  first_error (some e) file_err = some e

  unfoldable pub finish_run : Option TorrentError → Torrent → Option TorrentError × Torrent
  unfolding close_peers close_file
  finish_run run_err t =
      let (file_err, s) = close_file (close_peers w t.session) in
      (first_error run_err file_err, record { session = s; running = false; close_err = file_err })

  -- `Close` of a torrent that does not run; of another one it waits for the end of the run.
  unfoldable pub close_idle : Torrent → Option TorrentError × Torrent
  unfolding close_file
  close_idle t = let (e, s) = close_file t.session in (e, record t { session = s })

  unfoldable pub announce_request :
      RunConfig → AnnounceEvent → Session w → Result TorrentError AnnounceRequest
  unfolding bytes_left
  announce_request config event s = bytes_left s.pieces >>= λ left. ok (record {
    info_hash = s.meta.info_hash;
    peer_id = config.peer_id;
    port = config.port;
    uploaded = s.uploaded;
    downloaded = s.downloaded;
    left = left;
    compact = true;
    event = event;
  })

  -- The checks of `connectPeer`: what the peer behind the n-th connection says of itself.
  unfoldable pub exchange_handshakes :
      RunConfig → w.Candidate → ℕ → Session w → Result TorrentError Handshake
  unfolding read_handshake validate_peer_handshake
  exchange_handshakes config candidate n s = do
    stream ← or_fail (w.dial n candidate) dial_failed
    fail_if (not (w.can_write n candidate)) write_failed
    handshake ← received_handshake (read_handshake stream)
    validate_peer_handshake handshake s.meta.info_hash config.peer_id
    ok handshake

  -- `AcceptIncomingPeer`: the peer whose arrival it reports, if the connection can be written to. The
  -- error of a torrent that does not run is the source's.
  unfoldable pub accept_incoming_peer :
      Torrent → Handshake → Bytes → Bool → Result TorrentError Peer
  unfolding validate_peer_handshake new_peer
  accept_incoming_peer t handshake peer_id can_write = do
    fail_if (not t.running) already_running
    validate_peer_handshake handshake t.session.meta.info_hash peer_id
    fail_if (not can_write) write_failed
    ok (record (new_peer handshake) { incoming = true })
