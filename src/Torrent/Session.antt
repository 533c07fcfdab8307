-- ===== src/Torrent/Session.antt =====
-- torrent/torrent.go and torrent/peer.go: a running torrent session. A `*peer` is a number, and
-- `heap` the objects that these pointers lead to; a map is an association list. A peer's queue is what
-- `room` says of it at each attempt to send, so that its writer may have taken any messages in between.
pub mod Pending
pub mod Transfer
pub mod Peers
pub mod Status
pub mod Lifecycle
pub mod Mode
pub mod Loop
pub mod Crash
pub mod Sound
pub mod Departure
pub mod Delivery
pub mod Arrival
pub mod Reading
mod Tests
use mole_swarm.Base.{
  ℕ, ◌+◌, ◌%◌, Bool, true, false, Option, none, some, List, [], ◌∷◌, ◌==◌, if◌then◌else◌, Result,
  ok, err,
}
use mole_swarm.Base.Bytes.{Bytes}
use mole_swarm.Base.Int.{ℤ}
use mole_swarm.Base.State.{State}
use mole_swarm.Protocol.Message.{BlockRequest, Message}
use mole_swarm.Protocol.Metainfo.{MetaInfo}
use mole_swarm.Protocol.Handshake.{Handshake}
use mole_swarm.Torrent.Piece.{TorrentError, index_panic, out_of_fuel, peer_write_queue_full}
use mole_swarm.Torrent.FileStorage.{Disk}
use mole_swarm.Torrent.PieceSet.{PieceSet, new_piece_set}
use mole_swarm.Tracker.Server.{Map}

pub record PeerState : Type 0 where
  pub am_choking : Bool
  pub am_interested : Bool
  pub peer_choking : Bool
  pub peer_interested : Bool

-- `closed` says whether `conn.Close` was called.
pub record Peer : Type 0 where
  pub id : Bytes
  pub info_hash : Bytes
  pub incoming : Bool
  pub state : PeerState
  pub bits : Bytes
  pub closed : Bool

unfoldable pub new_peer : Handshake → Peer
new_peer h = record {
  id = h.peer_id;
  info_hash = h.info_hash;
  incoming = false;
  state = record {
    am_choking = true;
    am_interested = false;
    peer_choking = true;
    peer_interested = false;
  };
  bits = [];
  closed = false;
}

-- The string of a new session is empty.
pub data DownloadMode : Type 0 where
  unset progress paused : DownloadMode

-- What the session takes from outside: the hash; the file system, which creates and opens files by
-- name, cuts them and says whether closing fails; the peers of a tracker, with what the n-th
-- connection brings if it is made and whether it can be written to; the address at the other end of a
-- connection; whether the queue of a peer has room at the n-th attempt to send; and the order in which
-- a loop over a map visits it.
pub record World : Type 1 where
  pub sha1 : Bytes → Bytes
  pub disk : Disk
  pub create_file : Bytes → Option disk.File
  pub truncate : disk.File → ℤ → Option disk.File
  pub open_file : Bytes → Option disk.File
  pub close_fails : disk.File → Bool
  pub Candidate : Type 0
  pub dial : ℕ → Candidate → Option Bytes
  pub can_write : ℕ → Candidate → Bool
  pub remote_address : ℕ → Bytes
  pub room : ℕ → ℕ → Bool
  pub visit : ℕ → Map ℕ → Map ℕ

pub record Session (w : World) : Type 0 where
  pub meta : MetaInfo
  pub pieces : PieceSet
  pub file : Option w.disk.File
  pub pending : List (BlockRequest × ℕ)
  pub peers : Map ℕ
  pub uploaded : ℕ
  pub downloaded : ℕ
  pub mode : DownloadMode
  pub heap : ℕ → Peer
  pub next : ℕ
  pub attempts : ℕ
  pub sent : List (ℕ × Message)

-- The failures that are no error values of the source.
abbrev pub is_crash : TorrentError → Bool
is_crash index_panic = true
is_crash out_of_fuel = true
is_crash _ = false

module _ (w : World) where
  abbrev pub Action : Type 0 → Type 0
  Action A = State (Session w) TorrentError A

  -- `t.pieces`, to an operation that changes it.
  abbrev pub on_pieces : {A : Type 0} → (PieceSet → Result TorrentError A × PieceSet) → Action A
  on_pieces f s = ((f s.pieces).0, record s { pieces = (f s.pieces).1 })

  abbrev pub update_peer : ℕ → (Peer → Peer) → Session w → Session w
  update_peer h f s = record s { heap = λ k. if k == h then f (s.heap h) else s.heap k }

  abbrev pub update_state : ℕ → (PeerState → PeerState) → Session w → Session w
  update_state h f s = update_peer h (λ p. record p { state = f p.state }) s

  -- `peer.sendMessage`; `sent` holds what was queued, the last message first.
  unfoldable pub send_message : ℕ → Message → Action (Unit {0})
  send_message h message s =
      if w.room h s.attempts
      then (ok tt, record s { attempts = s.attempts + 1; sent = (h, message) ∷ s.sent })
      else (err peer_write_queue_full, record s { attempts = s.attempts + 1 })

  -- The session that `New` makes, with the objects there are.
  abbrev pub new_session : MetaInfo → PieceSet → (ℕ → Peer) → Session w
  new_session meta pieces heap = record {
    meta = meta;
    pieces = pieces;
    file = none;
    pending = [];
    peers = [];
    uploaded = 0;
    downloaded = 0;
    mode = unset;
    heap = heap;
    next = 0;
    attempts = 0;
    sent = [];
  }
