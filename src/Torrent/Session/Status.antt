-- ===== src/Torrent/Session/Status.antt =====
-- torrent/status.go: the observation of a session. The field `TrackerID`, which nothing sets, is left out.
use mole_swarm.Base.{
  ℕ, ◌+◌, ◌-◌, ◌/◌, ◌%◌, Bool, List, [], ◌∷◌, ltb, if◌then◌else◌, length, Result, ok, ◌>>=◌,
}
use mole_swarm.Base.Bytes.{Bytes}
use mole_swarm.Base.Int.{ℤ}
use mole_swarm.Protocol.Bencode.{bytes_lt}
use mole_swarm.Torrent.Piece.{TorrentError}
use mole_swarm.Torrent.Bitfield.{bit_count}
use mole_swarm.Torrent.FileStorage.{nat_of}
use mole_swarm.Torrent.PieceSet.{all_complete, bytes_left, completed_count}
use mole_swarm.Torrent.Session.{World, Session}
use mole_swarm.Torrent.Session.Pending.{pending_count}
use mole_swarm.Torrent.Session.Transfer.{is_paused}
use mole_swarm.Tracker.Server.{Map}

pub data TransferState : Type 0 where
  transfer_downloading transfer_paused transfer_completed : TransferState

pub record PeerStatus : Type 0 where
  pub peer_id : Bytes
  pub address : Bytes
  pub incoming : Bool
  pub am_choking : Bool
  pub am_interested : Bool
  pub peer_choking : Bool
  pub peer_interested : Bool
  pub available_pieces : ℕ
  pub pending_requests : ℕ

pub record Status : Type 0 where
  pub state : TransferState
  pub info_hash : Bytes
  pub name : Bytes
  pub tracker : Bytes
  pub total_bytes : ℕ
  pub piece_length : ℤ
  pub total_pieces : ℕ
  pub complete_pieces : ℕ
  pub bytes_left : ℕ
  pub downloaded_bytes : ℕ
  pub uploaded_bytes : ℕ
  pub pending_requests : ℕ
  pub peers : List PeerStatus

abbrev pub hex_digit : ℕ → ℕ
hex_digit n = if ltb n 10 then n + b'0' else n - 10 + b'a'

-- `fmt.Sprintf("%x", bytes)`
unfoldable pub hex : Bytes → Bytes
hex [] = []
hex (b ∷ bs) = hex_digit (b / 16) ∷ hex_digit (b % 16) ∷ hex bs

unfoldable pub insert_status : PeerStatus → List PeerStatus → List PeerStatus
unfolding bytes_lt
insert_status p [] = p ∷ []
insert_status p (q ∷ l) =
    let rest = insert_status p l in if bytes_lt q.peer_id p.peer_id then q ∷ rest else p ∷ q ∷ l

-- `sort.Slice` by the identifier, which no two peers share.
unfoldable pub sort_statuses : List PeerStatus → List PeerStatus
unfolding insert_status
sort_statuses [] = []
sort_statuses (p ∷ l) = insert_status p (sort_statuses l)

module _ (w : World) where
  unfoldable pub peer_status : Session w → ℕ → PeerStatus
  unfolding hex bit_count pending_count
  peer_status s h = record {
    peer_id = hex (s.heap h).id;
    address = w.remote_address h;
    incoming = (s.heap h).incoming;
    am_choking = (s.heap h).state.am_choking;
    am_interested = (s.heap h).state.am_interested;
    peer_choking = (s.heap h).state.peer_choking;
    peer_interested = (s.heap h).state.peer_interested;
    available_pieces = bit_count (s.heap h).bits (length s.pieces.states);
    pending_requests = pending_count s.pending h;
  }

  unfoldable pub peer_statuses : Session w → Map ℕ → List PeerStatus
  unfolding peer_status
  peer_statuses s [] = []
  peer_statuses s ((id, h) ∷ m) = peer_status s h ∷ peer_statuses s m

  unfoldable pub transfer_state : Session w → Result TorrentError TransferState
  unfolding all_complete
  transfer_state s =
      if is_paused s.mode
      then ok transfer_paused
      else all_complete s.pieces >>= λ complete.
          ok (if complete then transfer_completed else transfer_downloading)

  unfoldable pub build_status : Session w → Result TorrentError Status
  unfolding transfer_state sort_statuses peer_statuses completed_count bytes_left
  build_status s = transfer_state s >>= λ state. bytes_left s.pieces >>= λ left. ok (record {
    state = state;
    info_hash = hex s.meta.info_hash;
    name = s.meta.info.name;
    tracker = s.meta.announce;
    total_bytes = nat_of s.meta.info.len;
    piece_length = s.meta.info.piece_length;
    total_pieces = length s.pieces.states;
    complete_pieces = completed_count s.pieces.states;
    bytes_left = left;
    downloaded_bytes = s.downloaded;
    uploaded_bytes = s.uploaded;
    pending_requests = length s.pending;
    peers = sort_statuses (peer_statuses s (w.visit s.attempts s.peers));
  })
