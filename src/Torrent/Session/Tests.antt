-- ===== src/Torrent/Session/Tests.antt =====
-- torrent/ at a torrent of three bytes in pieces of two, one peer, and a queue that always has room.
use mole_swarm.Base.{
  ℕ, ◌≡◌, refl, ap, sym, subst, true, false, none, some, List, [], ◌∷◌, ◌++◌, arith, ◌+◌, ◌-◌, ◌%◌,
  ◌^◌, inl, length, take, drop, replicate, write_at, ok, err,
}
use mole_swarm.Base.Bytes.{Bytes, read_full, uint32}
use mole_swarm.Base.Bits.{test_bit}
use mole_swarm.Base.Int.{pos}
use mole_swarm.Protocol.Message.{
  have, bitfield, unchoke, piece, read_body, decode_body, decode_payload,
}
use mole_swarm.Protocol.Metainfo.{Info, MetaInfo}
use mole_swarm.Torrent.Piece.{unexpected_block}
use mole_swarm.Torrent.FileStorage.{Disk, nat_of}
use mole_swarm.Torrent.PieceSet.{no_data}
use mole_swarm.Torrent.Session.{World, Session, Peer, new_session, paused}
use mole_swarm.Torrent.Session.Peers.{
  PeerEvent, arrived, disconnected, message_received, handle_peer_event, handle_events,
}
use mole_swarm.Torrent.Session.Transfer.{is_assigned, receive_block, delivered_request}
use mole_swarm.Torrent.Session.Lifecycle.{RunConfig, Torrent, open_download}
use mole_swarm.Torrent.Session.Loop.{LoopEvent, peer_event, mode_request, run_loop, run_download}
use mole_swarm.Torrent.Session.Sound.{IsSound}
use mole_swarm.Torrent.Session.Sound.Opened.{IsInRange, open_download-IsSound}
use mole_swarm.Torrent.Session.Sound.Lifetime.{
  Succeeds, run_loop-IsSound, run_download-IsFinished, IsFinished, run_error,
}
use mole_swarm.Torrent.Session.Reading.{read_loop, handle_events-read_loop}
use mole_swarm.Torrent.Session.Departure.{IsGone, disconnected-IsGone}
use mole_swarm.Torrent.Session.Delivery.{receive_block-once}

-- A file whose reads and writes never fail.
abbrev memory : Disk
memory = record {
  File = Bytes;
  size = λ f. some (length f);
  read_at = λ f offset n. some (take n (drop offset f));
  write_at_file = λ f bytes offset. (
    write_at (f ++ replicate (offset + length bytes - length f) 0) offset bytes,
    some (length bytes),
  );
}

abbrev world : World
world = record {
  sha1 = λ bytes. length bytes ∷ take 1 bytes;
  disk = memory;
  create_file = λ path. some [];
  truncate = λ file size. some (replicate (nat_of size) 0);
  open_file = λ path. none;
  close_fails = λ file. false;
  Candidate = Bytes;
  dial = λ n stream. some stream;
  can_write = λ n stream. true;
  remote_address = λ h. [];
  room = λ h n. true;
  visit = λ n peers. peers;
}

abbrev info : Info
info = record {
  name = [];
  len = pos 3;
  piece_length = pos 2;
  piece_hashes = (2 ∷ 7 ∷ []) ∷ (1 ∷ 4 ∷ []) ∷ [];
}

abbrev meta_info : MetaInfo
meta_info = record { announce = []; info = info; info_hash = replicate 20 1 }

abbrev peer_at : ℕ → Peer
peer_at h = record {
  id = h ∷ [];
  info_hash = replicate 20 1;
  incoming = false;
  state = record {
    am_choking = true;
    am_interested = false;
    peer_choking = true;
    peer_interested = false;
  };
  bits = [];
  closed = false;
}

abbrev start : Session world
start =
    record (new_session world meta_info (record { info = info; states = no_data ∷ no_data ∷ [] })
      peer_at) { file = some (0 ∷ 0 ∷ 0 ∷ []) }

opened : open_download world meta_info [] peer_at ≡ ok start
unfolding open_download
opened = refl

in_range : IsInRange info
in_range = (omega arith, omega arith)

start-IsSound : IsSound world start
start-IsSound = open_download-IsSound world meta_info [] peer_at start in_range opened

abbrev config : RunConfig
config = record { peer_id = replicate 20 2; port = 6881 }

-- A peer that has both pieces comes, and lets the session ask for them.
abbrev greeting : List (LoopEvent world)
greeting =
    peer_event (arrived (some 0))
    ∷ peer_event (message_received (some 0) (bitfield (192 ∷ [])))
    ∷ peer_event (message_received (some 0) unchoke)
    ∷ []

abbrev events : List (LoopEvent world)
events =
    greeting
    ++ peer_event (message_received (some 0) (piece 0 0 (7 ∷ 9 ∷ []))) ∷ mode_request paused ∷ []

-- The frames of two messages, `Unchoke` and `Have` of piece 1, and the start of a third one.
abbrev frames : Bytes
frames = 0 ∷ 0 ∷ 0 ∷ 1 ∷ 1 ∷ 0 ∷ 0 ∷ 0 ∷ 5 ∷ 4 ∷ 0 ∷ 0 ∷ 0 ∷ 1 ∷ 0 ∷ []

abbrev frame_events : List PeerEvent
frame_events =
    message_received (some 0) unchoke
    ∷ message_received (some 0) (have 1)
    ∷ disconnected (some 0)
    ∷ []

frames_read : read_loop 5 0 frames ≡ ok frame_events
unfolding read_loop read_full uint32 read_body decode_body decode_payload
frames_read = refl

handle_events-read_loop_example :
    (es : List PeerEvent) × (read_loop 5 0 frames ≡ ok es)
    × Succeeds world (handle_events world es) start
handle_events-read_loop_example = handle_events-read_loop world 5 0 frames start start-IsSound

run_loop-IsSound_example : Succeeds world (run_loop world config events) start
run_loop-IsSound_example =
    run_loop-IsSound world meta_info [] peer_at start config events in_range (inl opened)
      (tt, (tt, (tt, (omega arith, (tt, tt)))))

abbrev torrent : Torrent world
torrent = record { session = start; running = false; close_err = none }

run_download-IsFinished_example :
    ((run_download world config (some []) events torrent).0
      ≡ some (run_error {A = List Bytes} (some [])))
    × IsFinished world (run_download world config (some []) events torrent).1
run_download-IsFinished_example =
    run_download-IsFinished world config (some []) events torrent refl start-IsSound
      (tt, (tt, (tt, (omega arith, (tt, tt)))))

abbrev asking : Session world
unfolding run_loop
asking = (run_loop world config greeting start).1

asking-IsSound : IsSound world asking
unfolding asking run_loop
asking-IsSound =
    let (q, e, sound) =
      run_loop-IsSound world meta_info [] peer_at start config greeting in_range (inl opened)
        (tt, (tt, (tt, tt))) in
    subst (IsSound world) (sym (ap (λ out. out.1) e)) sound

asked_of_peer : is_assigned world asking 0 (delivered_request 0 0 (7 ∷ 9 ∷ [])) ≡ true
unfolding is_assigned run_loop test_bit
asked_of_peer = refl

-- The first piece is complete after its only block.
first_piece_complete : (receive_block world 0 0 0 (7 ∷ 9 ∷ []) asking).0 ≡ ok true
unfolding receive_block run_loop write_at test_bit
first_piece_complete = refl

receive_block-once_example :
    (Session.downloaded ((receive_block world 0 0 0 (7 ∷ 9 ∷ []) asking).1)
      ≡ (asking.downloaded + 2) % 2 ^ 64)
    × (receive_block world 1 0 0 (7 ∷ 9 ∷ []) (receive_block world 0 0 0 (7 ∷ 9 ∷ []) asking).1
        ≡ (err unexpected_block, (receive_block world 0 0 0 (7 ∷ 9 ∷ []) asking).1))
receive_block-once_example =
    receive_block-once world 0 1 0 0 (7 ∷ 9 ∷ []) asking (omega arith) asking-IsSound asked_of_peer

disconnected-IsGone_example :
    ((handle_peer_event world (disconnected (some 0)) asking).0 ≡ ok tt)
    × IsGone world 0 asking (handle_peer_event world (disconnected (some 0)) asking).1
disconnected-IsGone_example = disconnected-IsGone world 0 asking
