-- ===== src/Client/Tests.antt =====
-- client/client.go with one torrent.
use mole_swarm.Base.{ℕ, true, false, none, [], ◌∷◌, replicate}
use mole_swarm.Base.Bytes.{Bytes}
use mole_swarm.Base.Int.{pos}
use mole_swarm.Protocol.Metainfo.{Info}
use mole_swarm.Torrent.Session.{World, Session, new_session}
use mole_swarm.Torrent.Session.Lifecycle.{Torrent}
use mole_swarm.Client.{Client}
use mole_swarm.Client.Routing.{incoming_peer}

abbrev world : World
world = record {
  sha1 = λ bytes. bytes;
  disk = record {
    File = Bytes;
    size = λ f. none;
    read_at = λ f offset n. none;
    write_at_file = λ f bytes offset. (f, none);
  };
  create_file = λ path. none;
  truncate = λ file size. none;
  open_file = λ path. none;
  close_fails = λ file. false;
  Candidate = Bytes;
  dial = λ n stream. none;
  can_write = λ n stream. true;
  remote_address = λ h. [];
  room = λ h n. true;
  visit = λ n peers. peers;
}

abbrev twenty : ℕ → Bytes
twenty b = replicate 20 b

abbrev empty_info : Info
empty_info = record { name = []; len = pos 0; piece_length = pos 1; piece_hashes = [] }

abbrev running : Torrent world
running = record {
  session =
      new_session world (record { announce = []; info = empty_info; info_hash = twenty 1 })
        (record { info = empty_info; states = [] }) (λ h. incoming_peer [] []);
  running = true;
  close_err = none;
}

abbrev registered : Client world
registered = record { peer_id = twenty 2; torrents = (twenty 1, running) ∷ []; listen_port = 0 }

-- The session, with the peer that arrives behind the first pointer.
abbrev meeting : Session world
meeting = record running.session { heap = λ h. incoming_peer (twenty 1) (twenty 3) }
