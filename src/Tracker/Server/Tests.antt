-- ===== src/Tracker/Server/Tests.antt =====
-- A tracker with one swarm of two peers, one of them expired, and an announce of a third.
use mole_swarm.Base.{ℕ, ◌≤◌, ◌≡◌, refl, true, false, none, some, [], ◌∷◌, length, All}
use mole_swarm.Base.Bytes.{Bytes}
use mole_swarm.Protocol.Bencode.{bytes_eq}
use mole_swarm.Tracker.Announce.{Netip}
use mole_swarm.Tracker.Request.{AnnounceRequest, started_event}
use mole_swarm.Tracker.Server.{Server, lookup, entries_of, announce}
use mole_swarm.Tracker.Server.Swarm.{announce-lookup, announce-lookup_other}
use mole_swarm.Tracker.Server.Answer.{IsFresh, IsAnswer, announce-IsAnswer}

-- Addresses that are numbers.
abbrev number_netip : Netip
number_netip = record {
  Addr = ℕ;
  parse_addr = λ b. none;
  string = λ a. [];
  is_valid = λ a. true;
  as4 = λ a. none;
  addr_from4 = λ b. 0;
}

abbrev torrent : Bytes
torrent = 1 ∷ []

abbrev other_torrent : Bytes
other_torrent = 2 ∷ []

abbrev server : Server number_netip
server = record {
  interval = 30;
  peer_ttl = 90;
  swarms =
      (
        torrent,
        (7 ∷ [], record { address = 70; port = 1; last_seen = 10; left = 0 })
            ∷ (8 ∷ [], record { address = 80; port = 2; last_seen = 150; left = 5 })
            ∷ [],
      )
      ∷ [];
  allowed_info_hashes = none;
}

abbrev request : AnnounceRequest
request = record {
  info_hash = torrent;
  peer_id = 9 ∷ [];
  port = 3;
  uploaded = 0;
  downloaded = 0;
  left = 5;
  compact = true;
  event = started_event;
}

announce-lookup_example :
    lookup (entries_of (lookup (announce server request 90 200).1.swarms torrent)) (9 ∷ [])
    ≡ some (record { address = 90; port = 3; last_seen = 200; left = 5 })
announce-lookup_example = announce-lookup server request 90 200

different : bytes_eq torrent other_torrent ≡ false
unfolding bytes_eq
different = refl

announce-lookup_other_example :
    lookup (announce server request 90 200).1.swarms other_torrent
    ≡ lookup server.swarms other_torrent
announce-lookup_other_example = announce-lookup_other server request 90 200 other_torrent different

announce-IsAnswer_example :
    All (IsFresh 90 200) (entries_of (lookup (announce server request 90 200).1.swarms torrent))
    × (length (announce server request 90 200).0.peers ≤ 50)
    × All
        (IsAnswer (entries_of (lookup (announce server request 90 200).1.swarms torrent)) (9 ∷ []))
        (announce server request 90 200).0.peers
announce-IsAnswer_example = announce-IsAnswer server request 90 200

one_answer :
    (announce server request 90 200).0.peers ≡ record { peer_id = 8 ∷ []; ip = 80; port = 2 } ∷ []
unfolding announce bytes_eq
one_answer = refl
