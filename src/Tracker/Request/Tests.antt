-- ===== src/Tracker/Request/Tests.antt =====
-- A request whose port is over 16 bits.
use mole_swarm.Base.{ℕ, ◌≡◌, refl, false, Option, none, some, if◌then◌else◌, replicate, ok}
use mole_swarm.Base.Bytes.{Bytes, codes}
use mole_swarm.Protocol.Bencode.{bytes_eq}
use mole_swarm.Tracker.Request.{Query, AnnounceRequest, no_event, parse_announce_request}
use mole_swarm.Tracker.Request.Parsed.{IsAccepted, parse_announce_request-IsAccepted}

-- A reader of two texts.
abbrev two_numbers : Bytes → Option ℕ
two_numbers text =
    if bytes_eq text (codes "65537")
    then some 65537
    else if bytes_eq text (codes "0")
    then some 0
    else none

abbrev query : Query
query key =
    if bytes_eq key (codes "info_hash")
    then some (replicate 20 1)
    else if bytes_eq key (codes "peer_id")
    then some (replicate 20 2)
    else if bytes_eq key (codes "port")
    then some (codes "65537")
    else if bytes_eq key (codes "event")
    then none
    else some (codes "0")

abbrev request : AnnounceRequest
request = record {
  info_hash = replicate 20 1;
  peer_id = replicate 20 2;
  port = 1;
  uploaded = 0;
  downloaded = 0;
  left = 0;
  compact = false;
  event = no_event;
}

accepted : parse_announce_request two_numbers query ≡ ok request
unfolding parse_announce_request bytes_eq
accepted = refl

parse_announce_request-IsAccepted_example : IsAccepted two_numbers query request
parse_announce_request-IsAccepted_example =
    parse_announce_request-IsAccepted two_numbers query request accepted
