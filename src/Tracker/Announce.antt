-- ===== src/Tracker/Announce.antt =====
-- tracker/announce.go: announce responses. The package `netip` is the parameter `Netip`; an interval
-- is a number of nanoseconds.
pub mod RoundTrip
mod Tests
use mole_swarm.Base.{
  ℕ, zero, suc, ◌+◌, ◌*◌, ◌/◌, ◌%◌, ◌^◌, ◌≡◌, Bool, true, false, not, ◌&&◌, ◌||◌, Option, none,
  some, List, [], ◌∷◌, ◌++◌, ltb, leb, ◌==◌, if◌then◌else◌, length, replicate, Result, ok, err,
  ◌>>=◌, ◌>>◌, fail_if,
}
use mole_swarm.Base.Bytes.{Bytes, codes}
use mole_swarm.Base.Int.{ℤ, pos, negsuc}
use mole_swarm.Protocol.Bencode.{
  Bencoding, Items, Entries, str, integer, list, dict, unset, no_items, item, no_entries, entry,
  dict_of, list_of, string_of, find, find_string, find_int,
}

-- `As4` is `none` where `Is4` is false, and `is_valid` is false of the zero `Addr` alone.
pub record Netip : Type 1 where
  pub Addr : Type 0
  pub parse_addr : Bytes → Option Addr
  pub string : Addr → Bytes
  pub is_valid : Addr → Bool
  pub as4 : Addr → Option Bytes
  pub addr_from4 : Bytes → Addr

pub data AnnounceError : Type 0 where
  not_a_dict tracker_failure no_interval bad_interval no_peers bad_compact_length : AnnounceError
  zero_port bad_peers bad_peer : AnnounceError

pub record Peer (netip : Netip) : Type 0 where
  pub peer_id : Bytes
  pub ip : netip.Addr
  pub port : ℕ

pub record AnnounceResponse (netip : Netip) : Type 0 where
  pub interval : ℤ
  pub peers : List (Peer netip)

abbrev pub second : ℕ
second = 1000000000

abbrev pub max_int64 : ℕ
max_int64 = 9223372036854775807

abbrev pub key_failure : Bytes
key_failure = codes "failure reason"

abbrev pub key_interval : Bytes
key_interval = codes "interval"

abbrev pub key_peers : Bytes
key_peers = codes "peers"

abbrev pub key_peer_id : Bytes
key_peer_id = codes "peer id"

abbrev pub key_ip : Bytes
key_ip = codes "ip"

abbrev pub key_port : Bytes
key_port = codes "port"

abbrev pub or_fail {ℓ} : {A : Type ℓ} → Option A → AnnounceError → Result AnnounceError A
or_fail none e = err e
or_fail (some a) e = ok a

abbrev pub is_present {ℓ} : {A : Type ℓ} → Option A → Bool
is_present none = false
is_present (some a) = true

-- The interval in seconds, within what a duration holds.
abbrev pub seconds_of : ℤ → Option ℕ
seconds_of (pos n) = if ltb (max_int64 / second) n then none else some n
seconds_of (negsuc n) = none

-- A port from 1 to 65535.
abbrev pub port_of : ℤ → Option ℕ
port_of (pos n) = if (n == 0) || ltb 65535 n then none else some n
port_of (negsuc n) = none

-- The interval in seconds, if it is a whole number of them.
abbrev pub whole_seconds : ℤ → Option ℕ
whole_seconds (pos n) = if n % second == 0 then some (n / second) else none
whole_seconds (negsuc n) = none

module _ {netip : Netip} where
  -- The loop over the groups of six bytes, behind the test of the length in `decode_peers`.
  unfoldable pub decode_compact : Bytes → Result AnnounceError (List (Peer netip))
  decode_compact [] = ok []
  decode_compact (a ∷ b ∷ c ∷ d ∷ high ∷ low ∷ rest) =
      let more = decode_compact rest in
      fail_if (high * 256 + low == 0) zero_port
      >> (more >>= λ peers. ok (
          record {
            peer_id = replicate 20 0;
            ip = netip.addr_from4 (a ∷ b ∷ c ∷ d ∷ []);
            port = high * 256 + low;
          }
          ∷ peers))
  decode_compact _ = err bad_compact_length

  unfoldable pub parse_peer_dict : Entries → Result AnnounceError (Peer netip)
  parse_peer_dict d = do
    peer_id ← or_fail (find_string key_peer_id d) bad_peer
    fail_if (not (length peer_id == 20)) bad_peer
    ip_value ← or_fail (find_string key_ip d) bad_peer
    ip ← or_fail (netip.parse_addr ip_value) bad_peer
    port_value ← or_fail (find_int key_port d) bad_peer
    port ← or_fail (port_of port_value) bad_peer
    ok (record { peer_id = peer_id; ip = ip; port = port })

  unfoldable pub parse_peer : Bencoding → Result AnnounceError (Peer netip)
  unfolding parse_peer_dict
  parse_peer v = or_fail (dict_of v) bad_peer >>= parse_peer_dict

  unfoldable pub parse_peers : Items → Result AnnounceError (List (Peer netip))
  unfolding parse_peer
  parse_peers no_items = ok []
  parse_peers (item v vs) =
      let more = parse_peers vs in parse_peer v >>= λ peer. more >>= λ peers. ok (peer ∷ peers)

  unfoldable pub decode_peers : Bencoding → Result AnnounceError (List (Peer netip))
  unfolding decode_compact parse_peers
  decode_peers (list vs) = parse_peers vs
  decode_peers (str compact) =
      fail_if (not (length compact % 6 == 0)) bad_compact_length >> decode_compact compact
  decode_peers _ = err bad_peers

  unfoldable pub decode_announce_response :
      Bencoding → Result AnnounceError (AnnounceResponse netip)
  unfolding decode_peers
  decode_announce_response v = do
    body ← or_fail (dict_of v) not_a_dict
    fail_if (is_present (find_string key_failure body)) tracker_failure
    interval ← or_fail (find_int key_interval body) no_interval
    seconds ← or_fail (seconds_of interval) bad_interval
    peers_value ← or_fail (find key_peers body) no_peers
    peers ← decode_peers peers_value
    ok (record { interval = pos (seconds * second); peers = peers })

  -- The loop over the peers; a port is two bytes.
  unfoldable pub compact_peers : List (Peer netip) → Bytes
  compact_peers [] = []
  compact_peers (p ∷ ps) = elim (netip.as4 p.ip) [
    | none ↦ compact_peers ps
    | some ip ↦ ip ++ (p.port / 256 % 256 ∷ p.port % 256 ∷ compact_peers ps)
  ]

  unfoldable pub peer_items : List (Peer netip) → Items
  peer_items [] = no_items
  peer_items (p ∷ ps) =
      item
        (dict (
          entry key_peer_id (str p.peer_id) (
            entry key_ip (str (netip.string p.ip))
              (entry key_port (integer (pos p.port)) no_entries))))
        (peer_items ps)

  unfoldable pub encode_announce_response :
      AnnounceResponse netip → Bool → Result AnnounceError Bencoding
  unfolding compact_peers peer_items
  encode_announce_response response compact =
      or_fail (whole_seconds response.interval) bad_interval >>= λ seconds. ok (
        dict (
          entry key_interval (integer (pos seconds)) (
            entry key_peers
              (if compact
                then str (compact_peers response.peers)
                else list (peer_items response.peers))
              no_entries)))
