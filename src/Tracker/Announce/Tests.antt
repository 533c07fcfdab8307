-- ===== src/Tracker/Announce/Tests.antt =====
-- A response with one IPv4 peer and one other, with a `netip` of four-byte addresses and a text.
use mole_swarm.Base.{
  ℕ, zero, suc, ◌≡◌, refl, Bool, true, false, Option, none, some, [], ◌∷◌, arith, length, replicate,
  All, ok, ◌>>=◌,
}
use mole_swarm.Base.Bytes.{Bytes}
use mole_swarm.Base.Int.{pos}
use mole_swarm.Tracker.Announce.{
  Netip, AnnounceResponse, encode_announce_response, decode_announce_response,
}
use mole_swarm.Tracker.Announce.RoundTrip.{
  NetipLaws, IsPeer, compact_view, decode-encode_announce_response,
  decode-encode_announce_response_compact,
}

-- An address is four bytes, a zone, or the zero address.
data Address : Type 0 where
  nowhere : Address
  four : ℕ → ℕ → ℕ → ℕ → Address
  zone : Bytes → Address

abbrev show : Address → Bytes
show nowhere = []
show (four a b c d) = zero ∷ a ∷ b ∷ c ∷ d ∷ []
show (zone z) = suc zero ∷ z

abbrev read : Bytes → Option Address
read (zero ∷ a ∷ b ∷ c ∷ d ∷ []) = some (four a b c d)
read (suc k ∷ z) = some (zone z)
read _ = none

abbrev octets : Address → Option Bytes
octets (four a b c d) = some (a ∷ b ∷ c ∷ d ∷ [])
octets _ = none

abbrev is_somewhere : Address → Bool
is_somewhere nowhere = false
is_somewhere _ = true

abbrev from_octets : Bytes → Address
from_octets (a ∷ b ∷ c ∷ d ∷ []) = four a b c d
from_octets z = zone z

abbrev small_netip : Netip
small_netip = record {
  Addr = Address;
  parse_addr = read;
  string = show;
  is_valid = is_somewhere;
  as4 = octets;
  addr_from4 = from_octets;
}

read-show : (a : Address) → is_somewhere a ≡ true → read (show a) ≡ some a
read-show nowhere e = cc
read-show (four a b c d) e = refl
read-show (zone z) e = refl

length-octets : (a : Address) (b : Bytes) → octets a ≡ some b → length b ≡ 4
length-octets (four w x y z) b e = ground (arith, e)
length-octets nowhere b e = cc
length-octets (zone z) b e = cc

from_octets-octets : (a : Address) (b : Bytes) → octets a ≡ some b → from_octets b ≡ a
from_octets-octets (four w x y z) b e = cc
from_octets-octets nowhere b e = cc
from_octets-octets (zone z) b e = cc

small_netip-NetipLaws : NetipLaws small_netip
small_netip-NetipLaws = record {
  parse-string = read-show;
  length-as4 = length-octets;
  addr_from4-as4 = from_octets-octets;
}

abbrev two_peers : AnnounceResponse small_netip
two_peers = record {
  interval = pos 60000000000;
  peers =
      (record { peer_id = replicate 20 7; ip = four 10 0 0 1; port = 6881 })
      ∷ (record { peer_id = replicate 20 8; ip = zone (1 ∷ []); port = 80 })
      ∷ [];
}

two_peers-IsPeer : All IsPeer two_peers.peers
two_peers-IsPeer = (
  record { id_size = refl; port_positive = omega arith; port_size = omega arith },
  (record { id_size = refl; port_positive = omega arith; port_size = omega arith }, tt),
)

decode-encode_announce_response_example :
    (encode_announce_response two_peers false >>= λ v. decode_announce_response v) ≡ ok two_peers
decode-encode_announce_response_example =
    decode-encode_announce_response small_netip-NetipLaws two_peers 60 refl (omega arith)
      two_peers-IsPeer (refl, (refl, tt))

decode-encode_announce_response_compact_example :
    (encode_announce_response two_peers true >>= λ v. decode_announce_response v)
    ≡ ok (record { interval = pos 60000000000; peers = compact_view two_peers.peers })
decode-encode_announce_response_compact_example =
    decode-encode_announce_response_compact small_netip-NetipLaws two_peers 60 refl (omega arith)
      two_peers-IsPeer
