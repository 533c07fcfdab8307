-- ===== src/Tracker/Announce/RoundTrip.antt =====
-- tracker/announce.go: what a client decodes of a response that the tracker has encoded.
use mole_swarm.Base.{
  ℕ, ◌+◌, ◌*◌, ◌/◌, ◌%◌, ◌≤◌, ◌<◌, ◌≡◌, refl, ap, sym, subst, ◌∙◌, true, false, not, none, some,
  List, [], ◌∷◌, ◌++◌, arith, ◌==◌, length, length-append, replicate, All, Option-cases, inl, inr,
  ok, ◌>>=◌,
}
use mole_swarm.Base.Bytes.{Bytes}
use mole_swarm.Base.Int.{pos}
use mole_swarm.Protocol.Bencode.{
  str, integer, dict, no_entries, entry, dict_of, string_of, int_of, find, find_string, find_int,
  bytes_eq,
}
use mole_swarm.Tracker.Announce.{
  Netip, Peer, AnnounceResponse, second, max_int64, key_peer_id, key_ip, key_port, decode_compact,
  parse_peer, parse_peers, decode_peers, decode_announce_response, compact_peers, peer_items,
  encode_announce_response, whole_seconds, seconds_of,
}

-- What `netip` documents of the functions that are used.
pub record NetipLaws (netip : Netip) : Type 0 where
  pub parse-string :
      (a : netip.Addr) → netip.is_valid a ≡ true → netip.parse_addr (netip.string a) ≡ some a
  pub length-as4 : (a : netip.Addr) (b : Bytes) → netip.as4 a ≡ some b → length b ≡ 4
  pub addr_from4-as4 : (a : netip.Addr) (b : Bytes) → netip.as4 a ≡ some b → netip.addr_from4 b ≡ a

-- A peer that an announce request has put into the swarm.
pub record IsPeer {netip : Netip} (p : Peer netip) : Type 0 where
  pub id_size : length p.peer_id ≡ 20
  pub port_positive : 0 < p.port
  pub port_size : p.port < 65536

-- The address of the peer is not the zero `Addr`, which has no text.
abbrev pub HasAddress : {netip : Netip} → Peer netip → Type 0
HasAddress {netip} p = netip.is_valid p.ip ≡ true

-- What the compact form keeps of a peer: nothing of one that has no IPv4 address, and no peer id.
unfoldable pub compact_view : {netip : Netip} → List (Peer netip) → List (Peer netip)
compact_view {netip} [] = []
compact_view {netip} (p ∷ ps) = elim (netip.as4 p.ip) [
  | none ↦ compact_view ps
  | some ip ↦ record { peer_id = replicate 20 0; ip = p.ip; port = p.port } ∷ compact_view ps
]

-- Six bytes for each peer, which decode to it.
four_bytes :
    (b : Bytes) → length b ≡ 4 → (w : ℕ) × (x : ℕ) × (y : ℕ) × (z : ℕ) × (b ≡ w ∷ x ∷ y ∷ z ∷ [])
four_bytes [] e = absurd (omega (arith, e))
four_bytes (w ∷ []) e = absurd (omega (arith, e))
four_bytes (w ∷ x ∷ []) e = absurd (omega (arith, e))
four_bytes (w ∷ x ∷ y ∷ []) e = absurd (omega (arith, e))
four_bytes (w ∷ x ∷ y ∷ z ∷ []) e = (w, x, y, z, refl)
four_bytes (w ∷ x ∷ y ∷ z ∷ v ∷ b) e = absurd (omega (arith, e))

whole_seconds-pos : (seconds : ℕ) → whole_seconds (pos (seconds * second)) ≡ some seconds
whole_seconds-pos seconds = ground arith

seconds_of-pos :
    (seconds : ℕ) → seconds ≤ max_int64 / second → seconds_of (pos seconds) ≡ some seconds
seconds_of-pos seconds h = ground arith

divisible : (n : ℕ) → n ≡ 0 → not (n == 0) ≡ false
divisible n h = ground arith

module _ {netip : Netip} where
  compact_peers-none :
      (p : Peer netip) (ps : List (Peer netip))
      → netip.as4 p.ip ≡ none
      → compact_peers (p ∷ ps) ≡ compact_peers ps
  unfolding compact_peers
  compact_peers-none p ps e = ground arith

  compact_peers-some :
      (p : Peer netip) (ps : List (Peer netip)) (b : Bytes)
      → netip.as4 p.ip ≡ some b
      → compact_peers (p ∷ ps) ≡ b ++ (p.port / 256 % 256 ∷ p.port % 256 ∷ compact_peers ps)
  unfolding compact_peers
  compact_peers-some p ps b e = ground arith

  compact_view-none :
      (p : Peer netip) (ps : List (Peer netip))
      → netip.as4 p.ip ≡ none
      → compact_view (p ∷ ps) ≡ compact_view ps
  unfolding compact_view
  compact_view-none p ps e = ground arith

  compact_view-some :
      (p : Peer netip) (ps : List (Peer netip)) (b : Bytes)
      → netip.as4 p.ip ≡ some b
      → compact_view (p ∷ ps)
        ≡ record { peer_id = replicate 20 0; ip = p.ip; port = p.port } ∷ compact_view ps
  unfolding compact_view
  compact_view-some p ps b e = ground arith

module _ {netip : Netip} (laws : NetipLaws netip) where
  length-compact_peers : (ps : List (Peer netip)) → length (compact_peers ps) % 6 ≡ 0
  unfolding compact_peers
  length-compact_peers [] = refl
  length-compact_peers (p ∷ ps) = elim (Option-cases (netip.as4 p.ip)) [
    | inl absent ↦ cc (compact_peers-none p ps absent, length-compact_peers ps)
    | inr (b, present) ↦
        ap (λ bytes. length bytes % 6) (compact_peers-some p ps b present)
        ∙ omega (
          arith,
          length-append b (p.port / 256 % 256 ∷ p.port % 256 ∷ compact_peers ps),
          laws.length-as4 p.ip b present,
          length-compact_peers ps,
        )
  ]

  decode_six :
      (w x y z port : ℕ) (rest : Bytes) (ps : List (Peer netip))
      → 0 < port
      → port < 65536
      → decode_compact rest ≡ ok ps
      → decode_compact (w ∷ x ∷ y ∷ z ∷ port / 256 % 256 ∷ port % 256 ∷ rest)
        ≡ ok (
            record {
              peer_id = replicate 20 0;
              ip = netip.addr_from4 (w ∷ x ∷ y ∷ z ∷ []);
              port = port;
            }
            ∷ ps)
  unfolding decode_compact
  decode_six w x y z port rest ps some_port lt e =
      let value : port / 256 % 256 * 256 + port % 256 ≡ port = omega arith in ground (arith, value)

  decode_group :
      (b : Bytes) (port : ℕ) (rest : Bytes) (ps : List (Peer netip))
      → length b ≡ 4
      → 0 < port
      → port < 65536
      → decode_compact rest ≡ ok ps
      → decode_compact (b ++ (port / 256 % 256 ∷ port % 256 ∷ rest))
        ≡ ok (record { peer_id = replicate 20 0; ip = netip.addr_from4 b; port = port } ∷ ps)
  decode_group b port rest ps size some_port lt e =
      let (w, x, y, z, shape) = four_bytes b size in
      subst
        (λ bytes.
          decode_compact (bytes ++ (port / 256 % 256 ∷ port % 256 ∷ rest))
          ≡ ok (record { peer_id = replicate 20 0; ip = netip.addr_from4 bytes; port = port } ∷ ps))
        (sym shape) (decode_six w x y z port rest ps some_port lt e)

  decode_compact-compact_peers :
      (ps : List (Peer netip))
      → All IsPeer ps
      → decode_compact (compact_peers ps) ≡ ok (compact_view ps)
  unfolding compact_peers compact_view decode_compact
  decode_compact-compact_peers [] v = refl
  decode_compact-compact_peers (p ∷ ps) v = elim (Option-cases (netip.as4 p.ip)) [
    | inl absent ↦
        ap decode_compact (compact_peers-none p ps absent)
        ∙ decode_compact-compact_peers ps v.1
        ∙ ap ok (sym (compact_view-none p ps absent))
    | inr (b, present) ↦
        ap decode_compact (compact_peers-some p ps b present)
        ∙ decode_group b p.port (compact_peers ps) (compact_view ps)
            (laws.length-as4 p.ip b present) v.0.port_positive v.0.port_size
            (decode_compact-compact_peers ps v.1)
        ∙ cc (laws.addr_from4-as4 p.ip b present, compact_view-some p ps b present)
  ]

  parse_peer-peer_items :
      (p : Peer netip)
      → IsPeer p
      → HasAddress p
      → parse_peer (
          dict (
            entry key_peer_id (str p.peer_id) (
              entry key_ip
                (str (netip.string p.ip))
                (entry key_port (integer (pos p.port)) no_entries))))
        ≡ ok p
  unfolding parse_peer find_string find_int find bytes_eq string_of int_of dict_of
  parse_peer-peer_items p v a =
      ground (arith, laws.parse-string p.ip a, v.id_size, v.port_positive, v.port_size)

  parse_peers-peer_items :
      (ps : List (Peer netip))
      → All IsPeer ps
      → All HasAddress ps
      → parse_peers (peer_items ps) ≡ ok ps
  unfolding parse_peers peer_items
  parse_peers-peer_items [] v a = refl
  parse_peers-peer_items (p ∷ ps) v a =
      cc (parse_peer-peer_items p v.0 a.0, parse_peers-peer_items ps v.1 a.1)

  -- Where addresses obey the laws of `netip`, a full response whose interval is a whole number of
  -- seconds, at most 9223372036, and whose peers have ids of 20 bytes, ports from 1 to 65535 and
  -- addresses other than the zero `Addr` is encoded and decodes to itself.
  pub decode-encode_announce_response :
      (r : AnnounceResponse netip) (seconds : ℕ)
      → r.interval ≡ pos (seconds * second)
      → seconds ≤ max_int64 / second
      → All IsPeer r.peers
      → All HasAddress r.peers
      → (encode_announce_response r false >>= λ v. decode_announce_response v) ≡ ok r
  unfolding encode_announce_response decode_announce_response decode_peers find_string find_int find
      bytes_eq string_of int_of dict_of
  decode-encode_announce_response r seconds whole small v a = cc (
    whole,
    whole_seconds-pos seconds,
    seconds_of-pos seconds small,
    parse_peers-peer_items r.peers v a,
  )

  -- Where addresses obey the laws of `netip`, a compact response whose interval is a whole number
  -- of seconds, at most 9223372036, and whose peers have ids of 20 bytes and ports from 1 to 65535
  -- is encoded, and decodes to the same interval and to the peers with an IPv4 address, in their
  -- order, with address and port and a peer id of zeros.
  pub decode-encode_announce_response_compact :
      (r : AnnounceResponse netip) (seconds : ℕ)
      → r.interval ≡ pos (seconds * second)
      → seconds ≤ max_int64 / second
      → All IsPeer r.peers
      → (encode_announce_response r true >>= λ v. decode_announce_response v)
        ≡ ok (record { interval = r.interval; peers = compact_view r.peers })
  unfolding encode_announce_response decode_announce_response decode_peers find_string find_int find
      bytes_eq string_of int_of dict_of
  decode-encode_announce_response_compact r seconds whole small v = cc (
    whole,
    whole_seconds-pos seconds,
    seconds_of-pos seconds small,
    divisible (length (compact_peers r.peers) % 6) (length-compact_peers r.peers),
    decode_compact-compact_peers r.peers v,
  )
