-- ===== src/Tracker/Server.antt =====
-- tracker/server.go: the swarms of the tracker. A map is an association list in the order in which a
-- loop over it runs, a time a number of nanoseconds, and the mutex makes each operation one step.
pub mod Swarm
pub mod Answer
mod Tests
use mole_swarm.Base.{
  ℕ, zero, suc, ◌+◌, ◌-◌, ◌*◌, ◌%◌, ◌≡◌, Bool, true, false, not, ◌&&◌, ◌||◌, Option, none, some,
  List, [], ◌∷◌, ltb, leb, ◌==◌, if◌then◌else◌, length, Result, ok, err, ◌>>=◌, ◌>>◌, fail_if,
}
use mole_swarm.Base.Bytes.{Bytes}
use mole_swarm.Base.Int.{ℤ, pos, negsuc}
use mole_swarm.Protocol.Bencode.{bytes_eq}
use mole_swarm.Tracker.Request.{AnnounceEvent, AnnounceRequest, stopped_event}
use mole_swarm.Tracker.Announce.{Netip, Peer, AnnounceResponse, second}

abbrev pub max_peers_per_announce : ℕ
max_peers_per_announce = 50

pub record TrackedPeer (netip : Netip) : Type 0 where
  pub address : netip.Addr
  pub port : ℕ
  pub last_seen : ℕ
  pub left : ℕ

abbrev pub Map : Type 0 → Type 0
Map A = List (Bytes × A)

-- The index expression of a map.
unfoldable pub lookup : {A : Type 0} → Map A → Bytes → Option A
lookup [] key = none
lookup ((k, a) ∷ m) key = if bytes_eq k key then some a else lookup m key

-- `delete(m, key)`
unfoldable pub delete : {A : Type 0} → Map A → Bytes → Map A
delete [] key = []
delete ((k, a) ∷ m) key = let rest = delete m key in if bytes_eq k key then rest else (k, a) ∷ rest

-- `m[key] = value`
unfoldable pub put : {A : Type 0} → Map A → Bytes → A → Map A
unfolding delete
put m key a = (key, a) ∷ delete m key

abbrev pub entries_of : {A : Type 0} → Option (Map A) → Map A
entries_of none = []
entries_of (some m) = m

abbrev pub is_nil : {A : Type 0} → Map A → Bool
is_nil [] = true
is_nil (x ∷ m) = false

abbrev pub is_stopped : AnnounceEvent → Bool
is_stopped stopped_event = true
is_stopped _ = false

pub data ConfigError : Type 0 where
  bad_announce_interval fractional_interval short_ttl : ConfigError

pub record Config : Type 0 where
  pub announce_interval : ℤ
  pub peer_ttl : ℤ
  pub allowed_info_hashes : Option (List Bytes)

-- A `time.Duration` compared with zero, and as a number where it is not negative.
abbrev pub is_positive : ℤ → Bool
is_positive (pos n) = not (n == 0)
is_positive (negsuc n) = false

abbrev pub duration : ℤ → ℕ
duration (pos n) = n
duration (negsuc n) = 0

abbrev pub is_zero : ℤ → Bool
is_zero (pos n) = n == 0
is_zero (negsuc n) = false

-- `c.PeerTTL < c.AnnounceInterval`, for an interval that is positive.
abbrev pub is_below : ℤ → ℕ → Bool
is_below (pos n) m = ltb n m
is_below (negsuc n) m = true

unfoldable pub validate : Config → Result ConfigError (Unit {0})
validate c = do
  fail_if (not (is_positive c.announce_interval)) bad_announce_interval
  fail_if (not (duration c.announce_interval % second == 0)) fractional_interval
  fail_if (not (is_zero c.peer_ttl) && is_below c.peer_ttl (duration c.announce_interval)) short_ttl
  ok tt

pub record Server (netip : Netip) : Type 0 where
  pub interval : ℕ
  pub peer_ttl : ℕ
  pub swarms : Map (Map (TrackedPeer netip))
  pub allowed_info_hashes : Option (List Bytes)

unfoldable pub mem_bytes : List Bytes → Bytes → Bool
mem_bytes [] key = false
mem_bytes (k ∷ ks) key = bytes_eq k key || mem_bytes ks key

-- No list at all allows every torrent.
unfoldable pub allowed_in : Option (List Bytes) → Bytes → Bool
unfolding mem_bytes
allowed_in none info_hash = true
allowed_in (some hashes) info_hash = mem_bytes hashes info_hash

module _ {netip : Netip} where
  unfoldable pub new_server : Config → Result ConfigError (Server netip)
  unfolding validate
  new_server c = do
    validate c
    ok (record {
      interval = duration c.announce_interval;
      peer_ttl =
          if is_zero c.peer_ttl then 3 * duration c.announce_interval else duration c.peer_ttl;
      swarms = [];
      allowed_info_hashes = c.allowed_info_hashes;
    })

  unfoldable pub allows : Server netip → Bytes → Bool
  unfolding allowed_in
  allows s info_hash = allowed_in s.allowed_info_hashes info_hash

  -- The loop that deletes the peers that have not been seen for longer than `ttl`.
  unfoldable pub drop_expired : ℕ → ℕ → Map (TrackedPeer netip) → Map (TrackedPeer netip)
  drop_expired ttl now [] = []
  drop_expired ttl now ((id, p) ∷ m) =
      let rest = drop_expired ttl now m in
      if ltb ttl (now - p.last_seen) then rest else (id, p) ∷ rest

  -- A swarm that is written back, or deleted if it is empty.
  abbrev pub store :
      Map (Map (TrackedPeer netip))
      → Bytes
      → Map (TrackedPeer netip)
      → Map (Map (TrackedPeer netip))
  store swarms info_hash swarm =
      if is_nil swarm then delete swarms info_hash else put swarms info_hash swarm

  unfoldable pub prune_swarm : Server netip → Bytes → ℕ → Server netip
  unfolding lookup delete put drop_expired
  prune_swarm s info_hash now = record s {
    swarms =
        store s.swarms info_hash
          (drop_expired s.peer_ttl now (entries_of (lookup s.swarms info_hash)));
  }

  -- The loop over the swarm, with room for `n` peers.
  unfoldable pub collect : Bytes → ℕ → Map (TrackedPeer netip) → List (Peer netip)
  collect self zero m = []
  collect self (suc n) [] = []
  collect self (suc n) ((id, p) ∷ m) = elim (bytes_eq id self) [
    | true ↦ collect self (suc n) m
    | false ↦ record { peer_id = id; ip = p.address; port = p.port } ∷ collect self n m
  ]

  -- The swarm after the request.
  unfoldable pub updated_swarm :
      AnnounceRequest → netip.Addr → ℕ → Map (TrackedPeer netip) → Map (TrackedPeer netip)
  unfolding delete put
  updated_swarm request address now swarm =
      if is_stopped request.event
      then delete swarm request.peer_id
      else put swarm request.peer_id
          (record { address = address; port = request.port; last_seen = now; left = request.left })

  unfoldable pub announce :
      Server netip → AnnounceRequest → netip.Addr → ℕ → AnnounceResponse netip × Server netip
  unfolding prune_swarm updated_swarm collect
  announce s request address now =
      let pruned = prune_swarm s request.info_hash now in
      let swarm =
        updated_swarm request address now (entries_of (lookup pruned.swarms request.info_hash)) in
      (
        record {
          interval = pos s.interval;
          peers = collect request.peer_id max_peers_per_announce swarm;
        },
        record pruned { swarms = store pruned.swarms request.info_hash swarm },
      )
