-- ===== src/Tracker/Server/Answer.antt =====
-- tracker/server.go: the peers that an announce is answered with.
use mole_swarm.Base.{
  ℕ, zero, suc, ◌-◌, ◌≤◌, ◌≡◌, refl, sym, subst, Bool, true, false, some, List, [], ◌∷◌, arith, ltb,
  if◌then◌else◌, length, get_elem?, All, Bool-cases, inl, inr,
}
use mole_swarm.Base.Bytes.{Bytes}
use mole_swarm.Protocol.Bencode.{bytes_eq}
use mole_swarm.Tracker.Request.{AnnounceRequest}
use mole_swarm.Tracker.Announce.{Netip, Peer}
use mole_swarm.Tracker.Server.{
  TrackedPeer, Map, lookup, delete, put, entries_of, is_stopped, Server, drop_expired, prune_swarm,
  collect, updated_swarm, announce,
}
use mole_swarm.Tracker.Server.Swarm.{lookup-store_self}

-- Seen within the time to live.
abbrev pub IsFresh : {netip : Netip} → ℕ → ℕ → Bytes × TrackedPeer netip → Type 0
IsFresh ttl now (id, t) = now - t.last_seen ≤ ttl

-- An entry of a swarm, other than the announcing peer's own, as the answer has it.
pub record IsAnswer {netip : Netip} (swarm : Map (TrackedPeer netip)) (self : Bytes)
    (p : Peer netip) : Type 0 where
  pub other : bytes_eq p.peer_id self ≡ false
  pub position : ℕ
  pub tracked : TrackedPeer netip
  pub listed : get_elem? swarm position ≡ some (p.peer_id, tracked)
  pub same_ip : tracked.address ≡ p.ip
  pub same_port : tracked.port ≡ p.port

module _ {netip : Netip} where
  IsAnswer-cons :
      (e : Bytes × TrackedPeer netip) (m : Map (TrackedPeer netip)) (self : Bytes)
      (ps : List (Peer netip))
      → All (IsAnswer m self) ps
      → All (IsAnswer (e ∷ m) self) ps
  IsAnswer-cons e m self [] h = tt
  IsAnswer-cons e m self (p ∷ ps) h = (
    record {
      other = h.0.other;
      position = suc (h.0.position);
      tracked = h.0.tracked;
      listed = h.0.listed;
      same_ip = h.0.same_ip;
      same_port = h.0.same_port;
    },
    IsAnswer-cons e m self ps h.1,
  )

  collect-IsAnswer :
      (self : Bytes) (n : ℕ) (m : Map (TrackedPeer netip))
      → All (IsAnswer m self) (collect self n m)
  unfolding collect
  collect-IsAnswer self zero m = tt
  collect-IsAnswer self (suc n) [] = tt
  collect-IsAnswer self (suc n) ((id, t) ∷ m) =
      go (bytes_eq id self) refl (collect-IsAnswer self (suc n) m) (collect-IsAnswer self n m)
    where
      go :
          (b : Bool)
          → bytes_eq id self ≡ b
          → All (IsAnswer m self) (collect self (suc n) m)
          → All (IsAnswer m self) (collect self n m)
          → All (IsAnswer ((id, t) ∷ m) self) (elim b [
            | true ↦ collect self (suc n) m
            | false ↦ record { peer_id = id; ip = t.address; port = t.port } ∷ collect self n m
          ])
      go true e skipped taken = IsAnswer-cons (id, t) m self (collect self (suc n) m) skipped
      go false e skipped taken = (
        record {
          other = e;
          position = 0;
          tracked = t;
          listed = refl;
          same_ip = refl;
          same_port = refl;
        },
        IsAnswer-cons (id, t) m self (collect self n m) taken,
      )

  length-collect :
      (self : Bytes) (n : ℕ) (m : Map (TrackedPeer netip)) → length (collect self n m) ≤ n
  unfolding collect
  length-collect self zero m = omega arith
  length-collect self (suc n) [] = omega arith
  length-collect self (suc n) ((id, t) ∷ m) = elim (Bool-cases (bytes_eq id self)) [
    | inl same ↦ ground (arith, length-collect self (suc n) m)
    | inr other ↦ ground (arith, length-collect self n m)
  ]

  drop_expired-IsFresh :
      (ttl now : ℕ) (m : Map (TrackedPeer netip)) → All (IsFresh ttl now) (drop_expired ttl now m)
  unfolding drop_expired
  drop_expired-IsFresh ttl now [] = tt
  drop_expired-IsFresh ttl now ((id, t) ∷ m) =
      go (ltb ttl (now - t.last_seen)) refl (drop_expired-IsFresh ttl now m)
    where
      go :
          (b : Bool)
          → ltb ttl (now - t.last_seen) ≡ b
          → All (IsFresh ttl now) (drop_expired ttl now m)
          → All
              (IsFresh ttl now)
              (if b then drop_expired ttl now m else (id, t) ∷ drop_expired ttl now m)
      go true e rest = rest
      go false e rest = (ground arith, rest)

  All-delete {κ} :
      (P : Bytes × TrackedPeer netip → Type κ) (m : Map (TrackedPeer netip)) (key : Bytes)
      → All P m
      → All P (delete m key)
  unfolding delete
  All-delete P [] key h = h
  All-delete P ((k, a) ∷ m) key h = go (bytes_eq k key) (All-delete P m key h.1)
    where
      go :
          (b : Bool)
          → All P (delete m key)
          → All P (if b then delete m key else (k, a) ∷ delete m key)
      go true rest = rest
      go false rest = (h.0, rest)

  updated_swarm-IsFresh :
      (ttl now : ℕ) (r : AnnounceRequest) (address : netip.Addr) (m : Map (TrackedPeer netip))
      → All (IsFresh ttl now) m
      → All (IsFresh ttl now) (updated_swarm r address now m)
  unfolding updated_swarm put
  updated_swarm-IsFresh ttl now r address m h = go (is_stopped r.event)
    where
      go :
          (b : Bool)
          → All (IsFresh ttl now) (
              if b
              then delete m r.peer_id
              else (
                r.peer_id,
                record { address = address; port = r.port; last_seen = now; left = r.left },
              )
                ∷ delete m r.peer_id)
      go true = All-delete (IsFresh ttl now) m r.peer_id h
      go false = (omega arith, All-delete (IsFresh ttl now) m r.peer_id h)

-- An announce leaves nobody in its torrent's swarm whose last announce is longer ago than the time
-- to live, and is answered with at most 50 peers, each an entry of that swarm with its address and
-- port, and none of them the announcing peer.
pub announce-IsAnswer :
    {netip : Netip} (s : Server netip) (r : AnnounceRequest) (address : netip.Addr) (now : ℕ)
    → All
        (IsFresh s.peer_ttl now)
        (entries_of (lookup (announce s r address now).1.swarms r.info_hash))
      × (length (announce s r address now).0.peers ≤ 50)
      × All
          (IsAnswer (entries_of (lookup (announce s r address now).1.swarms r.info_hash)) r.peer_id)
          (announce s r address now).0.peers
unfolding announce prune_swarm
announce-IsAnswer {netip} s r address now =
    let pruned =
      lookup-store_self s.swarms r.info_hash
        (drop_expired s.peer_ttl now (entries_of (lookup s.swarms r.info_hash))) in
    let base = entries_of (lookup (prune_swarm s r.info_hash now).swarms r.info_hash) in
    let swarm = updated_swarm r address now base in
    subst
      (λ m.
        All (IsFresh s.peer_ttl now) m
        × (length (collect r.peer_id 50 swarm) ≤ 50)
        × All (IsAnswer m r.peer_id) (collect r.peer_id 50 swarm))
      (sym (lookup-store_self (prune_swarm s r.info_hash now).swarms r.info_hash swarm))
      (
        updated_swarm-IsFresh s.peer_ttl now r address base (
            subst (All (IsFresh s.peer_ttl now)) (sym pruned)
              (drop_expired-IsFresh s.peer_ttl now (entries_of (lookup s.swarms r.info_hash)))),
        length-collect r.peer_id 50 swarm,
        collect-IsAnswer r.peer_id 50 swarm,
      )
