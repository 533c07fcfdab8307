-- ===== src/Tracker/Server/Swarm.antt =====
-- tracker/server.go: what an announce leaves in the swarms and what it answers.
use mole_swarm.Base.{
  ℕ, ◌≡◌, refl, ap, sym, subst, ◌∙◌, true, false, none, some, [], ◌∷◌, arith, ◌==◌, if◌then◌else◌,
  Bool-cases, inl, inr,
}
use mole_swarm.Base.Bytes.{Bytes}
use mole_swarm.Protocol.Bencode.{bytes_eq}
use mole_swarm.Tracker.Request.{AnnounceRequest}
use mole_swarm.Tracker.Announce.{Netip}
use mole_swarm.Tracker.Server.{
  TrackedPeer, Map, lookup, delete, put, entries_of, is_stopped, Server, drop_expired, store,
  prune_swarm, updated_swarm, announce,
}

pub bytes_eq_refl : (a : Bytes) → bytes_eq a a ≡ true
unfolding bytes_eq
bytes_eq_refl [] = refl
bytes_eq_refl (x ∷ a) = ground (arith, bytes_eq_refl a)

pub bytes_eq-eq-true : (a b : Bytes) → bytes_eq a b ≡ true → a ≡ b
unfolding bytes_eq
bytes_eq-eq-true [] [] h = refl
bytes_eq-eq-true [] (y ∷ b) h = cc
bytes_eq-eq-true (x ∷ a) [] h = cc
bytes_eq-eq-true (x ∷ a) (y ∷ b) h = elim (Bool-cases (x == y)) [
  | inl same ↦ let heads : x ≡ y = ground arith in cc (heads, bytes_eq-eq-true a b (ground arith))
  | inr other ↦ ground arith
]

module _ {A : Type 0} where
  lookup-delete_self : (m : Map A) (key : Bytes) → lookup (delete m key) key ≡ none
  unfolding lookup delete
  lookup-delete_self [] key = refl
  lookup-delete_self ((k, a) ∷ m) key = elim (Bool-cases (bytes_eq k key)) [
    | inl same ↦ ground (arith, lookup-delete_self m key)
    | inr other ↦ ground (arith, lookup-delete_self m key)
  ]

  lookup-delete_other :
      (m : Map A) (key other : Bytes)
      → bytes_eq key other ≡ false
      → lookup (delete m key) other ≡ lookup m other
  unfolding lookup delete
  lookup-delete_other [] key other h = refl
  lookup-delete_other ((k, a) ∷ m) key other h = elim (Bool-cases (bytes_eq k key)) [
    | inl same ↦
        let apart : bytes_eq k other ≡ false =
          subst (λ x. bytes_eq x other ≡ false) (sym (bytes_eq-eq-true k key same)) h in
        ground (arith, apart, lookup-delete_other m key other h)
    | inr differs ↦ ground (arith, lookup-delete_other m key other h)
  ]

  lookup-put_self : (m : Map A) (key : Bytes) (a : A) → lookup (put m key a) key ≡ some a
  unfolding lookup put
  lookup-put_self m key a = ground (arith, bytes_eq_refl key)

  lookup-put_other :
      (m : Map A) (key other : Bytes) (a : A)
      → bytes_eq key other ≡ false
      → lookup (put m key a) other ≡ lookup m other
  unfolding lookup put
  lookup-put_other m key other a h = ground (arith, h, lookup-delete_other m key other h)

module _ {netip : Netip} where
  pub lookup-store_self :
      (m : Map (Map (TrackedPeer netip))) (key : Bytes) (swarm : Map (TrackedPeer netip))
      → entries_of (lookup (store m key swarm) key) ≡ swarm
  lookup-store_self m key [] = cc (lookup-delete_self m key)
  lookup-store_self m key (e ∷ swarm) = cc (lookup-put_self m key (e ∷ swarm))

  lookup-store_other :
      (m : Map (Map (TrackedPeer netip))) (key other : Bytes) (swarm : Map (TrackedPeer netip))
      → bytes_eq key other ≡ false
      → lookup (store m key swarm) other ≡ lookup m other
  lookup-store_other m key other [] h = lookup-delete_other m key other h
  lookup-store_other m key other (e ∷ swarm) h = lookup-put_other m key other (e ∷ swarm) h

  updated_swarm-lookup :
      (r : AnnounceRequest) (address : netip.Addr) (now : ℕ) (swarm : Map (TrackedPeer netip))
      → lookup (updated_swarm r address now swarm) r.peer_id ≡ (
          if is_stopped r.event
          then none
          else some (record { address = address; port = r.port; last_seen = now; left = r.left }))
  unfolding updated_swarm
  updated_swarm-lookup r address now swarm = elim (Bool-cases (is_stopped r.event)) [
    | inl stopped ↦ rw stopped (lookup-delete_self swarm r.peer_id)
    | inr stays ↦ rw stays (
        lookup-put_self swarm r.peer_id
          (record { address = address; port = r.port; last_seen = now; left = r.left }))
  ]

-- After an announce its torrent's swarm has the announcing peer with the address, port, bytes left
-- and time of this announce, or, if the peer has stopped, does not have it.
pub announce-lookup :
    {netip : Netip} (s : Server netip) (r : AnnounceRequest) (address : netip.Addr) (now : ℕ)
    → lookup (entries_of (lookup (announce s r address now).1.swarms r.info_hash)) r.peer_id ≡ (
        if is_stopped r.event
        then none
        else some (record { address = address; port = r.port; last_seen = now; left = r.left }))
unfolding announce
announce-lookup s r address now =
    let swarm =
      updated_swarm r address now
        (entries_of (lookup (prune_swarm s r.info_hash now).swarms r.info_hash)) in
    ap (λ m. lookup m r.peer_id)
      (lookup-store_self (prune_swarm s r.info_hash now).swarms r.info_hash swarm)
    ∙ updated_swarm-lookup r address now
        (entries_of (lookup (prune_swarm s r.info_hash now).swarms r.info_hash))

-- An announce changes no other torrent's swarm.
pub announce-lookup_other :
    {netip : Netip} (s : Server netip) (r : AnnounceRequest) (address : netip.Addr) (now : ℕ)
    (other : Bytes)
    → bytes_eq r.info_hash other ≡ false
    → lookup (announce s r address now).1.swarms other ≡ lookup s.swarms other
unfolding announce prune_swarm
announce-lookup_other s r address now other h =
    lookup-store_other (prune_swarm s r.info_hash now).swarms r.info_hash other
      (updated_swarm r address now
        (entries_of (lookup (prune_swarm s r.info_hash now).swarms r.info_hash)))
      h
    ∙ lookup-store_other s.swarms r.info_hash other
        (drop_expired s.peer_ttl now (entries_of (lookup s.swarms r.info_hash))) h
