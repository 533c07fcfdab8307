-- ===== src/Torrent/Session/Pending.antt =====
-- torrent/torrent.go: the map `pending` from the blocks that were asked for to the peers they were asked of.
use mole_swarm.Base.{
  ℕ, ◌+◌, ◌≤◌, ◌≡◌, ◌≢◌, refl, sym, ◌∙◌, Bool, true, false, not, Option, none, some, List, [], ◌∷◌,
  arith, ◌==◌, if◌then◌else◌, Bool-cases, ◌⊎◌, inl, inr,
}
use mole_swarm.Protocol.Message.{BlockRequest}
use mole_swarm.Torrent.Piece.{is_nil}
use mole_swarm.Torrent.FileStorage.{same_request}

abbrev pub Pending : Type 0
Pending = List (BlockRequest × ℕ)

unfoldable pub assigned_peer : Pending → BlockRequest → Option ℕ
assigned_peer [] request = none
assigned_peer ((r, h) ∷ m) request =
    if same_request r request then some h else assigned_peer m request

abbrev pub is_pending : Pending → BlockRequest → Bool
is_pending m request = not (is_nil (assigned_peer m request))

-- `delete(t.pending, request)`
unfoldable pub drop_request : Pending → BlockRequest → Pending
drop_request [] request = []
drop_request ((r, h) ∷ m) request =
    let rest = drop_request m request in if same_request r request then rest else (r, h) ∷ rest

-- `t.pending[request] = peer`
unfoldable pub assign : Pending → BlockRequest → ℕ → Pending
unfolding drop_request
assign m request h = (request, h) ∷ drop_request m request

unfoldable pub pending_count : Pending → ℕ → ℕ
pending_count [] h = 0
pending_count ((r, k) ∷ m) h = let rest = pending_count m h in if k == h then rest + 1 else rest

unfoldable pub release : Pending → ℕ → Pending
release [] h = []
release ((r, k) ∷ m) h = let rest = release m h in if k == h then rest else (r, k) ∷ rest

same_request-eq : (a b : BlockRequest) → same_request a b ≡ true → a ≡ b
same_request-eq a b h = ground arith

same_request_refl : (r : BlockRequest) → same_request r r ≡ true
same_request_refl r = ground arith

pub assigned_peer-drop_request :
    (m : Pending) (r s : BlockRequest) (k : ℕ)
    → assigned_peer (drop_request m r) s ≡ some k
    → (s ≢ r) × (assigned_peer m s ≡ some k)
unfolding drop_request assigned_peer
assigned_peer-drop_request [] r s k e = cc
assigned_peer-drop_request ((q, h) ∷ m) r s k e = elim (Bool-cases (same_request q r)) [
  | inl gone ↦
      let (apart, found) = assigned_peer-drop_request m r s k (ground (arith, gone)) in
      (
        apart,
        ground (
          arith,
          found,
          same_request-eq q r gone,
          λ (same : same_request q s ≡ true).
              apart (sym (same_request-eq q s same) ∙ same_request-eq q r gone),
        ),
      )
  | inr stays ↦ elim (Bool-cases (same_request q s)) [
    | inl here ↦ ((λ same. cc (same, here, stays)), ground (arith, here, stays))
    | inr later ↦
        let (apart, found) = assigned_peer-drop_request m r s k (ground (arith, later, stays)) in
        (apart, ground (arith, later, found))
  ]
]

pub assigned_peer-assign :
    (m : Pending) (r s : BlockRequest) (h k : ℕ)
    → assigned_peer (assign m r h) s ≡ some k
    → ((s ≡ r) × (k ≡ h)) ⊎ (assigned_peer m s ≡ some k)
unfolding assign assigned_peer
assigned_peer-assign m r s h k e = elim (Bool-cases (same_request r s)) [
  | inl same ↦ inl (sym (same_request-eq r s same), ground (arith, same))
  | inr other ↦
      let rest : assigned_peer (drop_request m r) s ≡ some k = ground (arith, other) in
      inr ((assigned_peer-drop_request m r s k rest).1)
]

pub assigned_peer-release :
    (m : Pending) (h : ℕ) (s : BlockRequest) (k : ℕ)
    → assigned_peer (release m h) s ≡ some k
    → (k ≢ h) × (j : ℕ) × (assigned_peer m s ≡ some j)
unfolding release assigned_peer
assigned_peer-release [] h s k e = cc
assigned_peer-release ((q, j) ∷ m) h s k e = elim (Bool-cases (j == h)) [
  | inl gone ↦
      let (apart, i, found) = assigned_peer-release m h s k (ground (arith, gone)) in
      elim (Bool-cases (same_request q s)) [
        | inl here ↦ (apart, j, ground (arith, here))
        | inr later ↦ (apart, i, ground (arith, later, found))
      ]
  | inr stays ↦ elim (Bool-cases (same_request q s)) [
    | inl here ↦ (ground (arith, here, stays), j, ground (arith, here))
    | inr later ↦
        let (apart, i, found) = assigned_peer-release m h s k (ground (arith, stays, later)) in
        (apart, i, ground (arith, later, found))
  ]
]

pub pending_count-drop_request :
    (m : Pending) (r : BlockRequest) (h : ℕ)
    → pending_count (drop_request m r) h ≤ pending_count m h
unfolding drop_request pending_count
pending_count-drop_request [] r h = omega arith
pending_count-drop_request ((q, k) ∷ m) r h = ground (arith, pending_count-drop_request m r h)

pub pending_count-release_same : (m : Pending) (h : ℕ) → pending_count (release m h) h ≡ 0
unfolding release pending_count
pending_count-release_same [] h = refl
pending_count-release_same ((q, k) ∷ m) h = ground (arith, pending_count-release_same m h)

pub pending_count-release_other :
    (m : Pending) (h k : ℕ) → k ≢ h → pending_count (release m h) k ≡ pending_count m k
unfolding release pending_count
pending_count-release_other [] h k apart = refl
pending_count-release_other ((q, j) ∷ m) h k apart =
    ground (arith, pending_count-release_other m h k apart, apart)

pub drop_request-new :
    (m : Pending) (r : BlockRequest) → is_pending m r ≡ false → drop_request m r ≡ m
unfolding drop_request assigned_peer
drop_request-new [] r h = refl
drop_request-new ((q, k) ∷ m) r h = ground (arith, drop_request-new m r)
