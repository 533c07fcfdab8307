-- ===== src/Torrent/Piece/States.antt =====
-- torrent/piece.go: the life cycle of a piece as a step relation, and the results of finalization
-- that come too late.
use mole_swarm.Base.{
  ℕ, ◌+◌, ◌^◌, ◌≤◌, ◌<◌, ◌≡◌, ◌⊎◌, inl, inr, refl, Bool, true, false, Option, some, arith, ok,
}
use mole_swarm.Base.Bytes.{Bytes}
use mole_swarm.Torrent.Piece.{
  Piece, missing, complete, prepare, accept_block, store_block, take_for_finalization,
  mark_complete, reject, restore, mark_existing_complete, is_complete, is_stale,
}

-- One operation on a piece, with a generation counter that does not wrap.
pub data Steps : Piece → Piece → Type 0 where
  prepares :
      (p q : Piece) (len bl : ℕ) → p.generation + 1 < 2 ^ 64 → prepare p len bl ≡ ok q → Steps p q
  accepts :
      (p q : Piece) (begin : ℕ) (block : Bytes) (bl : ℕ) (done : Bool)
      → accept_block p begin block bl ≡ ok (q, done)
      → Steps p q
  takes :
      (p q : Piece) (buffer : Bytes) (g : ℕ)
      → take_for_finalization p ≡ ok (buffer, g, q)
      → Steps p q
  completes : (p : Piece) (g : ℕ) → Steps p (mark_complete p g).0
  rejects : (p : Piece) (g : ℕ) → Steps p (reject p g).0
  restores : (p : Piece) (g : ℕ) (buffer : Option Bytes) → Steps p (restore p g buffer).0
  rechecks : (p : Piece) → Steps p (mark_existing_complete p)

pub data Reaches (p : Piece) : Piece → Type 0 where
  none_yet : Reaches p p
  one_more : (q r : Piece) → Reaches p q → Steps q r → Reaches p r

-- No attempt with the generation `g` is under way, and there will be none.
record IsPast (g : ℕ) (p : Piece) : Type 0 where
  at_least : g ≤ p.generation
  over : (p.state ≡ missing) ⊎ (p.state ≡ complete) ⊎ (g < p.generation)

module _ (g : ℕ) where
  prepare-IsPast :
      (p q : Piece) (len bl : ℕ)
      → IsPast g p
      → p.generation + 1 < 2 ^ 64
      → prepare p len bl ≡ ok q
      → IsPast g q
  unfolding prepare
  prepare-IsPast p q len bl v lt e =
      let next : q.generation ≡ p.generation + 1 = ground arith in
      record {
        at_least = omega (arith, next, v.at_least);
        over = inr (inr (omega (arith, next, v.at_least)));
      }

  -- An operation that keeps the generation keeps what is past, if it stays out of the attempt.
  kept :
      (p q : Piece)
      → IsPast g p
      → q.generation ≡ p.generation
      → (p.state ≡ missing → (q.state ≡ missing) ⊎ (q.state ≡ complete))
      → (p.state ≡ complete → q.state ≡ complete)
      → IsPast g q
  kept p q v same stays_missing stays_complete = record {
    at_least = omega (arith, same, v.at_least);
    over = elim v.over [
      | inl m ↦ elim (stays_missing m) [ inl a ↦ inl a | inr b ↦ inr (inl b) ]
      | inr (inl c) ↦ inr (inl (stays_complete c))
      | inr (inr later) ↦ inr (inr (omega (arith, same, later)))
    ];
  }

  accept_block-IsPast :
      (p q : Piece) (begin : ℕ) (block : Bytes) (bl : ℕ) (done : Bool)
      → IsPast g p
      → accept_block p begin block bl ≡ ok (q, done)
      → IsPast g q
  unfolding accept_block store_block
  accept_block-IsPast p q begin block bl done v e =
      kept p q v (ground arith) (λ s. ground arith) (λ s. ground arith)

  take_for_finalization-IsPast :
      (p q : Piece) (buffer : Bytes) (h : ℕ)
      → IsPast g p
      → take_for_finalization p ≡ ok (buffer, h, q)
      → IsPast g q
  unfolding take_for_finalization
  take_for_finalization-IsPast p q buffer h v e =
      kept p q v (ground arith) (λ s. ground arith) (λ s. ground arith)

  mark_complete-IsPast : (p : Piece) (h : ℕ) → IsPast g p → IsPast g (mark_complete p h).0
  unfolding mark_complete
  mark_complete-IsPast p h v =
      kept p (mark_complete p h).0 v (ground arith) (λ s. ground arith) (λ s. ground arith)

  reject-IsPast : (p : Piece) (h : ℕ) → IsPast g p → IsPast g (reject p h).0
  unfolding reject
  reject-IsPast p h v =
      kept p (reject p h).0 v (ground arith) (λ s. ground arith) (λ s. ground arith)

  restore-IsPast :
      (p : Piece) (h : ℕ) (buffer : Option Bytes) → IsPast g p → IsPast g (restore p h buffer).0
  unfolding restore
  restore-IsPast p h buffer v =
      kept p (restore p h buffer).0 v (ground arith) (λ s. ground arith) (λ s. ground arith)

  Steps-IsPast : {p q : Piece} → IsPast g p → Steps p q → IsPast g q
  unfolding mark_existing_complete
  Steps-IsPast v (prepares p q len bl lt e) = prepare-IsPast p q len bl v lt e
  Steps-IsPast v (accepts p q begin block bl done e) =
      accept_block-IsPast p q begin block bl done v e
  Steps-IsPast v (takes p q buffer h e) = take_for_finalization-IsPast p q buffer h v e
  Steps-IsPast v (completes p h) = mark_complete-IsPast p h v
  Steps-IsPast v (rejects p h) = reject-IsPast p h v
  Steps-IsPast v (restores p h buffer) = restore-IsPast p h buffer v
  Steps-IsPast v (rechecks p) = kept p (mark_existing_complete p) v refl (λ s. inr refl) (λ s. refl)

  Reaches-IsPast : {p q : Piece} → IsPast g p → Reaches p q → IsPast g q
  Reaches-IsPast v none_yet = v
  Reaches-IsPast v (one_more q r h s) = Steps-IsPast (Reaches-IsPast v h) s

applied-IsPast :
    (p q : Piece) (g : ℕ) → (mark_complete p g ≡ (q, true)) ⊎ (reject p g ≡ (q, true)) → IsPast g q
unfolding mark_complete reject
applied-IsPast p q g (inl e) = record { at_least = ground arith; over = inr (inl (ground arith)) }
applied-IsPast p q g (inr e) = record { at_least = ground arith; over = inl (ground arith) }

past-is_stale : (p : Piece) (g : ℕ) → IsPast g p → is_stale p g ≡ true
past-is_stale p g v = ground (arith, v.over)

-- Once a finalization result with the generation `g` has completed or rejected a piece, every
-- further result with that generation is dropped and leaves the piece as it is, whatever
-- operations come between, as long as the generation counter does not wrap around.
pub result-applied_once :
    (p q r : Piece) (g : ℕ) (buffer : Option Bytes)
    → (mark_complete p g ≡ (q, true)) ⊎ (reject p g ≡ (q, true))
    → Reaches q r
    → (mark_complete r g ≡ (r, false))
      × (reject r g ≡ (r, false))
      × (restore r g buffer ≡ (r, false))
unfolding mark_complete reject restore
result-applied_once p q r g buffer applied h =
    let stale = past-is_stale r g (Reaches-IsPast g (applied-IsPast p q g applied) h) in
    (rw stale, rw stale, rw stale)

-- A buffer that was taken for finalization and is given back after a failed write restores the
-- piece as it was before it was taken.
pub restore-take_for_finalization :
    (p q : Piece) (buffer : Bytes) (g : ℕ)
    → take_for_finalization p ≡ ok (buffer, g, q)
    → restore q g (some buffer) ≡ (p, true)
unfolding restore take_for_finalization
restore-take_for_finalization p q buffer g e = ground arith

Steps-is_complete : {p q : Piece} → is_complete p ≡ true → Steps p q → is_complete q ≡ true
unfolding is_complete prepare accept_block take_for_finalization mark_complete reject restore
    mark_existing_complete
Steps-is_complete h (prepares p q len bl lt e) = ground arith
Steps-is_complete h (accepts p q begin block bl done e) = ground arith
Steps-is_complete h (takes p q buffer g e) = ground arith
Steps-is_complete h (completes p g) = ground arith
Steps-is_complete h (rejects p g) = ground arith
Steps-is_complete h (restores p g buffer) = ground arith
Steps-is_complete h (rechecks p) = refl

-- A complete piece stays complete through any sequence of operations, as long as the generation
-- counter does not wrap around.
pub complete-Reaches : (p q : Piece) → is_complete p ≡ true → Reaches p q → is_complete q ≡ true
complete-Reaches p q h none_yet = h
complete-Reaches p final h (one_more q r b s) = Steps-is_complete (complete-Reaches p q h b) s
