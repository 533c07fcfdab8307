-- ===== src/Torrent/Bitfield/Lookup.antt =====
-- torrent/peer.go, torrent/pieces.go, torrent/file.go: what is looked up in a bit field.
use mole_swarm.Base.{
  ℕ, ◌+◌, ◌-◌, ◌/◌, ◌%◌, ◌≤◌, ◌<◌, ◌≡◌, ◌≢◌, ap, sym, subst, ◌∙◌, false, ◌||◌, none, some, ◌++◌,
  arith, ltb, leb, ◌==◌, length, get_elem?, set, replicate, get_elem?-set_self, get_elem?-set_ne,
  get_elem?-replicate, get_elem?-lt, lt_of_get_elem?, get_elem?-append_left, get_elem?-append_right,
  length-append, length-replicate, length-set, Bool-cases, Option-cases, inl, inr,
}
use native.Mathlib.Nat.{div-add-mod, mod-lt}
use mole_swarm.Base.Bytes.{Bytes, IsByte}
use mole_swarm.Base.Bits.{test_bit, set_bit, test_bit-set_bit, set_bit-IsByte, test_bit-zero}
use mole_swarm.Torrent.Bitfield.{has_piece, mark_bit, set_piece}

-- Every element of the list is a byte.
abbrev pub AllBytes : Bytes → Type 0
AllBytes bits = (k b : ℕ) → get_elem? bits k ≡ some b → IsByte b

same_index : (i j : ℕ) → i / 8 ≡ j / 8 → (7 - i % 8 == 7 - j % 8) ≡ (i == j)
same_index i j e = elim (Bool-cases (i == j)) [
  | inl h ↦ ground (arith, div-add-mod i 8)
  | inr h ↦ grind (arith, div-add-mod i 8, div-add-mod j 8, mod-lt)
]

has_piece-some :
    (bits : Bytes) (j b : ℕ)
    → get_elem? bits (j / 8) ≡ some b
    → has_piece bits j ≡ test_bit b (7 - j % 8)
unfolding has_piece
has_piece-some bits j b e = ground arith

mark_bit-some :
    (bits : Bytes) (i b : ℕ)
    → get_elem? bits (i / 8) ≡ some b
    → mark_bit bits i ≡ set bits (i / 8) (set_bit b (7 - i % 8))
unfolding mark_bit
mark_bit-some bits i b e = ground arith

mark_bit-none : (bits : Bytes) (i : ℕ) → get_elem? bits (i / 8) ≡ none → mark_bit bits i ≡ bits
unfolding mark_bit
mark_bit-none bits i e = ground arith

below_8 : (i : ℕ) → 7 - i % 8 < 8
below_8 i = omega arith

same_lookup :
    (xs ys : Bytes) (j : ℕ)
    → get_elem? xs (j / 8) ≡ get_elem? ys (j / 8)
    → has_piece xs j ≡ has_piece ys j
unfolding has_piece
same_lookup xs ys j e = ground arith

-- The bit that is set, and no other one.
pub has_piece-mark_bit :
    (bits : Bytes) (i j : ℕ)
    → AllBytes bits
    → i / 8 < length bits
    → has_piece (mark_bit bits i) j ≡ ((i == j) || has_piece bits j)
has_piece-mark_bit bits i j v lt =
    let (b, e) = get_elem?-lt bits (i / 8) lt in
    elim (Bool-cases (i / 8 == j / 8)) [
      | inl same ↦
          let quotients : i / 8 ≡ j / 8 = ground arith in
          ap (λ x. has_piece x j) (mark_bit-some bits i b e)
          ∙ has_piece-some (set bits (i / 8) (set_bit b (7 - i % 8))) j (set_bit b (7 - i % 8)) (
              ap (get_elem? (set bits (i / 8) (set_bit b (7 - i % 8)))) (sym quotients)
              ∙ get_elem?-set_self bits (i / 8) (set_bit b (7 - i % 8)) lt)
          ∙ test_bit-set_bit b (7 - i % 8) (7 - j % 8) (v (i / 8) b e) (below_8 i) (below_8 j)
          ∙ cc (same_index i j quotients, has_piece-some bits j b (rw (sym quotients) e))
      | inr apart ↦
          let differ : (i == j) ≡ false = ground arith in
          let other : i / 8 ≢ j / 8 = λ q. ground (arith, q) in
          cc (
            mark_bit-some bits i b e,
            differ,
            same_lookup (set bits (i / 8) (set_bit b (7 - i % 8))) bits j
                (get_elem?-set_ne bits (i / 8) (j / 8) (set_bit b (7 - i % 8)) other),
          )
    ]

pub mark_bit-AllBytes : (bits : Bytes) (i : ℕ) → AllBytes bits → AllBytes (mark_bit bits i)
mark_bit-AllBytes bits i v k x e = elim (Option-cases (get_elem? bits (i / 8))) [
  | inl absent ↦ v k x (cc (mark_bit-none bits i absent, e))
  | inr (b, present) ↦ elim (Bool-cases (i / 8 == k)) [
    | inl same ↦
        let stored : get_elem? (mark_bit bits i) (i / 8) ≡ some (set_bit b (7 - i % 8)) =
          ap (λ l. get_elem? l (i / 8)) (mark_bit-some bits i b present)
          ∙ get_elem?-set_self bits (i / 8) (set_bit b (7 - i % 8))
              (lt_of_get_elem? bits (i / 8) present) in
        let index : i / 8 ≡ k = ground arith in
        let value : set_bit b (7 - i % 8) ≡ x = cc (stored, index, e) in
        subst IsByte value (set_bit-IsByte b (7 - i % 8) (v (i / 8) b present) (below_8 i))
    | inr other ↦
        let differ : i / 8 ≢ k = λ q. ground (arith, q) in
        v k x (
          cc (
            mark_bit-some bits i b present,
            get_elem?-set_ne bits (i / 8) k (set_bit b (7 - i % 8)) differ,
            e,
          ))
  ]
]

pub length-mark_bit : (bits : Bytes) (i : ℕ) → length (mark_bit bits i) ≡ length bits
length-mark_bit bits i = elim (Option-cases (get_elem? bits (i / 8))) [
  | inl absent ↦ ap length (mark_bit-none bits i absent)
  | inr (b, present) ↦
      ap length (mark_bit-some bits i b present) ∙ length-set bits (i / 8) (set_bit b (7 - i % 8))
]

pub AllBytes-replicate : (n : ℕ) → AllBytes (replicate n 0)
AllBytes-replicate n k b e = omega (arith, get_elem?-replicate n k 0 e)

has_piece-none : (bits : Bytes) (j : ℕ) → get_elem? bits (j / 8) ≡ none → has_piece bits j ≡ false
unfolding has_piece
has_piece-none bits j e = ground arith

pub has_piece-replicate : (n j : ℕ) → has_piece (replicate n 0) j ≡ false
has_piece-replicate n j = elim (Option-cases (get_elem? (replicate {A = ℕ} n 0) (j / 8))) [
  | inl absent ↦ has_piece-none (replicate n 0) j absent
  | inr (b, present) ↦
      has_piece-some (replicate n 0) j b present
      ∙ ap (λ x. test_bit x (7 - j % 8)) (get_elem?-replicate n (j / 8) 0 present)
      ∙ test_bit-zero (7 - j % 8) (below_8 j)
]

AllBytes-append : (bits : Bytes) (n : ℕ) → AllBytes bits → AllBytes (bits ++ replicate n 0)
AllBytes-append bits n v k b e = elim (Bool-cases (ltb k (length bits))) [
  | inl low ↦ v k b (sym (get_elem?-append_left bits (replicate n 0) k (ground arith)) ∙ e)
  | inr high ↦
      AllBytes-replicate n (k - length bits) b
        (sym (get_elem?-append_right bits (replicate n 0) k (ground arith)) ∙ e)
]

get_elem?-past : (bits : Bytes) (k : ℕ) → length bits ≤ k → get_elem? bits k ≡ none
get_elem?-past bits k h = elim (Option-cases (get_elem? bits k)) [
  | inl absent ↦ absent
  | inr (b, present) ↦ absurd (omega (arith, lt_of_get_elem? bits k present))
]

has_piece-append : (bits : Bytes) (n j : ℕ) → has_piece (bits ++ replicate n 0) j ≡ has_piece bits j
has_piece-append bits n j = elim (Bool-cases (ltb (j / 8) (length bits))) [
  | inl low ↦
      same_lookup (bits ++ replicate n 0) bits j
        (get_elem?-append_left bits (replicate n 0) (j / 8) (ground arith))
  | inr high ↦
      let beyond = has_piece-none bits j (get_elem?-past bits (j / 8) (ground arith)) in
      let past = get_elem?-append_right bits (replicate {A = ℕ} n 0) (j / 8) (ground arith) in
      elim (Option-cases (get_elem? (bits ++ replicate n 0) (j / 8))) [
        | inl absent ↦ cc (has_piece-none (bits ++ replicate n 0) j absent, beyond)
        | inr (b, present) ↦
            has_piece-some (bits ++ replicate n 0) j b present
            ∙ ap (λ x. test_bit x (7 - j % 8))
                (get_elem?-replicate n (j / 8 - length bits) 0 (sym past ∙ present))
            ∙ test_bit-zero (7 - j % 8) (below_8 j)
            ∙ sym beyond
      ]
]

-- In a bit field of bytes, announcing a piece sets its bit, for which the field grows as needed,
-- and changes no other bit.
pub has_piece-set_piece :
    (bits : Bytes) (i j : ℕ)
    → AllBytes bits
    → has_piece (set_piece bits i) j ≡ ((i == j) || has_piece bits j)
unfolding set_piece
has_piece-set_piece bits i j v = elim (Bool-cases (leb (length bits) (i / 8))) [
  | inl short ↦
      let n = i / 8 + 1 - length bits in
      cc (
        short,
        has_piece-mark_bit (bits ++ replicate n 0) i j (AllBytes-append bits n v)
            (ground (arith, length-append bits (replicate n 0), length-replicate {A = ℕ} n 0)),
        has_piece-append bits n j,
      )
  | inr long ↦ cc (long, has_piece-mark_bit bits i j v (ground arith))
]
