-- ===== src/Torrent/Bitfield/Marks.antt =====
-- torrent/pieces.go, torrent/file.go: the bit field of the pieces that are complete.
use mole_swarm.Base.{
  ℕ, suc, ◌+◌, ◌-◌, ◌*◌, ◌/◌, ◌≤◌, ◌<◌, ◌≡◌, refl, ap, ◌∙◌, Bool, true, false, ◌&&◌, ◌||◌, List, [],
  ◌∷◌, arith, ltb, leb, le→leb, ◌==◌, if◌then◌else◌, length, replicate, length-replicate,
  Bool-cases, inl, inr,
}
use mole_swarm.Base.Bytes.{Bytes}
use mole_swarm.Torrent.Piece.{is_set}
use mole_swarm.Torrent.Bitfield.{has_piece, mark_bit, mark_bits, bitfield_of, count_bits, bit_count}
use mole_swarm.Torrent.Bitfield.Lookup.{
  AllBytes, AllBytes-replicate, mark_bit-AllBytes, has_piece-mark_bit, has_piece-replicate,
  length-mark_bit,
}

is_set-cons :
    (b : Bool) (flags : List Bool) (i j : ℕ)
    → (leb i j && is_set (b ∷ flags) (j - i))
      ≡ (((i == j) && b) || (leb (i + 1) j && is_set flags (j - (i + 1))))
is_set-cons b flags i j = elim (Bool-cases (ltb i j)) [
  | inl below ↦
      let next : j - i ≡ suc (j - (i + 1)) = ground arith in
      let shifted : is_set (b ∷ flags) (j - i) ≡ is_set flags (j - (i + 1)) =
        ap (is_set (b ∷ flags)) next in
      ground arith
  | inr above ↦ elim (Bool-cases (i == j)) [
    | inl same ↦
        let here : j - i ≡ 0 = ground arith in
        let first : is_set (b ∷ flags) (j - i) ≡ b = ap (is_set (b ∷ flags)) here in ground arith
    | inr apart ↦ ground arith
  ]
]

flag_or : (e a b : Bool) → (a || (e || b)) ≡ (((e && true) || a) || b)
flag_or true true b = refl
flag_or true false b = refl
flag_or false true b = refl
flag_or false false b = refl

and_false : (e : Bool) → (e && false) ≡ false
and_false true = refl
and_false false = refl

or_false : (e : Bool) → (e || false) ≡ e
or_false true = refl
or_false false = refl

-- The flags are looked up where they have been marked, and nothing else changes.
has_piece-mark_bits :
    (flags : List Bool) (i : ℕ) (bits : Bytes) (j : ℕ)
    → AllBytes bits
    → i + length flags ≤ 8 * length bits
    → has_piece (mark_bits flags i bits) j ≡ ((leb i j && is_set flags (j - i)) || has_piece bits j)
unfolding mark_bits
has_piece-mark_bits [] i bits j v fits = ground arith
has_piece-mark_bits (true ∷ flags) i bits j v fits =
    has_piece-mark_bits flags (i + 1) (mark_bit bits i) j (mark_bit-AllBytes bits i v)
      (omega (arith, length-mark_bit bits i))
    ∙ rw (has_piece-mark_bit bits i j v (omega arith)) (
        cc (
          is_set-cons true flags i j,
          flag_or (i == j) (leb (i + 1) j && is_set flags (j - (i + 1))) (has_piece bits j),
        ))
has_piece-mark_bits (false ∷ flags) i bits j v fits =
    has_piece-mark_bits flags (i + 1) bits j v (omega arith)
    ∙ cc (is_set-cons false flags i j, and_false (i == j))

same_position : (j : ℕ) → j - 0 ≡ j
same_position j = omega arith

-- The bit field has exactly the bits of the pieces that are complete, and none past the last piece.
pub has_piece-bitfield_of :
    (flags : List Bool) (j : ℕ) → has_piece (bitfield_of flags) j ≡ is_set flags j
unfolding bitfield_of
has_piece-bitfield_of flags j =
    has_piece-mark_bits flags 0 (replicate ((length flags + 7) / 8) 0) j
      (AllBytes-replicate ((length flags + 7) / 8))
      (omega (arith, length-replicate {A = ℕ} ((length flags + 7) / 8) 0))
    ∙ cc (
      has_piece-replicate ((length flags + 7) / 8) j,
      or_false (is_set flags j),
      le→leb 0 j (omega arith),
      same_position j,
    )

-- The pieces that are complete.
unfoldable pub count_set : List Bool → ℕ
count_set [] = 0
count_set (flag ∷ flags) = let rest = count_set flags in if flag then rest + 1 else rest

count_bits_lem :
    (bits : Bytes) (flags : List Bool) (i : ℕ)
    → ((j : ℕ) → j < length flags → has_piece bits (i + j) ≡ is_set flags j)
    → count_bits bits i (length flags) ≡ count_set flags
unfolding count_bits count_set
count_bits_lem bits [] i h = refl
count_bits_lem bits (flag ∷ flags) i h =
    let first : has_piece bits i ≡ flag = ap (has_piece bits) (omega arith) ∙ h 0 (omega arith) in
    let rest =
      count_bits_lem bits flags (i + 1)
        λ j lt. ap (has_piece bits) (omega arith) ∙ h (suc j) (omega arith) in
    rw (first, rest) refl

-- The count of the bits of a bit field that was built from the pieces is the number of the pieces
-- that are complete.
pub bit_count-bitfield_of :
    (flags : List Bool) → bit_count (bitfield_of flags) (length flags) ≡ count_set flags
unfolding bit_count
bit_count-bitfield_of flags =
    count_bits_lem (bitfield_of flags) flags 0
      λ j lt. ap (has_piece (bitfield_of flags)) (omega arith) ∙ has_piece-bitfield_of flags j
