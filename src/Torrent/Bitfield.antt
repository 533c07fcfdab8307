-- ===== src/Torrent/Bitfield.antt =====
-- The bit fields of torrent/peer.go, torrent/pieces.go and torrent/file.go: bit 7 of the first byte is
-- piece 0.
pub mod Lookup
pub mod Marks
mod Tests
use mole_swarm.Base.{
  ℕ, zero, suc, ◌+◌, ◌-◌, ◌/◌, ◌%◌, ◌≤◌, Bool, true, false, ◌&&◌, Option, none, some, List, [], ◌∷◌,
  ◌++◌, ltb, leb, if◌then◌else◌, length, get_elem?, set, replicate,
}
use mole_swarm.Base.Bytes.{Bytes}
use mole_swarm.Base.Bits.{test_bit, set_bit}

-- `peer.hasPiece` on the peer's bit field.
unfoldable pub has_piece : Bytes → ℕ → Bool
has_piece bits index = elim (get_elem? bits (index / 8)) [
  | none ↦ false
  | some b ↦ test_bit b (7 - index % 8)
]

-- `bits[index/8] |= 1 << (7 - index%8)`. Beyond the slice, where the source panics, the bits stay as they
-- are; the callers stay within it.
unfoldable pub mark_bit : Bytes → ℕ → Bytes
mark_bit bits index = elim (get_elem? bits (index / 8)) [
  | none ↦ bits
  | some b ↦ set bits (index / 8) (set_bit b (7 - index % 8))
]

-- `peer.setPiece` on the peer's bit field, which grows to hold the bit.
unfoldable pub set_piece : Bytes → ℕ → Bytes
unfolding mark_bit
set_piece bits index =
    mark_bit
      (if leb (length bits) (index / 8)
        then bits ++ replicate (index / 8 + 1 - length bits) 0
        else bits)
      index

-- The loop over the pieces from `index` on.
unfoldable pub mark_bits : List Bool → ℕ → Bytes → Bytes
unfolding mark_bit
mark_bits [] index bits = bits
mark_bits (flag ∷ flags) index bits =
    mark_bits flags (index + 1) (if flag then mark_bit bits index else bits)

-- The bit field of the pieces that are complete.
unfoldable pub bitfield_of : List Bool → Bytes
unfolding mark_bits
bitfield_of flags = mark_bits flags 0 (replicate ((length flags + 7) / 8) 0)

-- `bitCount`, from `index` on.
unfoldable pub count_bits : Bytes → ℕ → ℕ → ℕ
unfolding has_piece
count_bits bits index zero = 0
count_bits bits index (suc n) =
    let rest = count_bits bits (index + 1) n in if has_piece bits index then rest + 1 else rest

unfoldable pub bit_count : Bytes → ℕ → ℕ
unfolding count_bits
bit_count bits piece_count = count_bits bits 0 piece_count
