-- ===== src/Torrent/Bitfield/Tests.antt =====
-- Bit fields of nine pieces.
use mole_swarm.Base.{zero, suc, ◌≡◌, refl, Bool, true, false, List, [], ◌∷◌, arith}
use mole_swarm.Base.Bits.{set_bit}
use mole_swarm.Torrent.Bitfield.{has_piece, set_piece, bitfield_of, bit_count}
use mole_swarm.Torrent.Bitfield.Lookup.{AllBytes, has_piece-set_piece}
use mole_swarm.Torrent.Bitfield.Marks.{count_set, has_piece-bitfield_of, bit_count-bitfield_of}

abbrev flags : List Bool
flags = true ∷ false ∷ false ∷ false ∷ false ∷ false ∷ false ∷ false ∷ true ∷ []

two_bytes : bitfield_of flags ≡ 128 ∷ 128 ∷ []
unfolding bitfield_of set_bit
two_bytes = refl

has_piece-bitfield_of_example : has_piece (bitfield_of flags) 8 ≡ true
has_piece-bitfield_of_example = has_piece-bitfield_of flags 8

bit_count-bitfield_of_example : bit_count (bitfield_of flags) 9 ≡ count_set flags
bit_count-bitfield_of_example = bit_count-bitfield_of flags

one_byte : AllBytes (128 ∷ [])
one_byte zero b e = ground arith
one_byte (suc k) b e = cc

has_piece-set_piece_example : has_piece (set_piece (128 ∷ []) 20) 20 ≡ true
has_piece-set_piece_example = has_piece-set_piece (128 ∷ []) 20 20 one_byte
