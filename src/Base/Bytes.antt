-- ===== src/Base/Bytes.antt =====
-- Byte sequences as lists of numbers, the stream an `io.Reader` has left, and the big-endian
-- integers of `encoding/binary`.
use Prim.Native.Nat.{ℕ, ◌+◌, ◌*◌, ◌/◌, ◌%◌, ◌^◌, ◌<◌}
use Prim.Native.Char.{code}
use Prim.Native.String.{String}
use mathlib.Core.Path.{◌≡◌, refl}
use mathlib.Core.List.{List, [], ◌∷◌, ◌++◌}
use mathlib.Core.Option.{Option, none, some}
use native.Mathlib.Omega.{arith}
use mole_swarm.Base.Tests.{leb, if◌then◌else◌, le→leb}
use mole_swarm.Base.Lists.{
  length, take, drop, length-append, take_left, drop_left, take-append-drop, length-take,
}

abbrev pub Bytes : Type 0
Bytes = List ℕ

abbrev pub IsByte : ℕ → Type 0
IsByte b = b < 256

abbrev pub IsU32 : ℕ → Type 0
IsU32 n = n < 2 ^ 32

-- The bytes of an ASCII text.
abbrev pub codes : String → Bytes
codes String.[] = []
codes (String.◌∷◌ c s) = code c ∷ codes s

-- `io.ReadFull` of `n` bytes from a stream: those bytes and what is left, or an error where the
-- stream ends before.
unfoldable pub read_full : ℕ → Bytes → Option (Bytes × Bytes)
read_full n bs = if leb n (length bs) then some (take n bs, drop n bs) else none

pub read_full-append :
    (n : ℕ) (xs rest : Bytes) → n ≡ length xs → read_full n (xs ++ rest) ≡ some (xs, rest)
unfolding read_full
read_full-append n xs rest e = rw (
  le→leb n (length (xs ++ rest)) (omega (arith, length-append xs rest)),
  take_left xs rest n e,
  drop_left xs rest n e,
)

-- `binary.BigEndian.AppendUint32` appends these four bytes.
unfoldable pub put_uint32 : ℕ → Bytes
put_uint32 n = n / 2 ^ 24 % 256 ∷ n / 2 ^ 16 % 256 ∷ n / 2 ^ 8 % 256 ∷ n % 256 ∷ []

-- `binary.BigEndian.Uint32` reads the first four bytes.
unfoldable pub uint32 : Bytes → ℕ
uint32 (a ∷ b ∷ c ∷ d ∷ _) = a * 2 ^ 24 + b * 2 ^ 16 + c * 2 ^ 8 + d
uint32 _ = 0

pub uint32-put_uint32 : (n : ℕ) (rest : Bytes) → IsU32 n → uint32 (put_uint32 n ++ rest) ≡ n
unfolding uint32 put_uint32
uint32-put_uint32 n rest h = omega arith

pub length-put_uint32 : (n : ℕ) → length (put_uint32 n) ≡ 4
unfolding put_uint32
length-put_uint32 n = refl

pub uint32_lt :
    (a b c d : ℕ) (rest : Bytes)
    → IsByte a
    → IsByte b
    → IsByte c
    → IsByte d
    → IsU32 (uint32 (a ∷ b ∷ c ∷ d ∷ rest))
unfolding uint32
uint32_lt a b c d rest ha hb hc hd = omega arith

-- Four bytes are written back as they were read.
pub put_uint32-uint32 :
    (a b c d : ℕ) (rest : Bytes)
    → IsByte a
    → IsByte b
    → IsByte c
    → IsByte d
    → put_uint32 (uint32 (a ∷ b ∷ c ∷ d ∷ rest)) ≡ a ∷ b ∷ c ∷ d ∷ []
unfolding uint32 put_uint32
put_uint32-uint32 a b c d rest ha hb hc hd = ground arith

pub uint32-put_uint32_self : (n : ℕ) → IsU32 n → uint32 (put_uint32 n) ≡ n
unfolding uint32 put_uint32
uint32-put_uint32_self n h = omega arith

-- What was read and what is left are the stream.
pub read_full-eq-some :
    (n : ℕ) (bs xs rest : Bytes)
    → read_full n bs ≡ some (xs, rest)
    → (bs ≡ xs ++ rest) × (length xs ≡ n)
unfolding read_full
read_full-eq-some n bs xs rest e = ground (arith, take-append-drop n bs, length-take n bs)
