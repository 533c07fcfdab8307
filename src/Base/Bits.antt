-- ===== src/Base/Bits.antt =====
-- Single bits of a byte.
use Prim.Native.Nat.{ℕ, zero, suc, ◌^◌, ◌<◌, bit_and, bit_or}
use mathlib.Core.Path.{◌≡◌, refl}
use mathlib.Core.Bool.{Bool, true, false, not, ◌&&◌, ◌||◌}
use mathlib.Core.Logic.{inl, inr}
use native.Mathlib.Omega.{arith}
use mole_swarm.Base.Tests.{ltb, ◌==◌, Bool-cases}

-- `b & (1 << k) != 0`
unfoldable pub test_bit : ℕ → ℕ → Bool
test_bit b k = not (bit_and b (2 ^ k) == 0)

-- `b | 1 << k`
unfoldable pub set_bit : ℕ → ℕ → ℕ
set_bit b k = bit_or b (2 ^ k)

abbrev iff : Bool → Bool → Bool
iff true b = b
iff false b = not b

-- A test that every number below the bound passes.
unfoldable holds_below : (ℕ → Bool) → ℕ → Bool
holds_below test zero = true
holds_below test (suc bound) = holds_below test bound && test bound

holds_below-lt :
    (test : ℕ → Bool) (bound : ℕ)
    → holds_below test bound ≡ true
    → (k : ℕ) → k < bound
    → test k ≡ true
unfolding holds_below
holds_below-lt test zero passed k lt = absurd (omega (arith, lt))
holds_below-lt test (suc bound) passed k lt = elim (Bool-cases (k == bound)) [
  | inl last ↦ ground arith
  | inr earlier ↦ holds_below-lt test bound (ground arith) k (ground arith)
]

abbrev law : ℕ → ℕ → ℕ → Bool
law k j b = iff (test_bit (set_bit b k) j) ((k == j) || test_bit b j) && ltb (set_bit b k) 256

laws_table : holds_below (λ k. holds_below (λ j. holds_below (law k j) 256) 8) 8 ≡ true
unfolding holds_below test_bit set_bit
laws_table = refl

zero_table : holds_below (λ k. not (test_bit 0 k)) 8 ≡ true
unfolding holds_below test_bit
zero_table = refl

iff-eq : (a b : Bool) → iff a b ≡ true → a ≡ b
iff-eq true b h = ground arith
iff-eq false b h = ground arith

checked : (b k j : ℕ) → b < 256 → k < 8 → j < 8 → law k j b ≡ true
checked b k j hb hk hj =
    let row =
      holds_below-lt (λ k. holds_below (λ j. holds_below (law k j) 256) 8) 8 laws_table k hk in
    let cell = holds_below-lt (λ j. holds_below (law k j) 256) 8 row j hj in
    holds_below-lt (law k j) 256 cell b hb

pub test_bit-set_bit :
    (b k j : ℕ) → b < 256 → k < 8 → j < 8 → test_bit (set_bit b k) j ≡ ((k == j) || test_bit b j)
test_bit-set_bit b k j hb hk hj =
    iff-eq (test_bit (set_bit b k) j) ((k == j) || test_bit b j)
      (ground (arith, checked b k j hb hk hj))

pub set_bit-IsByte : (b k : ℕ) → b < 256 → k < 8 → set_bit b k < 256
set_bit-IsByte b k hb hk = ground (arith, checked b k 0 hb hk)

pub test_bit-zero : (k : ℕ) → k < 8 → test_bit 0 k ≡ false
test_bit-zero k h = ground (arith, holds_below-lt (λ k. not (test_bit 0 k)) 8 zero_table k h)
