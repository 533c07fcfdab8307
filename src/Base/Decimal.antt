-- ===== src/Base/Decimal.antt =====
-- Decimal numerals, as `strconv` writes and reads them: ASCII digits, most significant first.
use mole_swarm.Base.{
  ℕ, zero, suc, ◌+◌, ◌-◌, ◌*◌, ◌/◌, ◌%◌, ◌≤◌, ◌<◌, ◌≡◌, ◌≢◌, refl, ap, ◌∙◌, sym, Bool, true, false,
  ◌&&◌, [], ◌∷◌, ◌++◌, arith, ◌^◌, ltb, leb, ◌==◌, if◌then◌else◌, length, length-append, All,
  append_assoc, append-nil, Bool-cases, inl, inr,
}
use mole_swarm.Base.Bytes.{Bytes}
use native.Mathlib.Nat.{pow-suc}

-- A number has fewer digits than its successor has units, so this fuel is enough.
decimal_fuel : ℕ → ℕ → Bytes
decimal_fuel zero n = []
decimal_fuel (suc f) n =
    let longer = decimal_fuel f (n / 10) ++ (n % 10 + b'0') ∷ [] in
    if ltb n 10 then (n + b'0') ∷ [] else longer

unfoldable pub decimal : ℕ → Bytes
unfolding decimal_fuel
decimal n = decimal_fuel (suc n) n

-- The number that the digits stand for, after a number already read.
unfoldable pub value_from : ℕ → Bytes → ℕ
value_from acc [] = acc
value_from acc (d ∷ ds) = value_from (acc * 10 + (d - b'0')) ds

abbrev pub is_digit : ℕ → Bool
is_digit d = leb b'0' d && leb d b'9'

unfoldable pub all_digits : Bytes → Bool
all_digits [] = true
all_digits (d ∷ ds) = is_digit d && all_digits ds

abbrev pub first_byte : Bytes → ℕ
first_byte [] = 0
first_byte (d ∷ _) = d

abbrev pub has_leading_zero : Bytes → Bool
has_leading_zero ds = ltb 1 (length ds) && first_byte ds == b'0'

decimal_fuel-enough : (f g n : ℕ) → n < f → n < g → decimal_fuel f n ≡ decimal_fuel g n
unfolding decimal_fuel
decimal_fuel-enough zero g n hf hg = absurd (omega arith)
decimal_fuel-enough (suc f) zero n hf hg = absurd (omega arith)
decimal_fuel-enough (suc f) (suc g) n hf hg = ground (arith, decimal_fuel-enough f g (n / 10))

pub decimal_small : (n : ℕ) → n < 10 → decimal n ≡ (n + b'0') ∷ []
unfolding decimal
decimal_small n h = ground arith

pub decimal_large : (n : ℕ) → 10 ≤ n → decimal n ≡ decimal (n / 10) ++ (n % 10 + b'0') ∷ []
unfolding decimal
decimal_large n h = ground (arith, decimal_fuel-enough n (suc (n / 10)) (n / 10))

pub value_from-append :
    (acc d : ℕ) (ds : Bytes) → value_from acc (ds ++ d ∷ []) ≡ value_from acc ds * 10 + (d - b'0')
unfolding value_from
value_from-append acc d [] = refl
value_from-append acc d (e ∷ ds) = value_from-append (acc * 10 + (e - b'0')) d ds

all_digits-append :
    (ds es : Bytes) → all_digits ds ≡ true → all_digits es ≡ true → all_digits (ds ++ es) ≡ true
unfolding all_digits
all_digits-append [] es h k = k
all_digits-append (d ∷ ds) es h k = ground (arith, all_digits-append ds es)

-- What holds of one digit and is kept by one more holds of every numeral.
decimal_ind :
    (P : ℕ → Bytes → Type 0)
    → ((n : ℕ) → n < 10 → P n ((n + b'0') ∷ []))
    → ((n : ℕ) (ds : Bytes) → 10 ≤ n → P (n / 10) ds → P n (ds ++ (n % 10 + b'0') ∷ []))
    → (k n : ℕ) → n < k
    → P n (decimal n)
decimal_ind P one more zero n h = absurd (omega arith)
decimal_ind P one more (suc k) n h = elim (Bool-cases (ltb n 10)) [
  | inl small ↦ let lt : n < 10 = ground arith in rw (decimal_small n lt) (one n lt)
  | inr large ↦
      let le : 10 ≤ n = ground arith in
      rw (decimal_large n le)
        (more n (decimal (n / 10)) le (decimal_ind P one more k (n / 10) (omega arith)))
]

pub value_from-decimal : (n : ℕ) → value_from 0 (decimal n) ≡ n
value_from-decimal n =
    decimal_ind (λ m ds. value_from 0 ds ≡ m) (λ m h. unfold value_from in omega arith)
      (λ m ds h ih. omega (arith, value_from-append 0 (m % 10 + b'0') ds)) (suc n) n (omega arith)

pub all_digits-decimal : (n : ℕ) → all_digits (decimal n) ≡ true
all_digits-decimal n =
    decimal_ind (λ m ds. all_digits ds ≡ true) (λ m h. unfold all_digits in ground arith)
      (λ m ds h ih. all_digits-append ds _ ih (unfold all_digits in ground arith)) (suc n) n
      (omega arith)

-- The digits of a positive number start with another digit than zero.
abbrev Leads : ℕ → Bytes → Type 0
Leads n ds = (0 < length ds) × (0 < n → b'0' < first_byte ds)

first_byte-append : (ds es : Bytes) → 0 < length ds → first_byte (ds ++ es) ≡ first_byte ds
first_byte-append [] es h = elim h [ ]
first_byte-append (d ∷ ds) es h = refl

length-append_pos : (ds : Bytes) (d : ℕ) → 0 < length (ds ++ d ∷ [])
length-append_pos [] d = omega arith
length-append_pos (e ∷ ds) d = omega arith

decimal-Leads : (n : ℕ) → Leads n (decimal n)
decimal-Leads n =
    decimal_ind Leads (λ m h. (omega arith, λ p. omega arith))
      (λ m ds h ih. (
        length-append_pos ds _,
        λ p. rw (first_byte-append ds ((m % 10 + b'0') ∷ []) ih.0) (ih.1 (omega arith)),
      ))
      (suc n) n (omega arith)

pub length-decimal_pos : (n : ℕ) → 0 < length (decimal n)
length-decimal_pos n = (decimal-Leads n).0

pub has_leading_zero-decimal : (n : ℕ) → has_leading_zero (decimal n) ≡ false
has_leading_zero-decimal zero = unfold decimal in refl
has_leading_zero-decimal (suc n) =
    let lead : b'0' < first_byte (decimal (suc n)) = (decimal-Leads (suc n)).1 (omega arith) in
    ground arith

-- Reading on after a positive number appends its digits.
decimal-value_from_pos :
    (acc : ℕ) (ds : Bytes)
    → 0 < acc
    → all_digits ds ≡ true
    → decimal (value_from acc ds) ≡ decimal acc ++ ds
unfolding value_from all_digits
decimal-value_from_pos acc [] h k = sym (append-nil (decimal acc))
decimal-value_from_pos acc (d ∷ ds) h k =
    let digit : (b'0' ≤ d) × (d ≤ b'9') = ground arith in
    let next = acc * 10 + (d - b'0') in
    let last : next % 10 + b'0' ≡ d = omega arith in
    let front : next / 10 ≡ acc = omega arith in
    decimal-value_from_pos next ds (omega arith) (ground arith)
    ∙ rw (decimal_large next (omega arith), last, front, append_assoc)

-- A numeral without a leading zero is the one that is written for its value.
pub decimal-value_from :
    (ds : Bytes)
    → 0 < length ds
    → has_leading_zero ds ≡ false
    → all_digits ds ≡ true
    → decimal (value_from 0 ds) ≡ ds
unfolding value_from all_digits
decimal-value_from [] h z k = absurd (omega arith)
decimal-value_from (d ∷ []) h z k = ground (arith, decimal_small (d - b'0'))
decimal-value_from (d ∷ e ∷ ds) h z k =
    let digit : (b'0' < d) × (d ≤ b'9') = ground arith in
    let same : d - b'0' + b'0' ≡ d = omega arith in
    let first : 0 * 10 + (d - b'0') ≡ d - b'0' = omega arith in
    rw first (
      decimal-value_from_pos (d - b'0') (e ∷ ds) (omega arith) (ground arith)
      ∙ rw (decimal_small (d - b'0') (omega arith), same))

-- A number below a power of ten has no more digits than its exponent.
pub length-decimal-le : (k n : ℕ) → n < 10 ^ suc k → length (decimal n) ≤ suc k
length-decimal-le zero n h = omega (arith, ap length (decimal_small n h))
length-decimal-le (suc k) n h = elim (Bool-cases (ltb n 10)) [
  | inl small ↦ omega (arith, ap length (decimal_small n (ground arith)))
  | inr large ↦
      let le : 10 ≤ n = ground arith in
      omega (
        arith,
        ap length (decimal_large n le),
        length-append (decimal (n / 10)) ((n % 10 + b'0') ∷ []),
        length-decimal-le k (n / 10) (omega (arith, pow-suc 10 (suc k))),
      )
]

-- Digits hold no byte that is not a digit.
pub all_digits-avoid :
    (d : ℕ) (ds : Bytes) → is_digit d ≡ false → all_digits ds ≡ true → All (λ x. x ≢ d) ds
unfolding all_digits
all_digits-avoid d [] h k = tt
all_digits-avoid d (e ∷ ds) h k =
    ((λ same. ground (arith, same)), all_digits-avoid d ds h (ground arith))

-- A positive number does not start with a zero.
pub first_byte-decimal-suc : (n : ℕ) → b'0' < first_byte (decimal (suc n))
first_byte-decimal-suc n = (decimal-Leads (suc n)).1 (omega arith)

pub decimal_first : (n : ℕ) → (b : ℕ) × (ds : Bytes) × (decimal n ≡ b ∷ ds) × (is_digit b ≡ true)
decimal_first n = split (decimal n) refl
  where
    split :
        (bs : Bytes)
        → decimal n ≡ bs
        → (b : ℕ) × (ds : Bytes) × (decimal n ≡ b ∷ ds) × (is_digit b ≡ true)
    split [] e = absurd (omega (arith, length-decimal_pos n, ap length e))
    split (b ∷ ds) e = (b, ds, e, unfold all_digits in ground (arith, all_digits-decimal n))
