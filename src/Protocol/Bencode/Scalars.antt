-- ===== src/Protocol/Bencode/Scalars.antt =====
-- protocol/bencode.go: strings and integers, read back as written and written back as read.
use mole_swarm.Base.{
  ℕ, zero, suc, ◌^◌, ◌≤◌, ◌<◌, ◌≡◌, ◌≢◌, refl, ap, ◌∙◌, sym, true, false, [], ◌∷◌, ◌++◌, arith,
  ◌==◌, length, All, append_assoc, ok, Ensures, holds, refused, Ensures-intro, Ensures-bind,
  Ensures-if, Bool-cases, inl, inr,
}
use mole_swarm.Base.Bytes.{Bytes, read_full, read_full-append, read_full-eq-some}
use mole_swarm.Base.Int.{ℤ, pos, negsuc, neg, IsInt64}
use mole_swarm.Base.Decimal.{
  decimal, value_from, all_digits, has_leading_zero, first_byte, value_from-decimal,
  all_digits-decimal, length-decimal_pos, has_leading_zero-decimal, decimal-value_from,
  length-decimal-le, all_digits-avoid, first_byte-decimal-suc,
}
use mole_swarm.Protocol.Bencode.Encoder.{format_int, encode_string, encode_integer}
use mole_swarm.Protocol.Bencode.Decoder.{
  read_slice, buffer_size, max_bencoded_string_length, parse_int, decode_string_length,
  decode_bstring, read_prefix, decode_integer_line, decode_binteger, or_eof, is_negative,
}

read_slice-append :
    (n delim : ℕ) (xs rest : Bytes)
    → All (λ x. x ≢ delim) xs
    → length xs < n
    → read_slice n delim (xs ++ delim ∷ rest) ≡ ok (xs, rest)
unfolding read_slice
read_slice-append zero delim xs rest h lt = absurd (omega arith)
read_slice-append (suc n) delim [] rest h lt = ground arith
read_slice-append (suc n) delim (x ∷ xs) rest h lt =
    ground (arith, h.0, read_slice-append n delim xs rest h.1 (omega arith))

read_slice-Ensures :
    (n delim : ℕ) (bs : Bytes)
    → Ensures (λ (xs, rest). bs ≡ xs ++ delim ∷ rest) (read_slice n delim bs)
unfolding read_slice
read_slice-Ensures zero delim bs = refused
read_slice-Ensures (suc n) delim [] = refused
read_slice-Ensures (suc n) delim (b ∷ bs) =
    Ensures-if (b == delim) (λ h. holds (ground arith))
      λ _. Ensures-bind (read_slice-Ensures n delim bs) λ (xs, rest) p. holds (ap (◌∷◌ b) p)

-- The length of a string, in the digits that the encoder writes.
decode_string_length-decimal :
    (n : ℕ) → n ≤ max_bencoded_string_length → decode_string_length (decimal n) ≡ ok n
unfolding decode_string_length
decode_string_length-decimal n h = ground (
  arith,
  length-decimal_pos n,
  has_leading_zero-decimal n,
  all_digits-decimal n,
  value_from-decimal n,
)

-- What the checks on a length leave.
decode_string_length-eq-ok :
    (ds : Bytes) (n : ℕ)
    → decode_string_length ds ≡ ok n
    → (0 < length ds)
      × (has_leading_zero ds ≡ false)
      × (all_digits ds ≡ true)
      × (value_from 0 ds ≡ n)
      × (n ≤ max_bencoded_string_length)
unfolding decode_string_length
decode_string_length-eq-ok ds n e = ground arith

decode_string_length-Ensures :
    (ds : Bytes)
    → Ensures (λ n. (ds ≡ decimal n) × (n ≤ max_bencoded_string_length)) (decode_string_length ds)
decode_string_length-Ensures ds = Ensures-intro (decode_string_length ds) λ n e.
    let (pos_length, no_zero, digits, value, fits) = decode_string_length-eq-ok ds n e in
    (rw (← value) (sym (decimal-value_from ds pos_length no_zero digits)), fits)

-- A string within the limit is read back from its encoding.
pub decode_bstring-encode_string :
    (s rest : Bytes)
    → length s ≤ max_bencoded_string_length
    → decode_bstring (encode_string s ++ rest) ≡ ok (s, rest)
unfolding decode_bstring encode_string
decode_bstring-encode_string s rest h = rw append_assoc (
    ground (
      arith,
      read_slice-append buffer_size b':' (decimal (length s)) (s ++ rest)
          (all_digits-avoid b':' (decimal (length s)) refl (all_digits-decimal (length s)))
          (omega (arith, length-decimal-le 7 (length s) (omega arith))),
      decode_string_length-decimal (length s) h,
      read_full-append (length s) s rest refl,
    ))

-- A string that is read is within the limit, and its encoding was read.
pub decode_bstring-Ensures :
    (bs : Bytes)
    → Ensures
        (λ (s, rest). (length s ≤ max_bencoded_string_length) × (bs ≡ encode_string s ++ rest))
        (decode_bstring bs)
unfolding decode_bstring encode_string
decode_bstring-Ensures bs =
    Ensures-bind (read_slice-Ensures buffer_size b':' bs) λ (digits, rest) p.
      Ensures-bind (decode_string_length-Ensures digits) λ n q.
        Ensures-intro (or_eof (read_full n rest)) λ (s, left) e.
          let (cut, size) = read_full-eq-some n rest s left (ground arith) in
          (omega arith, p ∙ rw (q.0, cut, size) (sym (append_assoc (decimal n) (b':' ∷ s) left)))

first_byte-digits : (ds : Bytes) → 0 < length ds → all_digits ds ≡ true → b'0' ≤ first_byte ds
unfolding all_digits
first_byte-digits [] h k = elim h [ ]
first_byte-digits (d ∷ ds) h k = ground arith

-- A numeral has no sign.
is_negative-decimal : (n : ℕ) → is_negative (decimal n) ≡ false
is_negative-decimal n =
    ground (arith, first_byte-digits (decimal n) (length-decimal_pos n) (all_digits-decimal n))

-- An integer of `int64` is read back from its digits and sign.
decode_integer_line-format_int : (n : ℤ) → IsInt64 n → decode_integer_line (format_int n) ≡ ok n
unfolding decode_integer_line parse_int format_int
decode_integer_line-format_int (pos n) h = ground (
  arith,
  is_negative-decimal n,
  length-decimal_pos n,
  has_leading_zero-decimal n,
  all_digits-decimal n,
  value_from-decimal n,
)
decode_integer_line-format_int (negsuc n) h = ground (
  arith,
  length-decimal_pos (suc n),
  has_leading_zero-decimal (suc n),
  all_digits-decimal (suc n),
  value_from-decimal (suc n),
  first_byte-decimal-suc n,
)

decode_integer_line_unsigned :
    (line : Bytes) (n : ℤ)
    → is_negative line ≡ false
    → decode_integer_line line ≡ ok n
    → (0 < length line)
      × (has_leading_zero line ≡ false)
      × (all_digits line ≡ true)
      × (n ≡ pos (value_from 0 line))
      × IsInt64 n
unfolding decode_integer_line parse_int
decode_integer_line_unsigned line n s e = ground arith

decode_integer_line_signed :
    (ds : Bytes) (n : ℤ)
    → decode_integer_line (b'-' ∷ ds) ≡ ok n
    → (0 < length ds)
      × (has_leading_zero ds ≡ false)
      × (first_byte ds ≢ b'0')
      × (all_digits ds ≡ true)
      × (n ≡ neg (value_from 0 ds))
      × (value_from 0 ds ≤ 2 ^ 63)
unfolding decode_integer_line parse_int
decode_integer_line_signed ds n e = ground arith

format_int-neg :
    (v : ℕ) → 0 < v → v ≤ 2 ^ 63 → (format_int (neg v) ≡ b'-' ∷ decimal v) × IsInt64 (neg v)
unfolding format_int
format_int-neg zero h le = elim h [ ]
format_int-neg (suc v) h le = (refl, omega arith)

-- Digits that do not start with a zero stand for a positive number.
value_from_pos :
    (ds : Bytes) → decimal (value_from 0 ds) ≡ ds → first_byte ds ≢ b'0' → 0 < value_from 0 ds
value_from_pos ds e h = elim (Bool-cases (value_from 0 ds == 0)) [
  | inl is_zero ↦
      let z : value_from 0 ds ≡ 0 = ground arith in
      absurd (h (ap first_byte (sym (rw z at e)) ∙ unfold decimal in refl))
  | inr positive ↦ ground arith
]

decode_integer_line-format :
    (line : Bytes) (n : ℤ) → decode_integer_line line ≡ ok n → (line ≡ format_int n) × IsInt64 n
decode_integer_line-format [] n e = unfold decode_integer_line in cc
decode_integer_line-format (b ∷ ds) n e = elim (Bool-cases (b == b'-')) [
  | inl minus ↦
      let sign : b ≡ b'-' = ground arith in
      let (size, no_zero, first, digits, value, range) =
        decode_integer_line_signed ds n (rw sign at e) in
      let back = decimal-value_from ds size no_zero digits in
      let (shape, fits) = format_int-neg (value_from 0 ds) (value_from_pos ds back first) range in
      rw (value, shape, back, sign) (refl, fits)
  | inr plus ↦
      let (size, no_zero, digits, value, range) =
        decode_integer_line_unsigned (b ∷ ds) n (ground arith) e in
      (rw value (unfold format_int in sym (decimal-value_from (b ∷ ds) size no_zero digits)), range)
]

-- A written integer is at most twenty bytes long and does not hold the delimiter.
format_int_line :
    (n : ℤ) → IsInt64 n → All (λ x. x ≢ b'e') (format_int n) × (length (format_int n) < buffer_size)
unfolding format_int
format_int_line (pos n) h = (
  all_digits-avoid b'e' (decimal n) refl (all_digits-decimal n),
  omega (arith, length-decimal-le 18 n (omega arith)),
)
format_int_line (negsuc n) h = (
  (
    λ same. ground (arith, same),
    all_digits-avoid b'e' (decimal (suc n)) refl (all_digits-decimal (suc n)),
  ),
  omega (arith, length-decimal-le 18 (suc n) (omega arith)),
)

-- An integer of `int64` is read back from its encoding.
pub decode_binteger-encode_integer :
    (n : ℤ) (rest : Bytes) → IsInt64 n → decode_binteger (encode_integer n ++ rest) ≡ ok (n, rest)
unfolding decode_binteger encode_integer read_prefix
decode_binteger-encode_integer n rest h = rw append_assoc (
    ground (
      arith,
      read_slice-append buffer_size b'e' (format_int n) rest (format_int_line n h).0
          (format_int_line n h).1,
      decode_integer_line-format_int n h,
    ))

pub read_prefix-Ensures :
    (prefix : ℕ) (bs : Bytes) → Ensures (λ rest. bs ≡ prefix ∷ rest) (read_prefix prefix bs)
unfolding read_prefix
read_prefix-Ensures prefix [] = refused
read_prefix-Ensures prefix (b ∷ bs) =
    Ensures-intro (read_prefix prefix (b ∷ bs)) λ rest e. ground arith

-- An integer that is read is in the range of `int64`, and its encoding was read.
pub decode_binteger-Ensures :
    (bs : Bytes)
    → Ensures (λ (n, rest). IsInt64 n × (bs ≡ encode_integer n ++ rest)) (decode_binteger bs)
unfolding decode_binteger encode_integer
decode_binteger-Ensures bs = Ensures-bind (read_prefix-Ensures b'i' bs) λ bs₁ p₁.
    Ensures-bind (read_slice-Ensures buffer_size b'e' bs₁) λ (line, rest) p₂.
      Ensures-bind
        (Ensures-intro (decode_integer_line line) λ n e. decode_integer_line-format line n e)
        λ n p₃. holds (p₃.1, p₁ ∙ rw (p₂, p₃.0, append_assoc))
