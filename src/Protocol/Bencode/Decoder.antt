-- ===== src/Protocol/Bencode/Decoder.antt =====
-- protocol/bencode.go: the decoder. Its reader is the bytes still to come, and `depth` is the field
-- that counts the open calls of `decode`. Each call and each round of a loop costs a unit of fuel,
-- and `decode` starts with more than the input can use.
use mole_swarm.Base.{
  ℕ, zero, suc, ◌+◌, ◌*◌, ◌^◌, Bool, true, false, not, ◌&&◌, Option, none, some, [], ◌∷◌, ltb, leb,
  ◌==◌, if◌then◌else◌, length, drop, Result, ok, err, ◌>>=◌, ◌>>◌, fail_if,
}
use mole_swarm.Base.Bytes.{Bytes, read_full}
use mole_swarm.Base.Int.{ℤ, pos, neg}
use mole_swarm.Base.Decimal.{value_from, all_digits, has_leading_zero, first_byte}
use mole_swarm.Protocol.Bencode.{
  Bencoding, Items, Entries, str, integer, list, dict, no_items, item, no_entries, entry,
  BencodeError, out_of_fuel, eof, buffer_full, trailing_data, nesting_over_limit, bad_prefix,
  empty_length, leading_zero, non_digit, out_of_range, length_over_limit, empty_integer, no_digits,
  negative_zero, unsorted_keys, bytes_lt,
}

abbrev pub max_bencoded_string_length : ℕ
max_bencoded_string_length = 16 * 2 ^ 20

abbrev pub max_bencoding_depth : ℕ
max_bencoding_depth = 100

-- The size of a `bufio.Reader` made by `bufio.NewReader`.
abbrev pub buffer_size : ℕ
buffer_size = 4096

abbrev pub Decoded {ℓ} : Type ℓ → Type ℓ
Decoded A = Result BencodeError (A × Bytes)

-- `ReadSlice` without the delimiter, which the callers cut off: the delimiter is among the next `n`
-- bytes, or the reader's buffer fills up before.
unfoldable pub read_slice : ℕ → ℕ → Bytes → Decoded Bytes
read_slice zero delim bs = err buffer_full
read_slice (suc n) delim [] = err eof
read_slice (suc n) delim (b ∷ bs) =
    let later = read_slice n delim bs >>= λ (xs, rest). ok (b ∷ xs, rest) in
    if b == delim then ok ([], bs) else later

abbrev pub is_empty : Bytes → Bool
is_empty bs = length bs == 0

-- `strconv.ParseUint(digits, 10, 64)`, of digits alone.
unfoldable pub parse_uint : Bytes → Result BencodeError ℕ
parse_uint digits = let n = value_from 0 digits in if ltb n (2 ^ 64) then ok n else err out_of_range

-- `strconv.ParseInt(line, 10, 64)`, of digits with or without a minus sign.
unfoldable pub parse_int : Bool → Bytes → Result BencodeError ℤ
parse_int true digits =
    let n = value_from 0 digits in if leb n (2 ^ 63) then ok (neg n) else err out_of_range
parse_int false digits =
    let n = value_from 0 digits in if ltb n (2 ^ 63) then ok (pos n) else err out_of_range

unfoldable pub decode_string_length : Bytes → Result BencodeError ℕ
unfolding parse_uint
decode_string_length digits = do
  fail_if (is_empty digits) empty_length
  fail_if (has_leading_zero digits) leading_zero
  fail_if (not (all_digits digits)) non_digit
  n ← parse_uint digits
  fail_if (ltb max_bencoded_string_length n) length_over_limit
  ok n

abbrev pub or_eof {ℓ} : {A : Type ℓ} → Option A → Result BencodeError A
or_eof none = err eof
or_eof (some a) = ok a

unfoldable pub decode_bstring : Bytes → Decoded Bytes
unfolding decode_string_length read_slice
decode_bstring bs = read_slice buffer_size b':' bs >>= λ (digits, rest).
    decode_string_length digits >>= λ n. or_eof (read_full n rest)

-- `ReadByte`, and the check that it is the prefix that `decode` has seen.
unfoldable pub read_prefix : ℕ → Bytes → Result BencodeError Bytes
read_prefix prefix [] = err eof
read_prefix prefix (b ∷ bs) = fail_if (not (b == prefix)) bad_prefix >> ok bs

abbrev pub is_negative : Bytes → Bool
is_negative line = first_byte line == b'-'

abbrev pub digits_of : Bytes → Bytes
digits_of line = if is_negative line then drop 1 line else line

unfoldable pub decode_integer_line : Bytes → Result BencodeError ℤ
unfolding parse_int
decode_integer_line line = do
  fail_if (is_empty line) empty_integer
  fail_if (is_negative line && is_empty (digits_of line)) no_digits
  fail_if (has_leading_zero (digits_of line)) leading_zero
  fail_if (is_negative line && first_byte (digits_of line) == b'0') negative_zero
  fail_if (not (all_digits (digits_of line))) non_digit
  parse_int (is_negative line) (digits_of line)

unfoldable pub decode_binteger : Bytes → Decoded ℤ
unfolding decode_integer_line read_slice read_prefix
decode_binteger bs = read_prefix b'i' bs >>= λ bs₁.
    read_slice buffer_size b'e' bs₁ >>= λ (line, rest).
    decode_integer_line line >>= λ n. ok (n, rest)

-- `hasPreviousKey && key.str <= previousKey`
unfoldable pub out_of_order : Option Bytes → Bytes → Bool
out_of_order none key = false
out_of_order (some previous) key = not (bytes_lt previous key)

-- `decode_value` is the method `decode`; the two others are the loops of `decodeBList` and
-- `decodeBDict`, from the byte that they peek at.
unfoldable mutual
  pub decode_value : ℕ → ℕ → Bytes → Decoded Bencoding
  decode_value zero depth bs = err out_of_fuel
  decode_value (suc f) depth [] =
      if leb max_bencoding_depth depth then err nesting_over_limit else err eof
  decode_value (suc f) depth (b ∷ bs) =
      let entries = read_prefix b'd' (b ∷ bs) >>= λ bs₁.
      decode_entries f (depth + 1) none bs₁ >>= λ (es, rest). ok (dict es, rest) in
      let items = read_prefix b'l' (b ∷ bs) >>= λ bs₁.
      decode_items f (depth + 1) bs₁ >>= λ (xs, rest). ok (list xs, rest) in
      if leb max_bencoding_depth depth
      then err nesting_over_limit
      else if b == b'd'
      then entries
      else if b == b'i'
      then (decode_binteger (b ∷ bs) >>= λ (n, rest). ok (integer n, rest))
      else if b == b'l'
      then items
      else (decode_bstring (b ∷ bs) >>= λ (s, rest). ok (str s, rest))

  pub decode_items : ℕ → ℕ → Bytes → Decoded Items
  decode_items zero depth bs = err out_of_fuel
  decode_items (suc f) depth [] = err eof
  decode_items (suc f) depth (b ∷ bs) =
      let more = decode_value f depth (b ∷ bs) >>= λ (v, rest).
      decode_items f depth rest >>= λ (xs, rest'). ok (item v xs, rest') in
      if b == b'e' then ok (no_items, bs) else more

  pub decode_entries : ℕ → ℕ → Option Bytes → Bytes → Decoded Entries
  decode_entries zero depth previous bs = err out_of_fuel
  decode_entries (suc f) depth previous [] = err eof
  decode_entries (suc f) depth previous (b ∷ bs) =
      let more = decode_bstring (b ∷ bs) >>= λ (key, bs₁).
      fail_if (out_of_order previous key) unsorted_keys >>= λ _.
      decode_value f depth bs₁ >>= λ (v, bs₂).
      decode_entries f depth (some key) bs₂ >>= λ (es, rest). ok (entry key v es, rest) in
      if b == b'e' then ok (no_entries, bs) else more

-- The check of `Decode` that the input ends with the value.
unfoldable pub at_end : Bencoding → Bytes → Result BencodeError Bencoding
at_end v [] = ok v
at_end v (_ ∷ _) = err trailing_data

unfoldable pub decode : Bytes → Result BencodeError Bencoding
unfolding at_end
decode bs = decode_value (2 * length bs + 1) 0 bs >>= λ (v, rest). at_end v rest
