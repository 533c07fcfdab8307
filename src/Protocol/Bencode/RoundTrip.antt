-- ===== src/Protocol/Bencode/RoundTrip.antt =====
-- protocol/bencode.go: what is encoded is decoded.
use mole_swarm.Base.{
  ℕ, zero, suc, ◌+◌, ◌*◌, ◌≤◌, ◌<◌, ◌≡◌, ◌≢◌, refl, ap, ◌∙◌, true, false, Option, none, some, [],
  ◌∷◌, ◌++◌, append_assoc, append-nil, arith, length, length-append, ok, ◌>>=◌,
}
use mole_swarm.Base.Bytes.{Bytes}
use mole_swarm.Base.Int.{ℤ, IsInt64}
use mole_swarm.Base.Decimal.{is_digit, decimal_first}
use mole_swarm.Protocol.Bencode.{Bencoding, Items, Entries, str, integer, list, dict, item, entry}
use mole_swarm.Protocol.Bencode.Encoder.{encode, encode_string, encode_integer}
use mole_swarm.Protocol.Bencode.Decoder.{
  decode_value, decode_items, decode_entries, decode_bstring, decode, read_prefix,
  max_bencoding_depth, max_bencoded_string_length, out_of_order, Decoded,
}
use mole_swarm.Protocol.Bencode.Scalars.{
  decode_bstring-encode_string, decode_binteger-encode_integer,
}
use mole_swarm.Protocol.Bencode.Canonical.{
  IsCanonical, AreCanonical, AreSorted, canonical_str, canonical_integer, canonical_list,
  canonical_dict, items_nil, items_cons, sorted_nil, sorted_cons, in_order, print, print_items,
  print_entries, encode-print,
}

-- A byte sequence that is not empty, with what is known of its first byte.
abbrev Starts : (ℕ → Type 0) → Bytes → Type 0
Starts P bs = (b : ℕ) × (rest : Bytes) × (bs ≡ b ∷ rest) × P b

encode_string-Starts : (s : Bytes) → Starts (λ b. is_digit b ≡ true) (encode_string s)
unfolding encode_string
encode_string-Starts s =
    let (b, ds, e, digit) = decimal_first (length s) in
    (b, ds ++ b':' ∷ s, ap (λ x. x ++ b':' ∷ s) e, digit)

-- No value starts like the end of a list or a dictionary.
print-Starts : {d : ℕ} {v : Bencoding} → IsCanonical d v → Starts (λ b. b ≢ b'e') (print v)
unfolding print encode_integer
print-Starts (canonical_str {s} _ _) =
    let (b, rest, e, digit) = encode_string-Starts s in (b, rest, e, λ same. ground (arith, same))
print-Starts (canonical_integer _ _) = (b'i', _, refl, λ same. omega (arith, same))
print-Starts (canonical_list _ _) = (b'l', _, refl, λ same. omega (arith, same))
print-Starts (canonical_dict _ _) = (b'd', _, refl, λ same. omega (arith, same))

-- One call of `decode`, by the first byte.
decode_value_digit :
    (f d b : ℕ) (bs : Bytes)
    → d < max_bencoding_depth
    → is_digit b ≡ true
    → decode_value (suc f) d (b ∷ bs) ≡ (decode_bstring (b ∷ bs) >>= λ (s, rest). ok (str s, rest))
unfolding decode_value
decode_value_digit f d b bs h digit = ground arith

decode_value-str :
    (f d : ℕ) (s rest : Bytes)
    → d < max_bencoding_depth
    → length s ≤ max_bencoded_string_length
    → decode_value (suc f) d (encode_string s ++ rest) ≡ ok (str s, rest)
decode_value-str f d s rest h le =
    let (b, bs, e, digit) = encode_string-Starts s in
    let read = rw e at (decode_bstring-encode_string s rest le) in
    rw e (decode_value_digit f d b (bs ++ rest) h digit ∙ rw read)

decode_value-integer :
    (f d : ℕ) (n : ℤ) (rest : Bytes)
    → d < max_bencoding_depth
    → IsInt64 n
    → decode_value (suc f) d (encode_integer n ++ rest) ≡ ok (integer n, rest)
unfolding decode_value encode_integer
decode_value-integer f d n rest h range =
    ground (arith, decode_binteger-encode_integer n rest range)

decode_value_list :
    (f d : ℕ) (bs : Bytes)
    → d < max_bencoding_depth
    → decode_value (suc f) d (b'l' ∷ bs)
      ≡ (decode_items f (d + 1) bs >>= λ (xs, rest). ok (list xs, rest))
unfolding decode_value read_prefix
decode_value_list f d bs h = ground arith

decode_value_dict :
    (f d : ℕ) (bs : Bytes)
    → d < max_bencoding_depth
    → decode_value (suc f) d (b'd' ∷ bs)
      ≡ (decode_entries f (d + 1) none bs >>= λ (es, rest). ok (dict es, rest))
unfolding decode_value read_prefix
decode_value_dict f d bs h = ground arith

decode_items_more :
    (f d b : ℕ) (bs : Bytes)
    → b ≢ b'e'
    → decode_items (suc f) d (b ∷ bs) ≡ (
        decode_value f d (b ∷ bs) >>= λ (v, rest).
        decode_items f d rest >>= λ (xs, rest'). ok (item v xs, rest'))
unfolding decode_value
decode_items_more f d b bs h = ground arith

-- One round of the loop over the entries, at a key that comes in order.
decode_entries_more :
    (f d : ℕ) (previous : Option Bytes) (k bs : Bytes)
    → length k ≤ max_bencoded_string_length
    → out_of_order previous k ≡ false
    → decode_entries (suc f) d previous (encode_string k ++ bs) ≡ (
        decode_value f d bs >>= λ (v, rest).
        decode_entries f d (some k) rest >>= λ (es, rest'). ok (entry k v es, rest'))
unfolding decode_value
decode_entries_more f d previous k bs h o =
    let (b, ks, e, digit) = encode_string-Starts k in
    let read = rw e at (decode_bstring-encode_string k bs h) in rw e (ground (arith, read))

-- Run with more fuel than `need`, the reader takes `printed` off the input and returns `a`.
abbrev Reads {ℓ} : {A : Type ℓ} → (ℕ → Bytes → Decoded A) → ℕ → Bytes → A → Type ℓ
Reads p need printed a = (rest : Bytes) (f : ℕ) → need < f → p f (printed ++ rest) ≡ ok (a, rest)

-- Such fuel is a successor.
with_unit {ℓ} :
    (P : ℕ → Type ℓ) (need : ℕ) → ((f : ℕ) → need ≤ f → P (suc f)) → (f : ℕ) → need < f → P f
with_unit P need k zero h = absurd (omega arith)
with_unit P need k (suc f) h = k f (omega arith)

abbrev cost : Bytes → ℕ
cost printed = 2 * length printed

pub length-print_pos : {d : ℕ} {v : Bencoding} → IsCanonical d v → 0 < length (print v)
length-print_pos c = let (b, rest, e, _) = print-Starts c in omega (arith, ap length e)

length-append_bytes : (xs ys : Bytes) → length (xs ++ ys) ≡ length xs + length ys
length-append_bytes = length-append

ruleset sizes = (arith, length-append_bytes)

-- One value of a loop, then the others.
decode_items-cons :
    (f d : ℕ) (v : Bencoding) (xs : Items) (others rest : Bytes)
    → Starts (λ b. b ≢ b'e') (print v)
    → decode_value f d (print v ++ others) ≡ ok (v, others)
    → decode_items f d others ≡ ok (xs, rest)
    → decode_items (suc f) d (print v ++ others) ≡ ok (item v xs, rest)
decode_items-cons f d v xs others rest (b, bs, e, ne) first next =
    rw e (decode_items_more f d b (bs ++ others) ne ∙ rw (rw e at first) (rw next))

mutual
  unfolding print decode_value

  print-Reads :
      {d : ℕ} {v : Bencoding}
      → IsCanonical d v
      → Reads (λ f. decode_value f d) (cost (print v)) (print v) v
  print-Reads (canonical_str {d} {s} h le) rest =
      with_unit _ _ λ f _. decode_value-str f d s rest h le
  print-Reads (canonical_integer {d} {n} h range) rest =
      with_unit _ _ λ f _. decode_value-integer f d n rest h range
  print-Reads (canonical_list {d} {xs} h c) rest = with_unit _ _ λ f lt.
      decode_value_list f d ((print_items xs ++ b'e' ∷ []) ++ rest) h
      ∙ rw (append_assoc, print_items-Reads c rest f (omega sizes))
  print-Reads (canonical_dict {d} {es} h c) rest = with_unit _ _ λ f lt.
      decode_value_dict f d ((print_entries es ++ b'e' ∷ []) ++ rest) h
      ∙ rw (append_assoc, print_entries-Reads c rest f (omega sizes))

  print_items-Reads :
      {d : ℕ} {xs : Items}
      → AreCanonical d xs
      → (rest : Bytes) (f : ℕ) → suc (cost (print_items xs)) < f
      → decode_items f d (print_items xs ++ b'e' ∷ rest) ≡ ok (xs, rest)
  print_items-Reads items_nil rest = with_unit _ _ λ f lt. refl
  print_items-Reads (items_cons {d} {v} {xs} c cs) rest = with_unit _ _ λ f lt. rw append_assoc (
      decode_items-cons f d v xs _ rest (print-Starts c)
        (print-Reads c _ f (omega (sizes, length-print_pos c)))
        (print_items-Reads cs rest f (omega (sizes, length-print_pos c))))

  print_entries-Reads :
      {d : ℕ} {previous : Option Bytes} {es : Entries}
      → AreSorted d previous es
      → (rest : Bytes) (f : ℕ) → suc (cost (print_entries es)) < f
      → decode_entries f d previous (print_entries es ++ b'e' ∷ rest) ≡ ok (es, rest)
  print_entries-Reads sorted_nil rest = with_unit _ _ λ f lt. refl
  print_entries-Reads (sorted_cons {d} {previous} {k} {v} {es} le o c cs) rest =
      with_unit _ _ λ f lt.
        rw (append_assoc, append_assoc)
          (decode_entries_more f d previous k _ le (in_order previous k o)
            ∙ rw (print-Reads c _ f (omega (sizes, length-print_pos c)))
                (rw (print_entries-Reads cs rest f (omega (sizes, length-print_pos c)))))

-- A canonical value is read back from its encoding, at any depth and before any input.
pub decode_value-print :
    (f d : ℕ) (v : Bencoding) (rest : Bytes)
    → IsCanonical d v
    → 2 * length (print v) < f
    → decode_value f d (print v ++ rest) ≡ ok (v, rest)
decode_value-print f d v rest c h = print-Reads c rest f h

pub decode-print : (v : Bencoding) → IsCanonical 0 v → decode (print v) ≡ ok v
unfolding decode
decode-print v c =
    let whole = decode_value-print (2 * length (print v) + 1) 0 v [] c (omega arith) in
    rw (rw append-nil at whole)

-- `Decode` returns every canonical value from the bytes that `Encode` writes for it.
pub decode-encode :
    (v : Bencoding) (bs : Bytes) → IsCanonical 0 v → encode v ≡ ok bs → decode bs ≡ ok v
decode-encode v bs c e =
    let same : print v ≡ bs = cc (encode-print c) in rw (← same) (decode-print v c)
