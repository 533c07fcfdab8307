-- ===== src/Protocol/Bencode/Sound.antt =====
-- protocol/bencode.go: the decoder accepts canonical encodings alone, and its fuel is enough.
use mole_swarm.Base.{
  ℕ, zero, suc, ◌+◌, ◌*◌, ◌≤◌, ◌<◌, ◌≡◌, ◌≢◌, ◌↔◌, refl, ap, sym, ◌∙◌, Bool, true, false, Option,
  none, some, [], ◌∷◌, ◌++◌, append_assoc, append-nil, arith, leb, ◌==◌, length, length-append,
  Result, ok, err, ◌>>=◌, if◌then◌else◌, Ensures, holds, refused, Ensures-ok, fail_if,
}
use mole_swarm.Base.Bytes.{Bytes, read_full}
use mole_swarm.Base.Int.{IsInt64}
use mole_swarm.Protocol.Bencode.{Bencoding, BencodeError, out_of_fuel}
use mole_swarm.Protocol.Bencode.Encoder.{encode, encode_string, encode_integer}
use mole_swarm.Protocol.Bencode.Decoder.{
  decode_value, decode_items, decode_entries, decode_bstring, decode_binteger, decode, at_end,
  read_prefix, max_bencoding_depth, max_bencoded_string_length, out_of_order, read_slice,
  decode_string_length, decode_integer_line, parse_int, or_eof, buffer_size,
}
use mole_swarm.Protocol.Bencode.Scalars.{
  decode_bstring-Ensures, decode_binteger-Ensures, read_prefix-Ensures,
}
use mole_swarm.Protocol.Bencode.Canonical.{
  IsCanonical, AreCanonical, AreSorted, canonical_str, canonical_integer, canonical_list,
  canonical_dict, items_nil, items_cons, sorted_nil, sorted_cons, out_of_order-IsAfter, print,
  print_items, print_entries, encode-print,
}
use mole_swarm.Protocol.Bencode.RoundTrip.{decode-encode, length-print_pos}

-- The run kept within its fuel, and `P` holds of its value, if it has one.
data Runs {ℓ κ} {A : Type ℓ} (P : A → Type κ) : Result BencodeError A → Type (ℓ ⊔ κ) where
  returns : {a : A} → P a → Runs P (ok a)
  fails : {e : BencodeError} → e ≢ out_of_fuel → Runs P (err e)

module _ {ℓ κ} {A : Type ℓ} {P : A → Type κ} where
  Runs-Ensures : {r : Result BencodeError A} → Runs P r → Ensures P r
  Runs-Ensures (returns h) = holds h
  Runs-Ensures (fails ne) = refused

  Runs-in_fuel : {r : Result BencodeError A} → Runs P r → r ≢ err out_of_fuel
  Runs-in_fuel (returns h) e = cc
  Runs-in_fuel (fails ne) e = ne (cc)

  Ensures-Runs : {r : Result BencodeError A} → Ensures P r → r ≢ err out_of_fuel → Runs P r
  Ensures-Runs (holds h) ne = returns h
  Ensures-Runs (refused {e}) ne = fails λ same. ne (ap err same)

  Runs-if :
      (b : Bool) {x y : Result BencodeError A}
      → (b ≡ true → Runs P x)
      → (b ≡ false → Runs P y)
      → Runs P (if b then x else y)
  Runs-if true hx hy = hx refl
  Runs-if false hx hy = hy refl

  Runs-bind {ℓ' κ'} :
      {B : Type ℓ'} {Q : B → Type κ'} {r : Result BencodeError A} {f : A → Result BencodeError B}
      → Runs P r
      → ((a : A) → P a → Runs Q (f a))
      → Runs Q (r >>= f)
  Runs-bind (returns {a} h) k = k a h
  Runs-bind (fails ne) k = fails ne

-- A failure that is not for lack of fuel, whatever the value.
abbrev Ends {ℓ} : {A : Type ℓ} → Result BencodeError A → Type ℓ
Ends r = Runs (λ _. Unit {0}) r

Ends-intro {ℓ} : {A : Type ℓ} (r : Result BencodeError A) → r ≢ err out_of_fuel → Ends r
Ends-intro (ok a) ne = returns tt
Ends-intro (err e) ne = fails λ same. ne (ap err same)

with_value {ℓ κ} :
    {A : Type ℓ} {P : A → Type κ} {r : Result BencodeError A} → Ensures P r → Ends r → Runs P r
with_value h ends = Ensures-Runs h (Runs-in_fuel ends)

read_slice-Ends : (n d : ℕ) (bs : Bytes) → Ends (read_slice n d bs)
unfolding read_slice
read_slice-Ends zero d bs = fails λ e. cc
read_slice-Ends (suc n) d [] = fails λ e. cc
read_slice-Ends (suc n) d (b ∷ bs) =
    Runs-if (b == d) (λ _. returns tt) λ _. Runs-bind (read_slice-Ends n d bs) λ _ _. returns tt

decode_string_length-Ends : (ds : Bytes) → Ends (decode_string_length ds)
unfolding decode_string_length
decode_string_length-Ends ds = Ends-intro (decode_string_length ds) λ e. ground arith

decode_integer_line-Ends : (line : Bytes) → Ends (decode_integer_line line)
unfolding decode_integer_line parse_int
decode_integer_line-Ends line = Ends-intro (decode_integer_line line) λ e. ground arith

read_prefix-Ends : (p : ℕ) (bs : Bytes) → Ends (read_prefix p bs)
unfolding read_prefix
read_prefix-Ends p [] = fails λ e. cc
read_prefix-Ends p (b ∷ bs) = Ends-intro (read_prefix p (b ∷ bs)) λ e. ground arith

decode_bstring-Runs :
    (bs : Bytes)
    → Runs
        (λ (s, rest). (length s ≤ max_bencoded_string_length) × (bs ≡ encode_string s ++ rest))
        (decode_bstring bs)
unfolding decode_bstring
decode_bstring-Runs bs = with_value (decode_bstring-Ensures bs) (
    Runs-bind (read_slice-Ends buffer_size b':' bs) λ (digits, rest) _.
      Runs-bind (decode_string_length-Ends digits)
        λ n _. Ends-intro (or_eof (read_full n rest)) λ e. ground arith)

decode_binteger-Runs :
    (bs : Bytes)
    → Runs (λ (n, rest). IsInt64 n × (bs ≡ encode_integer n ++ rest)) (decode_binteger bs)
unfolding decode_binteger
decode_binteger-Runs bs = with_value (decode_binteger-Ensures bs) (
    Runs-bind (read_prefix-Ends b'i' bs) λ bs₁ _.
      Runs-bind (read_slice-Ends buffer_size b'e' bs₁)
        λ (line, rest) _. Runs-bind (decode_integer_line-Ends line) λ n _. returns tt)

read_prefix-Runs : (p : ℕ) (bs : Bytes) → Runs (λ rest. bs ≡ p ∷ rest) (read_prefix p bs)
read_prefix-Runs p bs = with_value (read_prefix-Ensures p bs) (read_prefix-Ends p bs)

fail_if-Runs : (b : Bool) {e : BencodeError} → e ≢ out_of_fuel → Runs (λ _. b ≡ false) (fail_if b e)
fail_if-Runs true ne = fails ne
fail_if-Runs false ne = returns refl

length-append_bytes : (xs ys : Bytes) → length (xs ++ ys) ≡ length xs + length ys
length-append_bytes = length-append

ruleset sizes = (arith, length-append_bytes)

abbrev Read : ℕ → Bytes → Bencoding × Bytes → Type 0
Read d bs (v, rest) = IsCanonical d v × (bs ≡ print v ++ rest)

mutual
  unfolding decode_value print

  decode_value-Runs :
      (f d : ℕ) (bs : Bytes) → 2 * length bs < f → Runs (Read d bs) (decode_value f d bs)
  decode_value-Runs zero d bs h = absurd (omega arith)
  decode_value-Runs (suc f) d [] h =
      Runs-if (leb max_bencoding_depth d) (λ _. fails λ e. cc) (λ _. fails λ e. cc)
  decode_value-Runs (suc f) d (b ∷ bs) h =
      Runs-if (leb max_bencoding_depth d) (λ _. fails λ e. cc)
        λ deep.
          Runs-if (b == b'd')
            (λ _. Runs-bind (read_prefix-Runs b'd' (b ∷ bs)) λ bs₁ p.
              Runs-bind (decode_entries-Runs f (d + 1) none bs₁ (omega (arith, ap length p)))
                λ (es, rest) q.
                  returns (canonical_dict (ground arith) q.0, p ∙ rw (q.1, append_assoc)))
            λ _.
              Runs-if (b == b'i')
                (λ _.
                  Runs-bind (decode_binteger-Runs (b ∷ bs))
                    λ (n, rest) p. returns (canonical_integer (ground arith) p.0, p.1))
                λ _.
                  Runs-if (b == b'l')
                    (λ _. Runs-bind (read_prefix-Runs b'l' (b ∷ bs)) λ bs₁ p.
                      Runs-bind (decode_items-Runs f (d + 1) bs₁ (omega (arith, ap length p)))
                        λ (xs, rest) q.
                          returns (canonical_list (ground arith) q.0, p ∙ rw (q.1, append_assoc)))
                    λ _.
                      Runs-bind (decode_bstring-Runs (b ∷ bs))
                        λ (s, rest) p. returns (canonical_str (ground arith) p.0, p.1)

  decode_items-Runs :
      (f d : ℕ) (bs : Bytes)
      → suc (2 * length bs) < f
      → Runs
          (λ (xs, rest). AreCanonical d xs × (bs ≡ print_items xs ++ b'e' ∷ rest))
          (decode_items f d bs)
  decode_items-Runs zero d bs h = absurd (omega arith)
  decode_items-Runs (suc f) d [] h = fails λ e. cc
  decode_items-Runs (suc f) d (b ∷ bs) h =
      Runs-if (b == b'e') (λ e. returns (items_nil, ground arith))
        λ _. Runs-bind (decode_value-Runs f d (b ∷ bs) (omega arith)) λ (v, rest) p.
          Runs-bind
            (decode_items-Runs f d rest (omega (sizes, ap length p.1, length-print_pos p.0)))
            λ (xs, rest') q. returns (items_cons p.0 q.0, p.1 ∙ rw (q.1, append_assoc))

  decode_entries-Runs :
      (f d : ℕ) (previous : Option Bytes) (bs : Bytes)
      → suc (2 * length bs) < f
      → Runs
          (λ (es, rest). AreSorted d previous es × (bs ≡ print_entries es ++ b'e' ∷ rest))
          (decode_entries f d previous bs)
  decode_entries-Runs zero d previous bs h = absurd (omega arith)
  decode_entries-Runs (suc f) d previous [] h = fails λ e. cc
  decode_entries-Runs (suc f) d previous (b ∷ bs) h =
      Runs-if (b == b'e') (λ e. returns (sorted_nil, ground arith))
        λ _. Runs-bind (decode_bstring-Runs (b ∷ bs)) λ (k, bs₁) p.
          Runs-bind (fail_if-Runs (out_of_order previous k) (λ e. cc)) λ _ o.
            Runs-bind (decode_value-Runs f d bs₁ (omega (sizes, ap length p.1))) λ (v, bs₂) q.
              Runs-bind
                (decode_entries-Runs f d (some k) bs₂
                  (omega (sizes, ap length p.1, ap length q.1, length-print_pos q.0)))
                λ (es, rest) r. returns (
                  sorted_cons p.0 (out_of_order-IsAfter previous k o) q.0 r.0,
                  p.1 ∙ rw (q.1, r.1, append_assoc, append_assoc),
                )

at_end-Runs :
    (bs : Bytes) (v : Bencoding) (rest : Bytes)
    → Read 0 bs (v, rest)
    → Runs (λ w. IsCanonical 0 w × (bs ≡ print w)) (at_end v rest)
unfolding at_end
at_end-Runs bs v [] p = returns (p.0, p.1 ∙ append-nil (print v))
at_end-Runs bs v (_ ∷ _) p = fails λ e. cc

decode-Runs : (bs : Bytes) → Runs (λ v. IsCanonical 0 v × (bs ≡ print v)) (decode bs)
unfolding decode
decode-Runs bs =
    Runs-bind (decode_value-Runs (2 * length bs + 1) 0 bs (omega arith))
      λ (v, rest) p. at_end-Runs bs v rest p

-- `Decode` never gives up for lack of fuel: every input is read to an end or refused by a check.
pub decode-ne-out_of_fuel : (bs : Bytes) → decode bs ≢ err out_of_fuel
decode-ne-out_of_fuel bs = Runs-in_fuel (decode-Runs bs)

-- What `Decode` accepts is canonical, and `Encode` writes the accepted bytes again.
pub encode-decode :
    (bs : Bytes) (v : Bencoding) → decode bs ≡ ok v → IsCanonical 0 v × (encode v ≡ ok bs)
encode-decode bs v e =
    let (c, same) = Ensures-ok (Runs-Ensures (decode-Runs bs)) e in
    (c, encode-print c ∙ ap ok (sym same))

-- `Decode` accepts a byte sequence, and returns `v`, exactly when `v` is canonical and the sequence
-- is its encoding.
pub decode-eq-ok_iff :
    (bs : Bytes) (v : Bencoding) → (decode bs ≡ ok v) ↔ (IsCanonical 0 v × (encode v ≡ ok bs))
decode-eq-ok_iff bs v = (encode-decode bs v, λ p. decode-encode v bs p.0 p.1)
