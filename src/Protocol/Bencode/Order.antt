-- ===== src/Protocol/Bencode/Order.antt =====
-- protocol/bencode.go: the order of keys, and that the encoding does not depend on the order in which
-- a map yields its entries.
use mole_swarm.Base.{
  ◌≡◌, ◌≢◌, refl, ap, sym, ◌∙◌, true, false, List, [], ◌∷◌, arith, Result, ok, err, ◌>>=◌,
  Result-cases, inl, inr,
}
use mole_swarm.Base.Bytes.{Bytes}
use mole_swarm.Protocol.Bencode.{
  Bencoding, Items, Entries, str, integer, list, dict, unset, no_items, item, no_entries, entry,
  BencodeError, bytes_lt, unknown_kind,
}
use mole_swarm.Protocol.Bencode.Encoder.{
  Field, encode, encode_items, encode_entries, insert_field, sort_fields,
}

pub bytes_lt_asymm : (k j : Bytes) → bytes_lt k j ≡ true → bytes_lt j k ≡ false
unfolding bytes_lt
bytes_lt_asymm [] [] h = cc
bytes_lt_asymm [] (b ∷ j) h = refl
bytes_lt_asymm (a ∷ k) [] h = cc
bytes_lt_asymm (a ∷ k) (b ∷ j) h = ground (arith, bytes_lt_asymm k j)

-- Two keys neither of which is below the other are the same key.
bytes_lt_antisymm : (k j : Bytes) → bytes_lt k j ≡ false → bytes_lt j k ≡ false → k ≡ j
unfolding bytes_lt
bytes_lt_antisymm [] [] h l = refl
bytes_lt_antisymm [] (b ∷ j) h l = cc
bytes_lt_antisymm (a ∷ k) [] h l = cc
bytes_lt_antisymm (a ∷ k) (b ∷ j) h l = ground (arith, bytes_lt_antisymm k j)

bytes_lt_le_trans :
    (h g f : Bytes) → bytes_lt h g ≡ false → bytes_lt h f ≡ true → bytes_lt g f ≡ true
unfolding bytes_lt
bytes_lt_le_trans [] [] [] p q = cc
bytes_lt_le_trans [] [] (c ∷ f) p q = refl
bytes_lt_le_trans [] (b ∷ g) f p q = cc
bytes_lt_le_trans (a ∷ h) [] [] p q = cc
bytes_lt_le_trans (a ∷ h) [] (c ∷ f) p q = refl
bytes_lt_le_trans (a ∷ h) (b ∷ g) [] p q = cc
bytes_lt_le_trans (a ∷ h) (b ∷ g) (c ∷ f) p q = ground (arith, bytes_lt_le_trans h g f)

insert_field_comm :
    (f g : Field) (fs : List Field)
    → f.0 ≢ g.0
    → insert_field f (insert_field g fs) ≡ insert_field g (insert_field f fs)
unfolding insert_field
insert_field_comm f g [] ne = ground (arith, bytes_lt_antisymm f.0 g.0, bytes_lt_asymm f.0 g.0)
insert_field_comm f g (h ∷ fs) ne = ground (
  arith,
  bytes_lt_antisymm f.0 g.0,
  bytes_lt_asymm f.0 g.0,
  bytes_lt_le_trans h.0 g.0 f.0,
  bytes_lt_le_trans h.0 f.0 g.0,
  bytes_lt_asymm g.0 f.0,
  insert_field_comm f g fs ne,
)

-- The entries of one map in two orders: neighbours with different keys change places.
pub data Reordered : Entries → Entries → Type 0 where
  same : {es : Entries} → Reordered es es
  swap :
      (k j : Bytes) (v w : Bencoding) (es : Entries)
      → k ≢ j
      → Reordered (entry k v (entry j w es)) (entry j w (entry k v es))
  keep :
      (k : Bytes) (v : Bencoding) {es fs : Entries}
      → Reordered es fs
      → Reordered (entry k v es) (entry k v fs)
  join : {es fs gs : Entries} → Reordered es fs → Reordered fs gs → Reordered es gs

mutual
  unfolding encode

  encode_fails : (v : Bencoding) {e : BencodeError} → encode v ≡ err e → e ≡ unknown_kind
  encode_fails (str s) h = cc
  encode_fails (integer n) h = cc
  encode_fails (list xs) h = elim (Result-cases (encode_items xs)) [
    | inl (body, made) ↦ ground arith
    | inr (f, failed) ↦ ground (arith, encode_items_fails xs failed)
  ]
  encode_fails (dict es) h = elim (Result-cases (encode_entries es)) [
    | inl (fields, made) ↦ ground arith
    | inr (f, failed) ↦ ground (arith, encode_entries_fails es failed)
  ]
  encode_fails unset h = ground arith

  encode_items_fails : (xs : Items) {e : BencodeError} → encode_items xs ≡ err e → e ≡ unknown_kind
  encode_items_fails no_items h = cc
  encode_items_fails (item v xs) h = elim (Result-cases (encode v)) [
    | inl (first, made) ↦ elim (Result-cases (encode_items xs)) [
      | inl (others, made') ↦ ground arith
      | inr (f, failed) ↦ ground (arith, encode_items_fails xs failed)
    ]
    | inr (f, failed) ↦ ground (arith, encode_fails v failed)
  ]

  encode_entries_fails :
      (es : Entries) {e : BencodeError} → encode_entries es ≡ err e → e ≡ unknown_kind
  encode_entries_fails no_entries h = cc
  encode_entries_fails (entry k v es) h = elim (Result-cases (encode v)) [
    | inl (first, made) ↦ elim (Result-cases (encode_entries es)) [
      | inl (others, made') ↦ ground arith
      | inr (f, failed) ↦ ground (arith, encode_entries_fails es failed)
    ]
    | inr (f, failed) ↦ ground (arith, encode_fails v failed)
  ]

abbrev Encoded : Type 0
Encoded = Result BencodeError (List Field)

-- The entry before others, on results; and the sorted fields.
abbrev before : Bytes → Result BencodeError Bytes → Encoded → Encoded
before k r rs = r >>= λ value. rs >>= λ others. ok ((k, value) ∷ others)

abbrev sorted : Encoded → Encoded
sorted rs = rs >>= λ fields. ok (sort_fields fields)

before_keep :
    (k : Bytes) (r : Result BencodeError Bytes) (rs rs' : Encoded)
    → sorted rs ≡ sorted rs'
    → sorted (before k r rs) ≡ sorted (before k r rs')
unfolding sort_fields
before_keep k (ok v) (ok fs) (ok gs) e = ground arith
before_keep k (ok v) (ok fs) (err f) e = cc
before_keep k (ok v) (err f) (ok gs) e = cc
before_keep k (ok v) (err f) (err g) e = cc
before_keep k (err f) rs rs' e = refl

before_swap :
    (k j : Bytes) (r q : Result BencodeError Bytes) (rs : Encoded)
    → k ≢ j
    → ((e f : BencodeError) → r ≡ err e → q ≡ err f → e ≡ f)
    → sorted (before k r (before j q rs)) ≡ sorted (before j q (before k r rs))
unfolding sort_fields
before_swap k j (ok v) (ok w) (ok fs) ne h =
    ap ok (insert_field_comm (k, v) (j, w) (sort_fields fs) ne)
before_swap k j (ok v) (ok w) (err f) ne h = refl
before_swap k j (ok v) (err f) rs ne h = refl
before_swap k j (err e) (ok w) (ok fs) ne h = refl
before_swap k j (err e) (ok w) (err f) ne h = refl
before_swap k j (err e) (err f) rs ne h = ap err (h e f refl refl)

sorted-Reordered :
    {es fs : Entries} → Reordered es fs → sorted (encode_entries es) ≡ sorted (encode_entries fs)
unfolding encode
sorted-Reordered same = refl
sorted-Reordered (swap k j v w es ne) =
    before_swap k j (encode v) (encode w) (encode_entries es) ne
      (λ e f p q. encode_fails v p ∙ sym (encode_fails w q))
sorted-Reordered (keep k v {es} {fs} r) =
    before_keep k (encode v) (encode_entries es) (encode_entries fs) (sorted-Reordered r)
sorted-Reordered (join r s) = sorted-Reordered r ∙ sorted-Reordered s

-- `Encode` writes the same bytes, or fails alike, in whatever order the map yields its entries.
pub encode-Reordered : {es fs : Entries} → Reordered es fs → encode (dict es) ≡ encode (dict fs)
unfolding encode
encode-Reordered {es} {fs} r =
    let e = sorted-Reordered r in
    elim (Result-cases (encode_entries es)) [
      | inl (fields, made) ↦ elim (Result-cases (encode_entries fs)) [
        | inl (others, made') ↦ ground arith
        | inr (f, failed) ↦ ground arith
      ]
      | inr (f, failed) ↦ elim (Result-cases (encode_entries fs)) [
        | inl (others, made') ↦ ground arith
        | inr (f', failed') ↦ ground arith
      ]
    ]
