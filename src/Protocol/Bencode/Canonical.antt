-- ===== src/Protocol/Bencode/Canonical.antt =====
-- protocol/bencode.go: the values that have an encoding of their own, and that encoding.
use mole_swarm.Base.{
  true, ℕ, ◌+◌, ◌≤◌, ◌<◌, ◌≡◌, refl, ap, false, Option, none, some, List, [], ◌∷◌, ◌++◌, arith,
  length, ok,
}
use mole_swarm.Base.Bytes.{Bytes}
use mole_swarm.Base.Int.{ℤ, IsInt64}
use mole_swarm.Protocol.Bencode.{
  bytes_lt, Bencoding, Items, Entries, str, integer, list, dict, unset, no_items, item, no_entries,
  entry,
}
use mole_swarm.Protocol.Bencode.Order.{bytes_lt_asymm}
use mole_swarm.Protocol.Bencode.Encoder.{
  encode, encode_items, encode_entries, encode_string, encode_integer, Field, insert_field,
  sort_fields, write_fields,
}
use mole_swarm.Protocol.Bencode.Decoder.{
  out_of_order, max_bencoded_string_length, max_bencoding_depth,
}

-- A key may be the first one, or greater than the one before it.
unfoldable pub IsAfter : Option Bytes → Bytes → Type 0
IsAfter none k = Unit {0}
IsAfter (some previous) k = bytes_lt previous k ≡ true

pub in_order :
    (previous : Option Bytes) (k : Bytes) → IsAfter previous k → out_of_order previous k ≡ false
unfolding out_of_order IsAfter
in_order none k h = refl
in_order (some previous) k h = ground (arith, h)

pub out_of_order-IsAfter :
    (previous : Option Bytes) (k : Bytes) → out_of_order previous k ≡ false → IsAfter previous k
unfolding out_of_order IsAfter
out_of_order-IsAfter none k h = tt
out_of_order-IsAfter (some previous) k h = ground arith

-- Canonical at a depth of open lists and dictionaries: nested less than the limit, strings within
-- theirs, integers of `int64`, and dictionaries whose keys increase strictly.
mutual
  pub data IsCanonical : ℕ → Bencoding → Type 0 where
    canonical_str :
        {d : ℕ} {s : Bytes}
        → d < max_bencoding_depth
        → length s ≤ max_bencoded_string_length
        → IsCanonical d (str s)
    canonical_integer :
        {d : ℕ} {n : ℤ} → d < max_bencoding_depth → IsInt64 n → IsCanonical d (integer n)
    canonical_list :
        {d : ℕ} {xs : Items}
        → d < max_bencoding_depth
        → AreCanonical (d + 1) xs
        → IsCanonical d (list xs)
    canonical_dict :
        {d : ℕ} {es : Entries}
        → d < max_bencoding_depth
        → AreSorted (d + 1) none es
        → IsCanonical d (dict es)

  pub data AreCanonical : ℕ → Items → Type 0 where
    items_nil : {d : ℕ} → AreCanonical d no_items
    items_cons :
        {d : ℕ} {v : Bencoding} {xs : Items}
        → IsCanonical d v
        → AreCanonical d xs
        → AreCanonical d (item v xs)

  pub data AreSorted : ℕ → Option Bytes → Entries → Type 0 where
    sorted_nil : {d : ℕ} {previous : Option Bytes} → AreSorted d previous no_entries
    sorted_cons :
        {d : ℕ} {previous : Option Bytes} {k : Bytes} {v : Bencoding} {es : Entries}
        → length k ≤ max_bencoded_string_length
        → IsAfter previous k
        → IsCanonical d v
        → AreSorted d (some k) es
        → AreSorted d previous (entry k v es)

-- The encoding, entries in the order of the list.
unfoldable mutual
  pub print : Bencoding → Bytes
  print (str s) = encode_string s
  print (integer n) = encode_integer n
  print (list xs) = b'l' ∷ (print_items xs ++ b'e' ∷ [])
  print (dict es) = b'd' ∷ (print_entries es ++ b'e' ∷ [])
  print unset = []

  pub print_items : Items → Bytes
  print_items no_items = []
  print_items (item v xs) = print v ++ print_items xs

  pub print_entries : Entries → Bytes
  print_entries no_entries = []
  print_entries (entry k v es) = encode_string k ++ (print v ++ print_entries es)

abbrev fields_of : Entries → List Field
fields_of no_entries = []
fields_of (entry k v es) = (k, print v) ∷ fields_of es

write_fields-fields_of : (es : Entries) → write_fields (fields_of es) ≡ print_entries es
unfolding write_fields print
write_fields-fields_of no_entries = refl
write_fields-fields_of (entry k v es) =
    ap (λ r. encode_string k ++ (print v ++ r)) (write_fields-fields_of es)

-- A field whose key is below the first one stands before them all.
insert_field_first :
    {d : ℕ} {k : Bytes} (b : Bytes) (es : Entries)
    → AreSorted d (some k) es
    → insert_field (k, b) (fields_of es) ≡ (k, b) ∷ fields_of es
unfolding insert_field IsAfter
insert_field_first b no_entries s = refl
insert_field_first {k} b (entry j w es) (sorted_cons _ o _ s) = ground (arith, bytes_lt_asymm k j)

-- Fields in increasing order are sorted already.
sort_fields-fields_of :
    {d : ℕ} {previous : Option Bytes} (es : Entries)
    → AreSorted d previous es
    → sort_fields (fields_of es) ≡ fields_of es
unfolding sort_fields
sort_fields-fields_of no_entries s = refl
sort_fields-fields_of (entry k v es) (sorted_cons _ _ _ s) =
    rw (sort_fields-fields_of es s) (insert_field_first (print v) es s)

mutual
  unfolding encode print

  encode-print_at : {d : ℕ} {v : Bencoding} → IsCanonical d v → encode v ≡ ok (print v)
  encode-print_at (canonical_str _ _) = refl
  encode-print_at (canonical_integer _ _) = refl
  encode-print_at (canonical_list _ c) = rw (encode_items-print c)
  encode-print_at (canonical_dict {es} _ c) =
      rw (encode_entries-print c, sort_fields-fields_of es c, write_fields-fields_of es)

  encode_items-print :
      {d : ℕ} {xs : Items} → AreCanonical d xs → encode_items xs ≡ ok (print_items xs)
  encode_items-print items_nil = refl
  encode_items-print (items_cons c cs) = rw (encode-print_at c, encode_items-print cs)

  encode_entries-print :
      {d : ℕ} {previous : Option Bytes} {es : Entries}
      → AreSorted d previous es
      → encode_entries es ≡ ok (fields_of es)
  encode_entries-print sorted_nil = refl
  encode_entries-print (sorted_cons _ _ c cs) = rw (encode-print_at c, encode_entries-print cs)

-- A canonical value is encoded as printed: its dictionaries are in order already.
pub encode-print : {d : ℕ} {v : Bencoding} → IsCanonical d v → encode v ≡ ok (print v)
encode-print = encode-print_at
