-- ===== src/Protocol/Bencode/Encoder.antt =====
-- protocol/bencode.go: `Encode` and `writeBencoding`, on a writer that takes every byte, such as the
-- `bytes.Buffer` and the hash that the program writes to. An error stands for the whole call.
use mole_swarm.Base.{suc, List, [], ◌∷◌, ◌++◌, if◌then◌else◌, length, Result, ok, err, ◌>>=◌}
use mole_swarm.Base.Bytes.{Bytes}
use mole_swarm.Base.Int.{ℤ, pos, negsuc}
use mole_swarm.Base.Decimal.{decimal}
use mole_swarm.Protocol.Bencode.{
  Bencoding, Items, Entries, str, integer, list, dict, unset, no_items, item, no_entries, entry,
  BencodeError, unknown_kind, bytes_lt,
}

-- `strconv.FormatInt(n, 10)`.
unfoldable pub format_int : ℤ → Bytes
format_int (pos n) = decimal n
format_int (negsuc n) = b'-' ∷ decimal (suc n)

unfoldable pub encode_string : Bytes → Bytes
encode_string s = decimal (length s) ++ b':' ∷ s

unfoldable pub encode_integer : ℤ → Bytes
unfolding format_int
encode_integer n = b'i' ∷ (format_int n ++ b'e' ∷ [])

-- A key and the encoding of its value.
abbrev pub Field : Type 0
Field = Bytes × Bytes

unfoldable pub insert_field : Field → List Field → List Field
insert_field f [] = f ∷ []
insert_field f (g ∷ gs) = if bytes_lt g.0 f.0 then g ∷ insert_field f gs else f ∷ g ∷ gs

-- `sort.Strings` on the keys, each with the value that the map has for it.
unfoldable pub sort_fields : List Field → List Field
unfolding insert_field
sort_fields [] = []
sort_fields (f ∷ fs) = insert_field f (sort_fields fs)

unfoldable pub write_fields : List Field → Bytes
unfolding encode_string
write_fields [] = []
write_fields (f ∷ fs) = encode_string f.0 ++ (f.1 ++ write_fields fs)

unfoldable mutual
  pub encode : Bencoding → Result BencodeError Bytes
  encode (str s) = ok (encode_string s)
  encode (integer n) = ok (encode_integer n)
  encode (list xs) = encode_items xs >>= λ body. ok (b'l' ∷ (body ++ b'e' ∷ []))
  encode (dict es) =
      encode_entries es >>= λ fields. ok (b'd' ∷ (write_fields (sort_fields fields) ++ b'e' ∷ []))
  encode unset = err unknown_kind

  pub encode_items : Items → Result BencodeError Bytes
  encode_items no_items = ok []
  encode_items (item v xs) =
      encode v >>= λ first. encode_items xs >>= λ others. ok (first ++ others)

  pub encode_entries : Entries → Result BencodeError (List Field)
  encode_entries no_entries = ok []
  encode_entries (entry k v es) =
      encode v >>= λ value. encode_entries es >>= λ others. ok ((k, value) ∷ others)
