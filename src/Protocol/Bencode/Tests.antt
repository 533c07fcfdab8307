-- ===== src/Protocol/Bencode/Tests.antt =====
-- protocol/bencode.go: runs of the codec, and the theorems at concrete inputs.
use mole_swarm.Base.{◌≡◌, ◌≢◌, ◌↔◌, refl, some, [], ok, err, arith}
use mole_swarm.Base.Bytes.{Bytes, codes, read_full}
use mole_swarm.Base.Decimal.{decimal, all_digits, value_from}
use mole_swarm.Base.Int.{pos, negsuc}
use mole_swarm.Protocol.Bencode.{
  Bencoding, str, integer, list, dict, no_items, item, no_entries, entry, bytes_lt, leading_zero,
  negative_zero, unsorted_keys, trailing_data, out_of_fuel, find_string, find, bytes_eq, string_of,
}
use mole_swarm.Protocol.Bencode.Encoder.{encode, encode_integer, sort_fields, write_fields}
use mole_swarm.Protocol.Bencode.Decoder.{
  decode, decode_value, decode_bstring, decode_binteger, out_of_order,
}
use mole_swarm.Protocol.Bencode.Canonical.{IsCanonical}
use mole_swarm.Protocol.Bencode.Order.{swap, encode-Reordered}
use mole_swarm.Protocol.Bencode.Sound.{decode-ne-out_of_fuel, decode-eq-ok_iff}

abbrev bar : Bytes
bar = codes "bar"

abbrev foo : Bytes
foo = codes "foo"

abbrev spam : Bytes
spam = codes "spam"

abbrev sample : Bencoding
sample =
    dict (entry bar (list (item (str spam) no_items)) (entry foo (integer (negsuc 41)) no_entries))

abbrev sample_bytes : Bytes
sample_bytes = codes "d3:barl4:spame3:fooi-42ee"

decode-sample : decode sample_bytes ≡ ok sample
unfolding decode decode_value decode_bstring decode_binteger all_digits value_from read_full
    out_of_order bytes_lt
decode-sample = refl

encode_unsorted :
    encode (dict (entry foo (integer (pos 7)) (entry bar (str []) no_entries)))
    ≡ ok (codes "d3:bar0:3:fooi7ee")
unfolding encode sort_fields write_fields bytes_lt decimal encode_integer
encode_unsorted = refl

decode_leading_zero : decode (codes "i042e") ≡ err leading_zero
unfolding decode decode_value decode_binteger
decode_leading_zero = refl

decode_negative_zero : decode (codes "i-0e") ≡ err negative_zero
unfolding decode decode_value decode_binteger
decode_negative_zero = refl

decode_unsorted : decode (codes "d1:bi1e1:ai2ee") ≡ err unsorted_keys
unfolding decode decode_value decode_binteger decode_bstring all_digits value_from read_full
    out_of_order bytes_lt
decode_unsorted = refl

decode_trailing : decode (codes "i1ei2e") ≡ err trailing_data
unfolding decode decode_value decode_binteger all_digits value_from
decode_trailing = refl

find_string_sample : find_string foo (entry foo (str spam) no_entries) ≡ some spam
unfolding find_string find bytes_eq string_of
find_string_sample = refl

decode-eq-ok_iff_example :
    (decode sample_bytes ≡ ok sample) ↔ (IsCanonical 0 sample × (encode sample ≡ ok sample_bytes))
decode-eq-ok_iff_example = decode-eq-ok_iff sample_bytes sample

decode-ne-out_of_fuel_example : decode (codes "lllldd") ≢ err out_of_fuel
decode-ne-out_of_fuel_example = decode-ne-out_of_fuel (codes "lllldd")

bar-ne-foo : foo ≢ bar
bar-ne-foo = λ e. ground (arith, e)

encode-Reordered_example :
    encode (dict (entry foo (integer (pos 7)) (entry bar (str []) no_entries)))
    ≡ encode (dict (entry bar (str []) (entry foo (integer (pos 7)) no_entries)))
encode-Reordered_example =
    encode-Reordered (swap foo bar (integer (pos 7)) (str []) no_entries bar-ne-foo)
