-- ===== src/Protocol/Metainfo/Tests.antt =====
-- protocol/metainfo.go: the theorems at concrete inputs. A checksum of twenty equal bytes stands for
-- SHA-1.
use mole_swarm.Base.{◌%◌, ◌≡◌, ◌↔◌, refl, [], ◌∷◌, ok, arith, replicate, length, take}
use mole_swarm.Base.Bytes.{Bytes, codes, read_full}
use mole_swarm.Base.Decimal.{decimal, all_digits, value_from}
use mole_swarm.Base.Int.{pos}
use mole_swarm.Protocol.Bencode.{
  bytes_eq, bytes_lt, find, find_int, find_string, int_of, string_of, dict_of,
}
use mole_swarm.Protocol.Bencode.Encoder.{encode, encode_integer, sort_fields, write_fields}
use mole_swarm.Protocol.Bencode.Decoder.{
  decode, decode_value, decode_bstring, decode_binteger, out_of_order,
}
use mole_swarm.Protocol.Metainfo.{
  Info, MetaInfo, info_bencoding, meta_info_bencoding, encode_meta_info, parse_info,
  parse_meta_info, read_meta_info, new_meta_info, marshal_piece_hashes, split_hashes,
  expected_pieces,
}
use mole_swarm.Protocol.Metainfo.Pieces.{IsInfo}
use mole_swarm.Protocol.Metainfo.Described.{Describes, parse_info-eq-ok_iff}
use mole_swarm.Protocol.Metainfo.Accepts.{IsRead, read_meta_info-IsRead}
use mole_swarm.Protocol.Metainfo.RoundTrip.{Fits, read_meta_info-encode_meta_info}

abbrev checksum : Bytes → Bytes
checksum bs = replicate 20 (length bs % 256)

abbrev tiny : Info
tiny = record {
  name = codes "t";
  len = pos 10;
  piece_length = pos 8;
  piece_hashes = replicate 20 65 ∷ replicate 20 66 ∷ [];
}

tiny-IsInfo : IsInfo tiny
unfolding expected_pieces
tiny-IsInfo = record {
  total = 10;
  size = 8;
  len_eq = refl;
  size_eq = refl;
  size_pos = omega arith;
  name_pos = omega arith;
  hashes = omega arith;
  count = refl;
}

tiny-Fits : Fits tiny
unfolding marshal_piece_hashes
tiny-Fits = record {
  len_range = omega arith;
  piece_length_range = omega arith;
  name_limit = omega arith;
  pieces_limit = omega arith;
}

abbrev tiny_bytes : Bytes
tiny_bytes =
    codes
      "d8:announce1:u4:infod6:lengthi10e4:name1:t12:piece lengthi8e6:pieces40:AAAAAAAAAAAAAAAAAAAABBBBBBBBBBBBBBBBBBBBee"

abbrev tiny_meta : MetaInfo
tiny_meta = record { announce = codes "u"; info = tiny; info_hash = replicate 20 92 }

tiny_made : new_meta_info checksum (codes "u") tiny ≡ ok tiny_meta
unfolding new_meta_info info_bencoding encode sort_fields write_fields bytes_lt decimal
    encode_integer marshal_piece_hashes
tiny_made = refl

tiny_encoded : encode_meta_info tiny_meta ≡ ok tiny_bytes
unfolding encode_meta_info meta_info_bencoding info_bencoding encode sort_fields write_fields
    bytes_lt decimal encode_integer marshal_piece_hashes
tiny_encoded = refl

read_meta_info-encode_meta_info_example : read_meta_info checksum tiny_bytes ≡ ok tiny_meta
read_meta_info-encode_meta_info_example =
    read_meta_info-encode_meta_info checksum (codes "u") tiny tiny_meta tiny_bytes tiny-IsInfo
      tiny-Fits (omega arith) tiny_made tiny_encoded (omega arith)

tiny_parsed : parse_info (info_bencoding tiny) ≡ ok tiny
unfolding parse_info info_bencoding find bytes_eq find_string find_int string_of int_of dict_of
    marshal_piece_hashes split_hashes expected_pieces
tiny_parsed = refl

parse_info-eq-ok_iff_example :
    (parse_info (info_bencoding tiny) ≡ ok tiny) ↔ Describes (info_bencoding tiny) tiny
parse_info-eq-ok_iff_example = parse_info-eq-ok_iff (info_bencoding tiny) tiny

tiny_read : read_meta_info checksum tiny_bytes ≡ ok tiny_meta
unfolding read_meta_info decode decode_value decode_bstring decode_binteger all_digits value_from
    read_full out_of_order bytes_lt parse_meta_info parse_info find bytes_eq find_string find_int
    string_of int_of dict_of split_hashes expected_pieces encode encode_integer sort_fields
    write_fields decimal
tiny_read = refl

read_meta_info-IsRead_example : IsRead checksum (take 16777217 tiny_bytes) tiny_meta
read_meta_info-IsRead_example = read_meta_info-IsRead checksum tiny_bytes tiny_meta tiny_read
