-- ===== src/Protocol/Metainfo.antt =====
-- protocol/metainfo.go: metainfo files. `sha1.Sum` is the parameter `sha1`. A hash of the arrays
-- `[20]byte` is a byte list, and `int64` fields are integers.
pub mod Pieces
pub mod Described
pub mod Accepts
pub mod RoundTrip
mod Tests
use mole_swarm.Base.{
  ℕ, zero, suc, ◌+◌, ◌-◌, ◌*◌, ◌/◌, ◌%◌, ◌^◌, ◌≡◌, Bool, true, false, not, ◌&&◌, ◌||◌, Option, none,
  some, List, [], ◌∷◌, ◌++◌, ltb, leb, ◌==◌, if◌then◌else◌, length, take, drop, Result, ok, err,
  ◌>>=◌, ◌>>◌, fail_if,
}
use mole_swarm.Base.Bytes.{Bytes, codes}
use mole_swarm.Base.Int.{ℤ, pos, negsuc}
use mole_swarm.Protocol.Bencode.{
  Bencoding, Entries, str, integer, dict, unset, no_entries, entry, BencodeError, bytes_eq, dict_of,
  find, find_string, find_int,
}
use mole_swarm.Protocol.Bencode.Encoder.{encode}
use mole_swarm.Protocol.Bencode.Decoder.{decode}

pub record Info : Type 0 where
  pub name : Bytes
  pub len : ℤ
  pub piece_length : ℤ
  pub piece_hashes : List Bytes

pub record MetaInfo : Type 0 where
  pub announce : Bytes
  pub info : Info
  pub info_hash : Bytes

pub data MetaError : Type 0 where
  invalid_metainfo not_a_dictionary multi_file bad_piece_length bad_pieces : MetaError
  bad_length bad_name wrong_piece_count : MetaError
  bencode : BencodeError → MetaError

abbrev pub key_announce : Bytes
key_announce = codes "announce"

abbrev pub key_info : Bytes
key_info = codes "info"

abbrev pub key_files : Bytes
key_files = codes "files"

abbrev pub key_length : Bytes
key_length = codes "length"

abbrev pub key_name : Bytes
key_name = codes "name"

abbrev pub key_piece_length : Bytes
key_piece_length = codes "piece length"

abbrev pub key_pieces : Bytes
key_pieces = codes "pieces"

abbrev pub hash_size : ℕ
hash_size = 20

abbrev pub max_meta_info_size : ℕ
max_meta_info_size = 16 * 2 ^ 20

abbrev pub is_empty : Bytes → Bool
is_empty s = length s == 0

-- An error of the codec, passed on.
abbrev pub lift {ℓ} : {A : Type ℓ} → Result BencodeError A → Result MetaError A
lift (ok a) = ok a
lift (err e) = err (bencode e)

unfoldable pub validate_announce_url : Bytes → Result MetaError (Unit {0})
validate_announce_url announce = fail_if (is_empty announce) invalid_metainfo

unfoldable pub marshal_piece_hashes : List Bytes → Bytes
marshal_piece_hashes [] = []
marshal_piece_hashes (h ∷ hs) = h ++ marshal_piece_hashes hs

-- The keys of the map literal stand in their order.
unfoldable pub info_bencoding : Info → Bencoding
info_bencoding i = dict (
    entry key_length (integer i.len) (
      entry key_name (str i.name) (
        entry key_piece_length (integer i.piece_length)
          (entry key_pieces (str (marshal_piece_hashes i.piece_hashes)) no_entries))))

unfoldable pub meta_info_bencoding : MetaInfo → Bencoding
meta_info_bencoding m =
    dict (entry key_announce (str m.announce) (entry key_info (info_bencoding m.info) no_entries))

unfoldable pub encode_meta_info : MetaInfo → Result MetaError Bytes
encode_meta_info m = lift (encode (meta_info_bencoding m))

-- The loop over `piecesConcat`, twenty bytes a round; the fuel is the length of the text.
unfoldable pub split_hashes : ℕ → Bytes → List Bytes
split_hashes zero bs = []
split_hashes (suc f) [] = []
split_hashes (suc f) (b ∷ bs) = take hash_size (b ∷ bs) ∷ split_hashes f (drop hash_size (b ∷ bs))

-- `(length-1)/pieceLength + 1`, or 0 pieces of nothing.
unfoldable pub expected_pieces : ℕ → ℕ → ℕ
expected_pieces len piece_length = if ltb 0 len then (len - 1) / piece_length + 1 else 0

abbrev pub positive : Option ℤ → Option ℕ
positive (some (pos (suc n))) = some (suc n)
positive _ = none

abbrev pub non_negative : Option ℤ → Option ℕ
non_negative (some (pos n)) = some n
non_negative _ = none

abbrev pub non_empty : Option Bytes → Option Bytes
non_empty (some (b ∷ bs)) = some (b ∷ bs)
non_empty _ = none

abbrev pub whole_hashes : Option Bytes → Option Bytes
whole_hashes none = none
whole_hashes (some s) = if length s % hash_size == 0 then some s else none

abbrev pub is_present : Option Bencoding → Bool
is_present none = false
is_present (some v) = true

abbrev pub or_fail {ℓ} : {A : Type ℓ} → Option A → MetaError → Result MetaError A
or_fail none e = err e
or_fail (some a) e = ok a

unfoldable pub parse_info_dict : Entries → Result MetaError Info
parse_info_dict d =
    fail_if (is_present (find key_files d)) multi_file
    >> (or_fail (positive (find_int key_piece_length d)) bad_piece_length >>= λ piece_length.
        or_fail (whole_hashes (find_string key_pieces d)) bad_pieces >>= λ pieces_concat.
        or_fail (non_negative (find_int key_length d)) bad_length >>= λ len.
        or_fail (non_empty (find_string key_name d)) bad_name >>= λ name.
        let pieces = split_hashes (length pieces_concat) pieces_concat in
        fail_if (not (length pieces == expected_pieces len piece_length)) wrong_piece_count
        >> ok (record {
          name = name;
          len = pos len;
          piece_length = pos piece_length;
          piece_hashes = pieces;
        }))

unfoldable pub parse_info : Bencoding → Result MetaError Info
unfolding parse_info_dict
parse_info v = or_fail (dict_of v) not_a_dictionary >>= parse_info_dict

-- An index expression on the map, with the zero struct for a missing key.
abbrev pub or_unset : Option Bencoding → Bencoding
or_unset none = unset
or_unset (some v) = v

module _ (sha1 : Bytes → Bytes) where
  unfoldable pub hash_info : Info → Result MetaError Bytes
  hash_info i = lift (encode (info_bencoding i)) >>= λ encoded. ok (sha1 encoded)

  unfoldable pub new_meta_info : Bytes → Info → Result MetaError MetaInfo
  unfolding hash_info
  new_meta_info announce info =
      fail_if (is_empty announce) invalid_metainfo
      >> (hash_info info >>= λ info_hash.
          ok (record { announce = announce; info = info; info_hash = info_hash }))

  unfoldable pub parse_meta_info_dict : Entries → Result MetaError MetaInfo
  parse_meta_info_dict d =
      or_fail (non_empty (find_string key_announce d)) invalid_metainfo >>= λ announce.
      let info_value = or_unset (find key_info d) in
      parse_info info_value >>= λ info. lift (encode info_value) >>= λ encoded_info.
      ok (record { announce = announce; info = info; info_hash = sha1 encoded_info })

  unfoldable pub parse_meta_info : Bencoding → Result MetaError MetaInfo
  unfolding parse_meta_info_dict
  parse_meta_info v = or_fail (dict_of v) invalid_metainfo >>= parse_meta_info_dict

  -- `io.LimitReader` ends the stream after one byte more than the limit.
  unfoldable pub read_meta_info : Bytes → Result MetaError MetaInfo
  read_meta_info bs = lift (decode (take (max_meta_info_size + 1) bs)) >>= parse_meta_info

  unfoldable pub hash_piece : Bytes → Bytes
  hash_piece contents = sha1 contents

  unfoldable pub verify_piece : Bytes → Bytes → Bool
  unfolding hash_piece
  verify_piece contents expected = bytes_eq (hash_piece contents) expected
