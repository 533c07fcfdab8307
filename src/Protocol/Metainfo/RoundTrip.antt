-- ===== src/Protocol/Metainfo/RoundTrip.antt =====
-- protocol/metainfo.go: a metainfo file that is made and encoded is read back.
use mole_swarm.Base.{
  ℕ, ◌+◌, ◌≤◌, ◌<◌, ◌≡◌, refl, ap, ◌∙◌, sym, subst, [], ◌∷◌, arith, length, take, take_all, Result,
  ok, err, ◌>>=◌, Ensures, holds, refused, Ensures-ok, Ensures-bind, Ensures-fail_if,
}
use mole_swarm.Base.Bytes.{Bytes}
use mole_swarm.Base.Int.{IsInt64}
use mole_swarm.Protocol.Bencode.{
  Bencoding, BencodeError, bytes_eq, bytes_lt, find, find_string, string_of, dict_of,
}
use mole_swarm.Protocol.Bencode.Encoder.{encode}
use mole_swarm.Protocol.Bencode.Decoder.{decode, max_bencoded_string_length}
use mole_swarm.Protocol.Bencode.Canonical.{
  IsCanonical, IsAfter, canonical_dict, canonical_str, canonical_integer, sorted_nil, sorted_cons,
}
use mole_swarm.Protocol.Bencode.RoundTrip.{decode-encode}
use mole_swarm.Protocol.Metainfo.{
  Info, MetaInfo, marshal_piece_hashes, info_bencoding, meta_info_bencoding, encode_meta_info,
  parse_meta_info, read_meta_info, max_meta_info_size, hash_info, new_meta_info, lift, is_empty,
  invalid_metainfo,
}
use mole_swarm.Protocol.Metainfo.Pieces.{IsInfo}
use mole_swarm.Protocol.Metainfo.Described.{parse_info-info_bencoding}

-- The fields fit the encoding: integers of `int64` and strings within the codec's limit.
pub record Fits (i : Info) : Type 0 where
  pub len_range : IsInt64 i.len
  pub piece_length_range : IsInt64 i.piece_length
  pub name_limit : length i.name ≤ max_bencoded_string_length
  pub pieces_limit : length (marshal_piece_hashes i.piece_hashes) ≤ max_bencoded_string_length

info_bencoding-IsCanonical : (i : Info) → Fits i → IsCanonical 1 (info_bencoding i)
unfolding info_bencoding IsAfter bytes_lt
info_bencoding-IsCanonical i f = canonical_dict (omega arith) (
    sorted_cons (omega arith) tt (canonical_integer (omega arith) f.len_range) (
      sorted_cons (omega arith) refl (canonical_str (omega arith) f.name_limit) (
        sorted_cons (omega arith) refl (canonical_integer (omega arith) f.piece_length_range) (
          sorted_cons (omega arith) refl (canonical_str (omega arith) f.pieces_limit) sorted_nil))))

meta_info_bencoding-IsCanonical :
    (m : MetaInfo)
    → Fits m.info
    → length m.announce ≤ max_bencoded_string_length
    → IsCanonical 0 (meta_info_bencoding m)
unfolding meta_info_bencoding IsAfter bytes_lt
meta_info_bencoding-IsCanonical m f a = canonical_dict (omega arith) (
    sorted_cons (omega arith) tt (canonical_str (omega arith) a)
      (sorted_cons (omega arith) refl (info_bencoding-IsCanonical m.info f) sorted_nil))

lift-eq-ok : (r : Result BencodeError Bytes) {bs : Bytes} → lift r ≡ ok bs → r ≡ ok bs
lift-eq-ok (ok a) e = ground arith
lift-eq-ok (err f) e = cc

decode_within :
    (n : ℕ) (bs : Bytes) (v : Bencoding)
    → length bs ≤ n
    → decode bs ≡ ok v
    → decode (take n bs) ≡ ok v
decode_within n bs v h e = rw (take_all n bs h) e

module _ (sha1 : Bytes → Bytes) where
  -- The info hash is that of the dictionary which the encoder writes.
  abbrev pub IsHashed : MetaInfo → Type 0
  IsHashed m =
      (encoded : Bytes) × (encode (info_bencoding m.info) ≡ ok encoded)
      × (m.info_hash ≡ sha1 encoded)

  hash_info-Ensures :
      (i : Info)
      → Ensures
          (λ h. (encoded : Bytes) × (encode (info_bencoding i) ≡ ok encoded) × (h ≡ sha1 encoded))
          (hash_info sha1 i)
  unfolding hash_info
  hash_info-Ensures i = split (encode (info_bencoding i)) refl
    where
      split :
          (r : Result BencodeError Bytes)
          → encode (info_bencoding i) ≡ r
          → Ensures
              (λ h.
                (encoded : Bytes) × (encode (info_bencoding i) ≡ ok encoded) × (h ≡ sha1 encoded))
              (lift r >>= λ encoded. ok (sha1 encoded))
      split (ok encoded) e = holds (encoded, e, refl)
      split (err f) e = refused

  new_meta_info-Ensures :
      (announce : Bytes) (i : Info)
      → Ensures
          (λ m. (m.announce ≡ announce) × (m.info ≡ i) × (0 < length announce) × IsHashed m)
          (new_meta_info sha1 announce i)
  unfolding new_meta_info
  new_meta_info-Ensures announce i =
      Ensures-bind (Ensures-fail_if (is_empty announce) invalid_metainfo) λ _ some_byte.
        Ensures-bind (hash_info-Ensures i) λ h hashed. holds (refl, refl, ground arith, hashed)

  parse_meta_info_fields :
      (announce : Bytes) (i : Info) (h encoded : Bytes)
      → IsInfo i
      → 0 < length announce
      → encode (info_bencoding i) ≡ ok encoded
      → h ≡ sha1 encoded
      → parse_meta_info sha1
          (meta_info_bencoding (record { announce = announce; info = i; info_hash = h }))
        ≡ ok (record { announce = announce; info = i; info_hash = h })
  unfolding parse_meta_info meta_info_bencoding dict_of find_string string_of find bytes_eq
  parse_meta_info_fields [] i h encoded v pos_length e hashed = absurd (omega arith)
  parse_meta_info_fields (b ∷ announce) i h encoded v pos_length e hashed =
      rw (parse_info-info_bencoding i v, e, hashed)

  parse_meta_info-meta_info_bencoding :
      (m : MetaInfo)
      → IsInfo m.info
      → 0 < length m.announce
      → IsHashed m
      → parse_meta_info sha1 (meta_info_bencoding m) ≡ ok m
  parse_meta_info-meta_info_bencoding m v a (encoded, e, hashed) =
      parse_meta_info_fields m.announce m.info m.info_hash encoded v a e hashed

  -- A file within the limit is decoded whole.
  read_within :
      (bs : Bytes) (v : Bencoding)
      → length bs ≤ max_meta_info_size + 1
      → decode bs ≡ ok v
      → read_meta_info sha1 bs ≡ parse_meta_info sha1 v
  unfolding read_meta_info
  read_within bs v size e =
      ap (λ x. lift x >>= parse_meta_info sha1) (decode_within (max_meta_info_size + 1) bs v size e)

  -- `ReadMetaInfo` returns what `NewMetaInfo` made from the bytes that `EncodeMetaInfo` writes, if
  -- the description is of one file, its fields fit the encoding and the file keeps the size limit.
  pub read_meta_info-encode_meta_info :
      (announce : Bytes) (i : Info) (m : MetaInfo) (bs : Bytes)
      → IsInfo i
      → Fits i
      → length announce ≤ max_bencoded_string_length
      → new_meta_info sha1 announce i ≡ ok m
      → encode_meta_info m ≡ ok bs
      → length bs ≤ max_meta_info_size + 1
      → read_meta_info sha1 bs ≡ ok m
  unfolding encode_meta_info
  read_meta_info-encode_meta_info announce i m bs v f a made e size =
      let (same_announce, same_info, some_byte, hashed) =
        Ensures-ok (new_meta_info-Ensures announce i) made in
      let written = lift-eq-ok (encode (meta_info_bencoding m)) e in
      let canonical =
        meta_info_bencoding-IsCanonical m (subst Fits (sym same_info) f)
          (subst (λ x. length x ≤ max_bencoded_string_length) (sym same_announce) a) in
      read_within bs (meta_info_bencoding m) size
        (decode-encode (meta_info_bencoding m) bs canonical written)
      ∙ parse_meta_info-meta_info_bencoding m (subst IsInfo (sym same_info) v)
          (subst (λ x. 0 < length x) (sym same_announce) some_byte) hashed
