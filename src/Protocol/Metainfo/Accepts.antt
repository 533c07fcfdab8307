-- ===== src/Protocol/Metainfo/Accepts.antt =====
-- protocol/metainfo.go: what `ParseInfo` and `ReadMetaInfo` accept.
use mole_swarm.Base.{
  ℕ, ◌+◌, ◌<◌, ◌≡◌, refl, ◌∙◌, sym, subst, Option, none, some, [], ◌∷◌, ◌++◌, arith, length, take,
  append_assoc, Result, ok, err, Ensures, holds, refused, Ensures-bind, Ensures-ok, Ensures-intro,
  Bool-cases, inl, inr,
}
use mole_swarm.Base.Bytes.{Bytes}
use mole_swarm.Protocol.Bencode.{
  Bencoding, Entries, dict, no_entries, entry, BencodeError, bytes_eq, find, find_string, dict_of,
}
use mole_swarm.Protocol.Bencode.Encoder.{encode, encode_string}
use mole_swarm.Protocol.Bencode.Decoder.{decode}
use mole_swarm.Protocol.Bencode.Canonical.{
  IsCanonical, AreSorted, canonical_dict, sorted_cons, print, print_entries, encode-print,
}
use mole_swarm.Protocol.Bencode.Sound.{encode-decode}
use mole_swarm.Protocol.Metainfo.{
  Info, MetaInfo, parse_info, non_empty, key_announce, key_info, lift, or_unset, parse_meta_info,
  read_meta_info, max_meta_info_size,
}
use mole_swarm.Protocol.Metainfo.Described.{
  Describes, or_fail-Ensures, dict_of-eq-some, non_empty-eq-some, parse_info-eq-ok_iff,
}

-- The value of a key stands in the printed entries.
print_entries-find :
    (k : Bytes) (es : Entries) (v : Bencoding)
    → find k es ≡ some v
    → (front : Bytes) × (back : Bytes) × (print_entries es ≡ front ++ (print v ++ back))
unfolding find print
print_entries-find k no_entries v e = cc
print_entries-find k (entry j w es) v e = elim (Bool-cases (bytes_eq j k)) [
  | inl here ↦ (encode_string j, print_entries es, ground arith)
  | inr later ↦
      let (front, back, split) = print_entries-find k es v (ground arith) in
      (encode_string j ++ (print w ++ front), back, rw split (simp append_assoc))
]

find-IsCanonical :
    {d : ℕ} {previous : Option Bytes} (k : Bytes) (es : Entries) (v : Bencoding)
    → AreSorted d previous es
    → find k es ≡ some v
    → IsCanonical d v
unfolding find
find-IsCanonical k no_entries v s e = cc
find-IsCanonical {d} k (entry j w es) v (sorted_cons _ _ c s) e = elim (Bool-cases (bytes_eq j k)) [
  | inl here ↦ let same : w ≡ v = ground arith in subst (IsCanonical d) same c
  | inr later ↦ find-IsCanonical k es v s (ground arith)
]

lift-Ensures {ℓ} : {A : Type ℓ} (r : Result BencodeError A) → Ensures (λ a. r ≡ ok a) (lift r)
lift-Ensures (ok a) = holds refl
lift-Ensures (err e) = refused

parse_info-or_unset :
    (o : Option Bencoding) (i : Info)
    → parse_info (or_unset o) ≡ ok i
    → (v : Bencoding) × (o ≡ some v) × (parse_info v ≡ ok i)
parse_info-or_unset none i e = unfold parse_info dict_of in cc
parse_info-or_unset (some v) i e = (v, refl, e)

-- The bytes `bs` hold a run `body` that decodes to the info dictionary of `m`, and the info hash of
-- `m` is the hash of that run.
pub record IsRead (sha1 : Bytes → Bytes) (bs : Bytes) (m : MetaInfo) : Type 0 where
  pub front : Bytes
  pub body : Bytes
  pub back : Bytes
  pub value : Bencoding
  pub split : bs ≡ front ++ (body ++ back)
  pub encoded : encode value ≡ ok body
  pub parsed : parse_info value ≡ ok m.info
  pub hashed : m.info_hash ≡ sha1 body
  pub described : Describes value m.info
  pub announced : 0 < length m.announce

module _ (sha1 : Bytes → Bytes) where
  -- The entry of the key `info`, once it is known to be there.
  IsRead-found :
      (bs announce encoded : Bytes) (d : Entries) (v : Bencoding) (info : Info)
      → IsCanonical 0 (dict d)
      → print (dict d) ≡ bs
      → 0 < length announce
      → find key_info d ≡ some v
      → parse_info v ≡ ok info
      → encode v ≡ ok encoded
      → IsRead sha1 bs (record { announce = announce; info = info; info_hash = sha1 encoded })
  unfolding print
  IsRead-found bs announce encoded d v info (canonical_dict _ sorted) whole a found parsed made =
      let (front, back, cut) = print_entries-find key_info d v found in
      let same : print v ≡ encoded =
        cc (encode-print (find-IsCanonical key_info d v sorted found)) in
      record {
        front = b'd' ∷ front;
        body = encoded;
        back = back ++ b'e' ∷ [];
        value = v;
        split = sym whole ∙ rw (cut, same) (simp append_assoc);
        encoded = made;
        parsed = parsed;
        hashed = refl;
        described = (parse_info-eq-ok_iff v info).0 parsed;
        announced = a;
      }

  parse_meta_info-Ensures :
      (bs : Bytes) (v : Bencoding)
      → IsCanonical 0 v
      → encode v ≡ ok bs
      → Ensures (IsRead sha1 bs) (parse_meta_info sha1 v)
  unfolding parse_meta_info
  parse_meta_info-Ensures bs v c e = Ensures-bind (or_fail-Ensures (dict_of v) _) λ d is_dict.
      Ensures-bind (or_fail-Ensures (non_empty (find_string key_announce d)) _) λ announce a.
        let same = dict_of-eq-some v d is_dict in
        let canonical = subst (IsCanonical 0) same c in
        let whole : print (dict d) ≡ bs = cc (encode-print canonical, e, same) in
        Ensures-bind
          (Ensures-intro (parse_info (or_unset (find key_info d)))
            (λ info p. parse_info-or_unset (find key_info d) info p))
          λ info (w, found, parsed).
            Ensures-bind (lift-Ensures (encode (or_unset (find key_info d)))) λ encoded made.
              holds (
                IsRead-found bs announce encoded d w info canonical whole
                  ((non_empty-eq-some (find_string key_announce d) announce a).1) found parsed
                  (rw found at made))

  -- The info hash of a file that is read is the hash of the info dictionary's bytes as they stand
  -- in the file, unknown keys included; the dictionary describes one file, and the tracker's
  -- address is not empty. At most one byte beyond the size limit is looked at.
  pub read_meta_info-IsRead :
      (bs : Bytes) (m : MetaInfo)
      → read_meta_info sha1 bs ≡ ok m
      → IsRead sha1 (take (max_meta_info_size + 1) bs) m
  unfolding read_meta_info
  read_meta_info-IsRead bs m e =
      Ensures-ok
        (Ensures-bind (lift-Ensures (decode (take (max_meta_info_size + 1) bs))) λ v decoded.
          let (c, made) = encode-decode (take (max_meta_info_size + 1) bs) v decoded in
          parse_meta_info-Ensures (take (max_meta_info_size + 1) bs) v c made)
        e
