-- ===== src/Protocol/Metainfo/Described.antt =====
-- protocol/metainfo.go: which dictionaries `ParseInfo` accepts, and as what.
use mole_swarm.Base.{
  ℕ, zero, suc, ◌%◌, ◌<◌, ◌≡◌, ◌↔◌, refl, ap, ◌∙◌, sym, subst, not, Option, none, some, [], ◌∷◌,
  arith, ◌==◌, length, List, All, ok, Ensures, holds, refused, Ensures-bind, Ensures-fail_if,
  Ensures-ok, Ensures-intro, Option-cases, inl, inr, false,
}
use mole_swarm.Base.Bytes.{Bytes, codes}
use mole_swarm.Base.Int.{ℤ, pos, negsuc}
use mole_swarm.Protocol.Bencode.{
  Bencoding, Entries, bytes_eq, str, integer, dict, find, find_string, find_int, string_of, int_of,
  dict_of,
}
use mole_swarm.Protocol.Metainfo.{
  Info, MetaError, hash_size, split_hashes, expected_pieces, info_bencoding, parse_info,
  parse_info_dict, positive, non_negative, non_empty, whole_hashes, or_fail, is_present, key_files,
  key_length, key_name, key_piece_length, key_pieces, marshal_piece_hashes, multi_file,
  wrong_piece_count,
}
use mole_swarm.Protocol.Metainfo.Pieces.{
  IsHash, IsInfo, length-marshal, split_hashes-marshal, marshal-split_hashes,
}

-- The entries say that there is one file, and hold the fields of `i` under their keys.
pub record Lists (d : Entries) (i : Info) : Type 0 where
  pub one_file : find (codes "files") d ≡ none
  pub name_entry : find (codes "name") d ≡ some (str i.name)
  pub len_entry : find (codes "length") d ≡ some (integer i.len)
  pub piece_length_entry : find (codes "piece length") d ≡ some (integer i.piece_length)
  pub pieces_entry : find (codes "pieces") d ≡ some (str (marshal_piece_hashes i.piece_hashes))

-- The value is a dictionary with the fields of `i`, which describe a file: its name, its length, a
-- positive piece length, and as many hashes of twenty bytes as the length needs.
pub record Describes (v : Bencoding) (i : Info) : Type 0 where
  pub entries : Entries
  pub is_dict : v ≡ dict entries
  pub lists : Lists entries i
  pub valid : IsInfo i

pub or_fail-Ensures {ℓ} :
    {A : Type ℓ} (o : Option A) (e : MetaError) → Ensures (λ a. o ≡ some a) (or_fail o e)
or_fail-Ensures none e = refused
or_fail-Ensures (some a) e = holds refl

pub dict_of-eq-some : (v : Bencoding) (d : Entries) → dict_of v ≡ some d → v ≡ dict d
unfolding dict_of
dict_of-eq-some (dict es) d e = ground arith
dict_of-eq-some _ d e = cc

string_of-eq-some : (v : Bencoding) (s : Bytes) → string_of v ≡ some s → v ≡ str s
unfolding string_of
string_of-eq-some (str t) s e = ground arith
string_of-eq-some _ s e = cc

int_of-eq-some : (v : Bencoding) (n : ℤ) → int_of v ≡ some n → v ≡ integer n
unfolding int_of
int_of-eq-some (integer m) n e = ground arith
int_of-eq-some _ n e = cc

find_string-eq-some :
    (k : Bytes) (d : Entries) (s : Bytes) → find_string k d ≡ some s → find k d ≡ some (str s)
unfolding find_string
find_string-eq-some k d s e = elim (Option-cases (find k d)) [
  | inl absent ↦ absurd (ground (arith, e, absent))
  | inr (v, found) ↦ found ∙ ap some (string_of-eq-some v s (ground (arith, e, found)))
]

find_int-eq-some :
    (k : Bytes) (d : Entries) (n : ℤ) → find_int k d ≡ some n → find k d ≡ some (integer n)
unfolding find_int
find_int-eq-some k d n e = elim (Option-cases (find k d)) [
  | inl absent ↦ absurd (ground (arith, e, absent))
  | inr (v, found) ↦ found ∙ ap some (int_of-eq-some v n (ground (arith, e, found)))
]

positive-eq-some : (o : Option ℤ) (n : ℕ) → positive o ≡ some n → (o ≡ some (pos n)) × (0 < n)
positive-eq-some none n e = cc
positive-eq-some (some (pos zero)) n e = cc
positive-eq-some (some (pos (suc k))) n e = (ground arith, ground arith)
positive-eq-some (some (negsuc k)) n e = cc

non_negative-eq-some : (o : Option ℤ) (n : ℕ) → non_negative o ≡ some n → o ≡ some (pos n)
non_negative-eq-some none n e = cc
non_negative-eq-some (some (pos k)) n e = ground arith
non_negative-eq-some (some (negsuc k)) n e = cc

pub non_empty-eq-some :
    (o : Option Bytes) (s : Bytes) → non_empty o ≡ some s → (o ≡ some s) × (0 < length s)
non_empty-eq-some none s e = cc
non_empty-eq-some (some []) s e = cc
non_empty-eq-some (some (b ∷ bs)) s e = (e, ground arith)

whole_hashes-eq-some :
    (o : Option Bytes) (s : Bytes)
    → whole_hashes o ≡ some s
    → (o ≡ some s) × (length s % hash_size ≡ 0)
whole_hashes-eq-some none s e = cc
whole_hashes-eq-some (some bs) s e = ground arith

is_present-eq-false : (o : Option Bencoding) → is_present o ≡ false → o ≡ none
is_present-eq-false none e = refl
is_present-eq-false (some v) e = cc

parse_info_dict-Ensures : (d : Entries) → Ensures (λ i. Lists d i × IsInfo i) (parse_info_dict d)
unfolding parse_info_dict
parse_info_dict-Ensures d =
    Ensures-bind (Ensures-fail_if (is_present (find key_files d)) multi_file) λ _ single.
      Ensures-bind (or_fail-Ensures (positive (find_int key_piece_length d)) _) λ size p.
        Ensures-bind (or_fail-Ensures (whole_hashes (find_string key_pieces d)) _) λ s w.
          Ensures-bind (or_fail-Ensures (non_negative (find_int key_length d)) _) λ total t.
            Ensures-bind (or_fail-Ensures (non_empty (find_string key_name d)) _) λ name n.
              Ensures-bind
                (Ensures-fail_if
                  (not (length (split_hashes (length s) s) == expected_pieces total size))
                  wrong_piece_count)
                λ _ c.
                  let (pieces_found, whole) = whole_hashes-eq-some (find_string key_pieces d) s w in
                  let (size_found, size_pos) =
                    positive-eq-some (find_int key_piece_length d) size p in
                  let (name_found, name_pos) = non_empty-eq-some (find_string key_name d) name n in
                  let (hashes, joined) = marshal-split_hashes (length s) s whole (omega arith) in
                  holds (
                    record {
                      one_file = is_present-eq-false (find key_files d) single;
                      name_entry = find_string-eq-some key_name d name name_found;
                      len_entry =
                          find_int-eq-some key_length d (pos total)
                            (non_negative-eq-some (find_int key_length d) total t);
                      piece_length_entry =
                          find_int-eq-some key_piece_length d (pos size) size_found;
                      pieces_entry =
                          find_string-eq-some key_pieces d s pieces_found
                          ∙ ap (λ bytes. some (str bytes)) (sym joined);
                    },
                    record {
                      total = total;
                      size = size;
                      len_eq = refl;
                      size_eq = refl;
                      size_pos = size_pos;
                      name_pos = name_pos;
                      hashes = hashes;
                      count = ground (arith, c);
                    },
                  )

parse_info-Describes : (v : Bencoding) (i : Info) → parse_info v ≡ ok i → Describes v i
unfolding parse_info
parse_info-Describes v i e =
    Ensures-ok {P = Describes v}
      (Ensures-bind (or_fail-Ensures (dict_of v) _) λ d found.
        Ensures-intro (parse_info_dict d) λ info parsed.
          let (lists, valid) = Ensures-ok (parse_info_dict-Ensures d) parsed in
          record { entries = d; is_dict = dict_of-eq-some v d found; lists = lists; valid = valid })
      e

parse_entries :
    (d : Entries) (name : Bytes) (total size : ℕ) (hs : List Bytes)
    → Lists d (record { name = name; len = pos total; piece_length = pos size; piece_hashes = hs })
    → 0 < size
    → 0 < length name
    → All IsHash hs
    → length hs ≡ expected_pieces total size
    → parse_info_dict d
      ≡ ok (record { name = name; len = pos total; piece_length = pos size; piece_hashes = hs })
unfolding parse_info_dict find_string find_int string_of int_of
parse_entries d [] total size hs l p q h c = absurd (omega arith)
parse_entries d name total zero hs l p q h c = absurd (omega arith)
parse_entries d (b ∷ name) total (suc size) hs l p q h c =
    let bytes = length-marshal hs h in
    let whole : length (marshal_piece_hashes hs) % hash_size ≡ 0 = omega arith in
    rw (l.one_file, l.piece_length_entry, l.pieces_entry, l.len_entry, l.name_entry, whole)
      (rw (split_hashes-marshal (length (marshal_piece_hashes hs)) hs h (omega arith), c)
        (ground arith))

Lists-parsed : (d : Entries) (i : Info) (v : IsInfo i) → Lists d i → parse_info_dict d ≡ ok i
Lists-parsed d i v l =
    let same : ◌≡◌ {A = Info}
        (record {
          name = i.name;
          len = pos v.total;
          piece_length = pos v.size;
          piece_hashes = i.piece_hashes;
        })
        i =
      λ k. record {
        name = i.name;
        len = sym v.len_eq k;
        piece_length = sym v.size_eq k;
        piece_hashes = i.piece_hashes;
      } in
    parse_entries d i.name v.total v.size i.piece_hashes (subst (Lists d) (sym same) l) v.size_pos
      v.name_pos v.hashes v.count
    ∙ ap ok same

Describes-parsed : (v : Bencoding) (i : Info) → Describes v i → parse_info v ≡ ok i
unfolding parse_info dict_of
Describes-parsed v i s = rw (s.is_dict) (Lists-parsed s.entries i s.valid s.lists)

-- `ParseInfo` reads back the dictionary of every description of a file.
pub parse_info-info_bencoding : (i : Info) → IsInfo i → parse_info (info_bencoding i) ≡ ok i
unfolding info_bencoding find bytes_eq
parse_info-info_bencoding i v = Describes-parsed (info_bencoding i) i (record {
  entries = _;
  is_dict = refl;
  lists = record {
    one_file = refl;
    name_entry = refl;
    len_entry = refl;
    piece_length_entry = refl;
    pieces_entry = refl;
  };
  valid = v;
})

-- A value is accepted as an info dictionary exactly if it is a dictionary without the key of the
-- files, which holds under the keys of the name, the length, the piece length and the pieces those of
-- the result, with a name that is not empty, a length that is not negative, a positive piece length
-- and as many hashes of twenty bytes as the length needs.
pub parse_info-eq-ok_iff : (v : Bencoding) (i : Info) → (parse_info v ≡ ok i) ↔ Describes v i
parse_info-eq-ok_iff v i = (parse_info-Describes v i, Describes-parsed v i)
