-- ===== src/Torrent/FileStorage/Verified.antt =====
-- torrent/file.go: what a storage calls complete has the hash that the metainfo lists.
use mole_swarm.Base.{
  ℕ, zero, suc, ◌+◌, ◌*◌, ◌%◌, ◌^◌, ◌<◌, ◌≡◌, refl, subst, true, false, not, Option, some, List, [],
  ◌∷◌, arith, ◌==◌, length, get_elem?, replicate, get_elem?-replicate, length-replicate,
  Option-cases, inl, inr, ok, ok-injective, >>=-eq-ok, Ensures-ok, Ensures-intro, anything,
  Ensures-bind, Ensures-fail_if,
}
use mole_swarm.Base.Bytes.{Bytes}
use mole_swarm.Protocol.Metainfo.{Info, verify_piece}
use mole_swarm.Torrent.Piece.{
  Piece, new_piece, is_complete, read_failed, file_not_open, negative_length, bad_piece_length,
  zero_block_length, wrong_piece_count, bytes_of,
}
use mole_swarm.Torrent.FileStorage.{
  Disk, FileStorage, nat_of, is_negative, fits_wire, expected_count, or_fail, length_from, piece_at,
  piece_offset, piece_length,
}
use mole_swarm.Torrent.FileStorage.Content.{
  recheck_piece, recheck_pieces, recheck, new_file_storage,
}

-- The file has the bytes of a piece, with the hash that is listed for it.
pub record IsAvailable (sha1 : Bytes → Bytes) (disk : Disk) (file : disk.File) (info : Info)
    (index : ℕ) : Type 0 where
  pub len : ℕ
  pub content : Bytes
  pub has_length :
      length_from (nat_of info.len) (nat_of info.piece_length) (index * nat_of info.piece_length)
      ≡ ok len
  pub stored : disk.read_at file (index * nat_of info.piece_length) len ≡ some content
  pub full : length content ≡ len
  pub has_hash : verify_piece sha1 content (bytes_of (get_elem? info.piece_hashes index)) ≡ true

abbrev pub IsVerified : (sha1 : Bytes → Bytes) {disk : Disk} → FileStorage disk → Type 0
IsVerified sha1 {disk} fs =
    (i : ℕ) (p : Piece)
    → get_elem? fs.pieces i ≡ some p
    → is_complete p ≡ true
    → IsAvailable sha1 disk fs.file fs.info i

new_piece-is_complete :
    (n k : ℕ) (p : Piece) → get_elem? (replicate n new_piece) k ≡ some p → is_complete p ≡ false
unfolding is_complete
new_piece-is_complete n k p e = cc (get_elem?-replicate n k new_piece e)

module _ (sha1 : Bytes → Bytes) {disk : Disk} where
  pub piece_offset-eq-ok :
      (fs : FileStorage disk) (i offset : ℕ)
      → piece_offset fs i ≡ ok offset
      → offset ≡ i * nat_of fs.info.piece_length
  unfolding piece_offset
  piece_offset-eq-ok fs i offset e = elim (Option-cases (piece_at fs i)) [
    | inl absent ↦ cc (absent, e)
    | inr (p, present) ↦ cc (present, e)
  ]

  pub piece_length-eq-ok :
      (fs : FileStorage disk) (i len : ℕ)
      → piece_length fs i ≡ ok len
      → length_from
          (nat_of fs.info.len)
          (nat_of fs.info.piece_length)
          (i * nat_of fs.info.piece_length)
        ≡ ok len
  unfolding piece_length
  piece_length-eq-ok fs i len e =
      let (offset, found, rest) = >>=-eq-ok (piece_offset fs i) _ e in
      subst (λ o. length_from (nat_of fs.info.len) (nat_of fs.info.piece_length) o ≡ ok len)
        (piece_offset-eq-ok fs i offset found) rest

  recheck_piece-read :
      (fs : FileStorage disk) (existing i offset len : ℕ) (p q : Piece) (bytes : Bytes)
      → disk.read_at fs.file offset len ≡ some bytes
      → recheck_piece sha1 fs existing i offset len p ≡ ok q
      → is_complete p ≡ false
      → is_complete q ≡ true
      → (length bytes ≡ len)
        × (verify_piece sha1 bytes (bytes_of (get_elem? fs.info.piece_hashes i)) ≡ true)
  unfolding recheck_piece
  recheck_piece-read fs existing i offset len p q bytes present e before after = ground arith

  recheck_piece-IsAvailable :
      (fs : FileStorage disk) (existing i len : ℕ) (p q : Piece)
      → piece_length fs i ≡ ok len
      → recheck_piece sha1 fs existing i (i * nat_of fs.info.piece_length) len p ≡ ok q
      → is_complete p ≡ false
      → is_complete q ≡ true
      → IsAvailable sha1 disk fs.file fs.info i
  unfolding recheck_piece
  recheck_piece-IsAvailable fs existing i len p q size e before after =
      elim (Option-cases (disk.read_at fs.file (i * nat_of fs.info.piece_length) len)) [
        | inl absent ↦ absurd (ground (arith, absent))
        | inr (bytes, present) ↦
            let checked =
              recheck_piece-read fs existing i (i * nat_of fs.info.piece_length) len p q bytes
                present e before after in
            record {
              len = len;
              content = bytes;
              has_length = piece_length-eq-ok fs i len size;
              stored = present;
              full = checked.0;
              has_hash = checked.1;
            }
      ]

  -- What is available in the list of pieces from `i` on.
  abbrev AllAvailable : FileStorage disk → ℕ → List Piece → Type 0
  AllAvailable fs i qs =
      (k : ℕ) (q : Piece)
      → get_elem? qs k ≡ some q
      → is_complete q ≡ true
      → IsAvailable sha1 disk fs.file fs.info (i + k)

  AllAvailable-cons :
      (fs : FileStorage disk) (existing i offset len : ℕ) (p q : Piece) (rest : List Piece)
      → i < 2 ^ 32
      → piece_offset fs (i % 2 ^ 32) ≡ ok offset
      → piece_length fs (i % 2 ^ 32) ≡ ok len
      → recheck_piece sha1 fs existing i offset len p ≡ ok q
      → is_complete p ≡ false
      → AllAvailable fs (i + 1) rest
      → AllAvailable fs i (q ∷ rest)
  AllAvailable-cons fs existing i offset len p q rest lt at_offset size checked before tail zero r
        found done =
      let index : i % 2 ^ 32 ≡ i = omega arith in
      let place = piece_offset-eq-ok fs (i % 2 ^ 32) offset at_offset in
      subst (IsAvailable sha1 disk fs.file fs.info) (omega arith) (
        recheck_piece-IsAvailable fs existing i len p q
          (subst (λ n. piece_length fs n ≡ ok len) index size)
          (subst (λ o. recheck_piece sha1 fs existing i o len p ≡ ok q) (cc (place, index)) checked)
          before (cc (found, done)))
  AllAvailable-cons fs existing i offset len p q rest lt at_offset size checked before tail (suc k)
        r found done =
      subst (IsAvailable sha1 disk fs.file fs.info) (omega arith) (tail k r found done)

  recheck_pieces-IsAvailable :
      (fs : FileStorage disk) (existing i : ℕ) (ps qs : List Piece)
      → recheck_pieces sha1 fs existing i ps ≡ ok qs
      → i + length ps < 2 ^ 32
      → ((k : ℕ) (p : Piece) → get_elem? ps k ≡ some p → is_complete p ≡ false)
      → AllAvailable fs i qs
  unfolding recheck_pieces
  recheck_pieces-IsAvailable fs existing i [] [] e lt fresh = λ k q found done. cc
  recheck_pieces-IsAvailable fs existing i [] (r ∷ qs) e lt fresh = λ k q found done. cc
  recheck_pieces-IsAvailable fs existing i (p ∷ ps) qs e lt fresh =
      let (offset, at_offset, e1) = >>=-eq-ok (piece_offset fs (i % 2 ^ 32)) _ e in
      let (len, size, e2) = >>=-eq-ok (piece_length fs (i % 2 ^ 32)) _ e1 in
      let (q, checked, e3) = >>=-eq-ok (recheck_piece sha1 fs existing i offset len p) _ e2 in
      let (rest, tail, e4) = >>=-eq-ok (recheck_pieces sha1 fs existing (i + 1) ps) _ e3 in
      subst (AllAvailable fs i) (ok-injective e4) (
        AllAvailable-cons fs existing i offset len p q rest (omega (arith, lt)) at_offset size
          checked (fresh 0 p refl)
          (recheck_pieces-IsAvailable fs existing (i + 1) ps rest tail (omega (arith, lt))
            λ k. fresh (suc k)))

  recheck-IsVerified :
      (fs out : FileStorage disk) (existing : ℕ)
      → recheck sha1 fs existing ≡ ok out
      → length fs.pieces < 2 ^ 32
      → ((k : ℕ) (p : Piece) → get_elem? fs.pieces k ≡ some p → is_complete p ≡ false)
      → IsVerified sha1 out
  unfolding recheck
  recheck-IsVerified fs out existing e lt fresh i p found done =
      let (qs, listed, made) = >>=-eq-ok (recheck_pieces sha1 fs existing 0 fs.pieces) _ e in
      subst (IsVerified sha1) (ok-injective made) (whole qs listed) i p found done
    where
      whole :
          (qs : List Piece)
          → recheck_pieces sha1 fs existing 0 fs.pieces ≡ ok qs
          → IsVerified sha1 (record fs { pieces = qs })
      whole qs listed k q at_k ready = subst (IsAvailable sha1 disk fs.file fs.info) (omega arith) (
          recheck_pieces-IsAvailable fs existing 0 fs.pieces qs listed (omega (arith, lt)) fresh k q
            at_k ready)

  -- A storage that is opened calls a piece complete only if the file has bytes for it with the hash
  -- that the metainfo lists, for fewer than 2^32 pieces.
  pub new_file_storage-IsVerified :
      (opened : Option disk.File) (info : Info) (block_length : ℕ) (fs : FileStorage disk)
      → length info.piece_hashes < 2 ^ 32
      → new_file_storage sha1 opened info block_length ≡ ok fs
      → IsVerified sha1 fs
  unfolding new_file_storage
  new_file_storage-IsVerified opened info block_length fs lt e =
      Ensures-ok {P = λ out. IsVerified sha1 out}
        (Ensures-bind (anything (or_fail opened file_not_open)) λ file u.
          Ensures-bind (Ensures-fail_if (is_negative info.len) negative_length) λ u non_negative.
            Ensures-bind (Ensures-fail_if (not (fits_wire info.piece_length)) bad_piece_length)
              λ u wire.
                Ensures-bind (Ensures-fail_if (block_length == 0) zero_block_length) λ u blocks.
                  Ensures-bind
                    (Ensures-fail_if
                      (not (
                        length info.piece_hashes
                        == expected_count (nat_of info.len) (nat_of info.piece_length)))
                      wrong_piece_count)
                    λ u counted.
                      Ensures-bind (anything (or_fail (disk.size file) read_failed)) λ existing u.
                        Ensures-intro _ λ out made.
                          recheck-IsVerified
                            (record {
                              file = file;
                              info = info;
                              block_length = block_length;
                              pieces =
                                  replicate
                                    (expected_count (nat_of info.len) (nat_of info.piece_length))
                                    new_piece;
                            })
                            out existing made
                            (ground (
                              arith,
                              length-replicate
                                  (expected_count (nat_of info.len) (nat_of info.piece_length))
                                  new_piece,
                            ))
                            (new_piece-is_complete
                              (expected_count (nat_of info.len) (nat_of info.piece_length))))
        e
