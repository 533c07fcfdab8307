-- ===== src/Torrent/Session/Crash.antt =====
-- torrent/pieces.go: the operations of `PieceSet` on a piece that is there never panic.
use mole_swarm.Base.{
  ℕ, ◌+◌, ◌*◌, ◌%◌, ◌^◌, ◌<◌, ◌-◌, ◌≡◌, refl, subst, sym, Bool, true, false, not, Option, none,
  some, List, [], ◌∷◌, arith, ltb, leb, ◌==◌, if◌then◌else◌, length, get_elem?, get_elem?-lt,
  Bool-cases, Option-cases, Result-cases, inl, inr, Result, ok, err, ◌>>=◌, fail_if,
}
use mole_swarm.Base.Bytes.{Bytes}
use mole_swarm.Protocol.Message.{BlockRequest}
use mole_swarm.Torrent.Piece.{
  TorrentError, is_nil, bytes_of, index_panic, invalid_block, file_not_open, piece_unavailable,
  read_failed, unexpected_eof,
}
use mole_swarm.Torrent.FileStorage.{Disk, or_fail, same_request, length_from}
use mole_swarm.Torrent.PieceSet.{
  PieceData, PieceSet, block_size, request_length, all_blocks_received, piece_length, piece_offset,
  block_request, is_complete, state_at, prepare_state, prepare, first_missing, find_missing,
  next_missing_block,
}
use mole_swarm.Protocol.Metainfo.{verify_piece}
use mole_swarm.Torrent.PieceSet.Content.{
  write_piece, verify_and_write_state, verify_and_write, read_block,
}
use mole_swarm.Torrent.PieceSet.WellFormed.{IsWellFormed, IsPrepared, prepare-IsPrepared}
use mole_swarm.Torrent.Session.{is_crash}

-- The result is a value, or an error value of the source.
pub data Safe {A : Type 0} : Result TorrentError A → Type 0 where
  done : {a : A} → Safe (ok a)
  refused : {e : TorrentError} → is_crash e ≡ false → Safe (err e)

pub Safe-err :
    {A : Type 0} {r : Result TorrentError A} (e : TorrentError)
    → Safe r
    → r ≡ err e
    → is_crash e ≡ false
Safe-err e done h = cc
Safe-err e (refused {e = f} k) h =
    let same : f ≡ e = cc (h) in subst (λ g. is_crash g ≡ false) same k

Safe-bind :
    {A B : Type 0} {m : Result TorrentError A} {f : A → Result TorrentError B}
    → Safe m
    → ((a : A) → Safe (f a))
    → Safe (m >>= f)
Safe-bind (done {a}) k = k a
Safe-bind (refused h) k = refused h

Safe-fail_if : (b : Bool) (e : TorrentError) → is_crash e ≡ false → Safe (fail_if b e)
Safe-fail_if true e h = refused h
Safe-fail_if false e h = done

Safe-if :
    {A : Type 0} (b : Bool) {r q : Result TorrentError A}
    → Safe r
    → Safe q
    → Safe (if b then r else q)
Safe-if true h k = h
Safe-if false h k = k

Safe-or_fail :
    {A : Type 0} (o : Option A) (e : TorrentError) → is_crash e ≡ false → Safe (or_fail o e)
Safe-or_fail none e h = refused h
Safe-or_fail (some a) e h = done

length_from-Safe : (total len offset : ℕ) → Safe (length_from total len offset)
length_from-Safe total len offset =
    Safe-if (leb total offset) (refused refl) (Safe-if (ltb (total - offset) len) done done)

piece_offset-Safe : (ps : PieceSet) (i : ℕ) → Safe (piece_offset ps i)
unfolding piece_offset
piece_offset-Safe ps i = Safe-if (leb (length ps.states % 2 ^ 32) i) (refused refl) done

pub piece_length-Safe : (ps : PieceSet) (i : ℕ) → Safe (piece_length ps i)
unfolding piece_length
piece_length-Safe ps i = Safe-bind (piece_offset-Safe ps i) (λ offset. length_from-Safe _ _ offset)

block_request-Safe : (ps : PieceSet) (i begin : ℕ) → Safe (block_request ps i begin)
unfolding block_request
block_request-Safe ps i begin =
    Safe-bind (Safe-fail_if (not (begin % block_size == 0)) invalid_block refl) λ u.
      Safe-bind (piece_length-Safe ps i)
        λ len. Safe-bind (Safe-fail_if (request_length len begin == 0) invalid_block refl) λ v. done

first_missing-Safe :
    (ps : PieceSet) (i : ℕ) (is_pending : BlockRequest → Bool) (flags : List Bool) (k : ℕ)
    → Safe (first_missing ps i is_pending flags k)
unfolding first_missing
first_missing-Safe ps i is_pending [] k = done
first_missing-Safe ps i is_pending (true ∷ flags) k =
    first_missing-Safe ps i is_pending flags (k + 1)
first_missing-Safe ps i is_pending (false ∷ flags) k =
    Safe-bind (block_request-Safe ps i (k * block_size % 2 ^ 32))
      λ r. Safe-if (not (is_pending r)) done (first_missing-Safe ps i is_pending flags (k + 1))

state_at-Safe : (ps : PieceSet) (i : ℕ) → i < length ps.states → Safe (state_at ps i)
state_at-Safe ps i lt =
    let (p, found) = get_elem?-lt ps.states i lt in
    subst (λ o. Safe (or_fail o index_panic)) (sym found) done

prepare-Safe : (ps : PieceSet) (i : ℕ) → i < length ps.states → Safe (prepare ps i)
unfolding prepare prepare_state
prepare-Safe ps i lt = Safe-if (is_complete ps i) done (
    Safe-bind (state_at-Safe ps i lt)
      λ p. Safe-if (not (is_nil p.content)) done (Safe-bind (piece_length-Safe ps i) λ len. done))

find_missing-Safe :
    (ps : PieceSet) (i : ℕ) (is_pending : BlockRequest → Bool)
    → i < length ps.states
    → Safe (find_missing ps i is_pending)
unfolding find_missing
find_missing-Safe ps i is_pending lt =
    Safe-bind (state_at-Safe ps i lt) λ p. first_missing-Safe ps i is_pending p.received 0

pub next_missing_block-Safe :
    (ps : PieceSet) (i : ℕ) (is_pending : BlockRequest → Bool)
    → IsWellFormed ps
    → i < length ps.states
    → Safe (next_missing_block ps i is_pending).0
unfolding next_missing_block
next_missing_block-Safe ps i is_pending v lt = elim (Result-cases (prepare ps i)) [
  | inr (e, failed) ↦
      rw (failed, next_missing_block) (refused (Safe-err e (prepare-Safe ps i lt) failed))
  | inl (prepared, ready) ↦
      rw (ready, next_missing_block)
        (find_missing-Safe prepared i is_pending
          (omega (arith, lt, IsPrepared.same_count (prepare-IsPrepared ps prepared i v ready))))
]

pub read_block-Safe :
    (disk : Disk) (ps : PieceSet) (r : BlockRequest) (opened : Option disk.File)
    → Safe (read_block disk ps r opened)
unfolding read_block
read_block-Safe disk ps r opened = Safe-bind (Safe-or_fail opened file_not_open refl) λ file.
    Safe-bind (Safe-fail_if (not (is_complete ps r.piece_index)) piece_unavailable refl) λ u.
      Safe-bind (block_request-Safe ps r.piece_index r.begin) λ expected.
        Safe-bind (Safe-fail_if (not (same_request r expected)) invalid_block refl) λ v.
          Safe-bind (piece_offset-Safe ps r.piece_index) λ offset.
            Safe-bind (Safe-or_fail (disk.read_at file (offset + r.begin) r.len) read_failed refl)
              λ bytes.
                Safe-bind (Safe-fail_if (not (length bytes == r.len)) unexpected_eof refl) λ x. done

module _ (sha1 : Bytes → Bytes) (disk : Disk) where
  write_piece-Safe :
      (ps : PieceSet) (i : ℕ) (p : PieceData) (offset : ℕ) (file : disk.File)
      → Safe (write_piece sha1 disk ps i p offset file).0
  unfolding write_piece
  write_piece-Safe ps i p offset file =
      elim (Option-cases ((disk.write_at_file file (bytes_of p.content) offset).1)) [
        | inl failed ↦ rw (failed, write_piece) (refused refl)
        | inr (n, written) ↦ elim (Bool-cases (n == length (bytes_of p.content))) [
          | inl full ↦ rw (written, full, write_piece) done
          | inr short ↦ rw (written, short, write_piece) (refused refl)
        ]
      ]

  verify_and_write_state-Safe :
      (ps : PieceSet) (i : ℕ) (p : PieceData) (file : disk.File)
      → Safe (verify_and_write_state sha1 disk ps i p file).0
  unfolding verify_and_write_state
  verify_and_write_state-Safe ps i p file = elim (Bool-cases (all_blocks_received p)) [
    | inr lacks ↦ rw lacks (refused refl)
    | inl all ↦
        elim (Bool-cases
          (verify_piece sha1 (bytes_of p.content) (bytes_of (get_elem? ps.info.piece_hashes i)))) [
            | inr corrupt ↦ rw (all, corrupt) (refused refl)
            | inl intact ↦ elim (Result-cases (piece_offset ps i)) [
              | inl (offset, at_offset) ↦
                  rw (all, intact, at_offset) (write_piece-Safe ps i p offset file)
              | inr (e, outside) ↦
                  rw (all, intact, outside) (refused (Safe-err e (piece_offset-Safe ps i) outside))
            ]
          ]
  ]

  pub verify_and_write-Safe :
      (ps : PieceSet) (i : ℕ) (file : disk.File)
      → i < length ps.states
      → Safe (verify_and_write sha1 disk ps i file).0
  unfolding verify_and_write
  verify_and_write-Safe ps i file lt = elim (Bool-cases (leb (length ps.states % 2 ^ 32) i)) [
    | inl outside ↦ rw outside (refused refl)
    | inr inside ↦
        let (p, present) = get_elem?-lt ps.states i lt in
        rw (inside, present) (verify_and_write_state-Safe ps i p file)
  ]
