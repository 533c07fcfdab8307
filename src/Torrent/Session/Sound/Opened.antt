-- ===== src/Torrent/Session/Sound/Opened.antt =====
-- torrent/torrent.go: `OpenDownload` and `OpenSeed` make sound sessions.
use mole_swarm.Base.{
  ℕ, zero, suc, ◌<◌, ◌+◌, ◌%◌, ◌^◌, ◌≡◌, refl, subst, sym, ap, Bool, not, Option, none, some, List,
  [], ◌∷◌, arith, length, All, ◌==◌, replicate, get_elem?, Result, ok, fail_if, >>=-eq-ok,
  ok-injective, Ensures, holds, Ensures-bind, Ensures-ok, anything,
}
use mole_swarm.Base.Bytes.{Bytes}
use mole_swarm.Protocol.Metainfo.{MetaInfo, Info, verify_piece}
use mole_swarm.Torrent.Piece.{
  TorrentError, bytes_of, read_failed, unexpected_eof, piece_hash_mismatch, file_not_open,
  write_failed,
}
use mole_swarm.Torrent.FileStorage.{Disk, or_fail, expected_count, nat_of}
use mole_swarm.Torrent.PieceSet.{
  PieceData, PieceSet, new_piece_set, piece_length, piece_offset, no_data,
}
use mole_swarm.Torrent.PieceSet.Content.{verify_state, verify_states, verify_existing}
use mole_swarm.Torrent.PieceSet.Sized.{IsSized, IsSized-same, new_piece_set-IsSized}
use mole_swarm.Torrent.PieceSet.WellFormed.{IsWellFormed, IsPieceState, idle}
use mole_swarm.Torrent.PieceSet.Stored.{new_piece_set-IsWellFormed}
use mole_swarm.Torrent.Session.{World, Session, Peer, new_session}
use mole_swarm.Torrent.Session.Pending.{assigned_peer, pending_count}
use mole_swarm.Torrent.Session.Lifecycle.{open_download, open_seed}
use mole_swarm.Torrent.Session.Sound.{IsSound}

-- The length is an `int64`, and the pieces are fewer than 2 ^ 32.
abbrev pub IsInRange : Info → Type 0
IsInRange info = (nat_of info.len < 2 ^ 63) × (length info.piece_hashes < 2 ^ 32)

new_session-IsSound :
    (w : World) (meta : MetaInfo) (ps : PieceSet) (heap : ℕ → Peer)
    → IsWellFormed ps
    → IsSized ps.info (length ps.states)
    → IsSound w (new_session w meta ps heap)
unfolding assigned_peer pending_count
new_session-IsSound w meta ps heap v sized = record {
  well_formed = v;
  wanted = λ r h e. cc;
  window = λ h. omega arith;
  few = omega arith;
  sized = sized;
}

pub open_download-IsSound :
    (w : World) (meta : MetaInfo) (path : Bytes) (heap : ℕ → Peer) (s : Session w)
    → IsInRange meta.info
    → open_download w meta path heap ≡ ok s
    → IsSound w s
unfolding open_download
open_download-IsSound w meta path heap s range e =
    let (ps, made, rest) = >>=-eq-ok (new_piece_set meta.info) _ e in
    let (created, at_path, rest') = >>=-eq-ok (or_fail (w.create_file path) file_not_open) _ rest in
    let (file, cut, rest'') =
      >>=-eq-ok (or_fail (w.truncate created meta.info.len) write_failed) _ rest' in
    subst (IsSound w) (ok-injective rest'') (
      new_session-IsSound w meta ps heap (new_piece_set-IsWellFormed meta.info ps made)
        (new_piece_set-IsSized meta.info ps (range.0) (range.1) made))

-- A piece without data.
IsIdle : PieceData → Type 0
IsIdle p = (p.content ≡ none) × (p.received ≡ [])

IsIdle-IsPieceState : (l : Result TorrentError ℕ) (p : PieceData) → IsIdle p → IsPieceState l p
unfolding IsIdle
IsIdle-IsPieceState l p (empty, blank) =
    subst (IsPieceState l)
      (sym (ap (λ (c, r). record { complete = p.complete; content = c; received = r }) both))
      (idle p.complete)
  where
    both : ◌≡◌ {A = Option Bytes × List Bool} (p.content, p.received) (none, [])
    both = cc (empty, blank)

module _ (sha1 : Bytes → Bytes) (disk : Disk) where
  verify_state-IsIdle :
      (ps : PieceSet) (file : disk.File) (i : ℕ) (p : PieceData)
      → IsIdle p
      → Ensures IsIdle (verify_state sha1 disk ps file i p)
  unfolding verify_state IsIdle
  verify_state-IsIdle ps file i p is_idle =
      Ensures-bind (anything (piece_length ps (i % 2 ^ 32))) λ len u.
        Ensures-bind (anything (piece_offset ps (i % 2 ^ 32))) λ offset v.
          Ensures-bind (anything (or_fail (disk.read_at file offset len) read_failed)) λ bytes x.
            Ensures-bind (anything (fail_if (not (length bytes == len)) unexpected_eof)) λ y z.
              Ensures-bind
                (anything (
                  fail_if
                    (not (
                      verify_piece sha1 bytes
                        (bytes_of (get_elem? ps.info.piece_hashes (i % 2 ^ 32)))))
                    piece_hash_mismatch))
                λ a b. holds is_idle

  verify_states-IsIdle :
      (ps : PieceSet) (file : disk.File) (i : ℕ) (states : List PieceData)
      → All IsIdle states
      → Ensures
          (λ out. All IsIdle out × (length out ≡ length states))
          (verify_states sha1 disk ps file i states)
  unfolding verify_states
  verify_states-IsIdle ps file i [] all = holds (tt, refl)
  verify_states-IsIdle ps file i (p ∷ states) all =
      Ensures-bind (verify_state-IsIdle ps file i p (all.0)) λ q is_idle.
        Ensures-bind (verify_states-IsIdle ps file (i + 1) states (all.1))
          λ rest (idles, count). holds ((is_idle, idles), ap suc count)

All-get_elem? :
    (xs : List PieceData) (i : ℕ) (p : PieceData)
    → All IsIdle xs
    → get_elem? xs i ≡ some p
    → IsIdle p
All-get_elem? [] i p all e = cc
All-get_elem? (x ∷ xs) zero p all e = let same : x ≡ p = cc (e) in subst IsIdle same (all.0)
All-get_elem? (x ∷ xs) (suc i) p all e = All-get_elem? xs i p (all.1) e

All-replicate : (n : ℕ) → All IsIdle (replicate n no_data)
unfolding IsIdle
All-replicate zero = tt
All-replicate (suc n) = ((refl, refl), All-replicate n)

new_piece_set-IsIdle :
    (info : Info) (ps : PieceSet) → new_piece_set info ≡ ok ps → All IsIdle ps.states
unfolding new_piece_set
new_piece_set-IsIdle info ps e =
    let count = expected_count (nat_of info.len) (nat_of info.piece_length) in
    let same : record { info = info; states = replicate count no_data } ≡ ps = ground (arith, e) in
    subst (λ q. All IsIdle (PieceSet.states q)) same (All-replicate count)

pub open_seed-IsSound :
    (w : World) (meta : MetaInfo) (path : Bytes) (heap : ℕ → Peer) (s : Session w)
    → IsInRange meta.info
    → open_seed w meta path heap ≡ ok s
    → IsSound w s
unfolding open_seed verify_existing
open_seed-IsSound w meta path heap s range e =
    let (ps, made, rest) = >>=-eq-ok (new_piece_set meta.info) _ e in
    let (file, at_path, rest') = >>=-eq-ok (or_fail (w.open_file path) file_not_open) _ rest in
    let (verified, checked, rest'') =
      >>=-eq-ok (verify_existing w.sha1 w.disk ps (some file)) _ rest' in
    let (states, read, same) =
      >>=-eq-ok (verify_states w.sha1 w.disk ps file 0 ps.states) _ checked in
    let (idles, count) =
      Ensures-ok
        (verify_states-IsIdle w.sha1 w.disk ps file 0 ps.states
          (new_piece_set-IsIdle meta.info ps made))
        read in
    let v : IsWellFormed (record ps { states = states }) =
      λ i p found. IsIdle-IsPieceState _ p (All-get_elem? states i p idles found) in
    subst (IsSound w) (ok-injective rest'') (
      new_session-IsSound w meta verified heap (subst IsWellFormed (ok-injective same) v) (
        subst (λ q. IsSized (PieceSet.info q) (length (PieceSet.states q))) (ok-injective same)
          (IsSized-same (new_piece_set-IsSized meta.info ps (range.0) (range.1) made) refl count)))
