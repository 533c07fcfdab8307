-- ===== src/Torrent/Session/Sound/Lifetime.antt =====
-- torrent/run.go and torrent/torrent.go: a session from its opening on, and what a run leaves.
use mole_swarm.Base.{
  ap, ℕ, ◌≡◌, refl, subst, sym, ◌∙◌, true, false, Option, none, some, List, [], ◌∷◌, All,
  Option-cases, ◌⊎◌, inl, inr, Result, ok, err,
}
use mole_swarm.Base.Bytes.{Bytes}
use mole_swarm.Base.State.{Runs, Runs-bind, Post, ◌>>◌}
use mole_swarm.Protocol.Metainfo.{MetaInfo}
use mole_swarm.Torrent.Piece.{TorrentError, cancelled, announce_failed}
use mole_swarm.Torrent.PieceSet.WellFormed.{IsWellFormed}
use mole_swarm.Torrent.Session.{World, Session, Action, Peer}
use mole_swarm.Torrent.Session.Peers.{close_peer, close_all, close_peers}
use mole_swarm.Torrent.Session.Lifecycle.{
  RunConfig, Torrent, begin_run, finish_run, close_file, open_download, open_seed,
}
use mole_swarm.Torrent.Session.Loop.{first_announce, LoopEvent, run_loop, run_download}
use mole_swarm.Torrent.Session.Sound.{IsSound}
use mole_swarm.Torrent.Session.Sound.Opened.{IsInRange, open_download-IsSound, open_seed-IsSound}
use mole_swarm.Torrent.Session.Sound.Events.{Completes}
use mole_swarm.Torrent.Session.Sound.Whole.{
  IsFirst, IsAnnounced, first_announce-Runs, IsSmallLoopEvent, run_loop-Completes,
}
use mole_swarm.Tracker.Server.{Map}

-- The action succeeds in the state, and leaves a sound one.
abbrev pub Succeeds : (w : World) → Action w (Unit {0}) → Session w → Type 0
Succeeds w m s = (q : Session w) × (m s ≡ (ok tt, q)) × IsSound w q

pub Completes-Succeeds :
    (w : World) (m : Action w (Unit {0})) (s : Session w)
    → Completes w m
    → IsSound w s
    → Succeeds w m s
Completes-Succeeds w m s completes i = ends (m s) refl (completes.after s i)
  where
    ends :
        (out : Result TorrentError (Unit {0}) × Session w)
        → m s ≡ out
        → Post {A = Unit {0}} (λ u. IsSound w) (λ (e : TorrentError) q. ⊥) out
        → Succeeds w m s
    ends (ok u, q) e i = (q, e, i)
    ends (err f, q) e i = absurd i

-- A session that `OpenDownload` or `OpenSeed` made, of a content shorter than 2 ^ 63 bytes with fewer than
-- 2 ^ 32 pieces, handles any events in any order, without a failure, a panic or an end of the fuel, and
-- is sound after them: the pieces are well formed, every pending request asks for a block that is
-- missing, no peer has more than 8 of them, there are at most 5 peers, and the pieces are as many as the
-- content asks for. The blocks in the messages are shorter than 2 ^ 32 bytes.
pub run_loop-IsSound :
    (w : World) (meta : MetaInfo) (path : Bytes) (heap : ℕ → Peer) (s : Session w)
    (config : RunConfig) (events : List (LoopEvent w))
    → IsInRange meta.info
    → (open_download w meta path heap ≡ ok s) ⊎ (open_seed w meta path heap ≡ ok s)
    → All (IsSmallLoopEvent w) events
    → Succeeds w (run_loop w config events) s
run_loop-IsSound w meta path heap s config events range opened small =
    Completes-Succeeds w (run_loop w config events) s (run_loop-Completes w config events small)
      (elim opened [
        | inl download ↦ open_download-IsSound w meta path heap s range download
        | inr seed ↦ open_seed-IsSound w meta path heap s range seed
      ])

close_all-pieces :
    (w : World) (m : Map ℕ) (s : Session w) → Session.pieces (close_all w m s) ≡ s.pieces
unfolding close_all
close_all-pieces w [] s = refl
close_all-pieces w ((id, h) ∷ rest) s = close_all-pieces w rest (close_peer w h s)

close_file-IsClosed :
    (w : World) (s : Session w)
    → (Session.file ((close_file w s).1) ≡ none)
      × (Session.pieces ((close_file w s).1) ≡ s.pieces)
      × (Session.peers ((close_file w s).1) ≡ s.peers)
      × (Session.pending ((close_file w s).1) ≡ s.pending)
unfolding close_file
close_file-IsClosed w s = elim (Option-cases s.file) [
  | inl absent ↦ rw (absent, close_file) (absent, refl, refl, refl)
  | inr (file, present) ↦ rw (present, close_file) (refl, refl, refl, refl)
]

-- A torrent after its run.
pub record IsFinished (w : World) (t : Torrent w) : Type 0 where
  pub stopped : t.running ≡ false
  pub no_peers : t.session.peers ≡ []
  pub no_pending : t.session.pending ≡ []
  pub closed : t.session.file ≡ none
  pub well_formed : IsWellFormed t.session.pieces

finish_run-IsFinished :
    (w : World) (e : Option TorrentError) (t : Torrent w)
    → IsWellFormed t.session.pieces
    → IsFinished w (finish_run w e t).1
unfolding finish_run close_peers
finish_run-IsFinished w e t v =
    let after = close_peers w t.session in
    let (file, pieces, peers, pending) = close_file-IsClosed w after in
    record {
      stopped = refl;
      no_peers = peers;
      no_pending = pending;
      closed = file;
      well_formed =
          subst IsWellFormed
            (sym
              (pieces ∙ close_all-pieces w (w.visit t.session.attempts t.session.peers) t.session))
            v;
    }

begin_run-idle :
    (w : World) (t : Torrent w)
    → t.running ≡ false
    → begin_run w t ≡ ok (record t { running = true; close_err = none })
unfolding begin_run
begin_run-idle w t idle = rw idle refl

abbrev pub run_error : {A : Type 0} → Option A → TorrentError
run_error none = announce_failed
run_error (some peers) = cancelled

unreached :
    (w : World) {Q : Session w → Type 0} {Z : TorrentError → Session w → Type 0}
    (m : Action w (Unit {0}))
    → Runs (λ s. ⊥) (λ (u : Unit {0}). Q) Z m
unreached w m = record { after = λ s f. absurd f }

run-Runs :
    (w : World) (config : RunConfig) (answer : Option (List w.Candidate))
    (events : List (LoopEvent w))
    → All (IsSmallLoopEvent w) events
    → Runs
        (IsSound w)
        (λ (u : Unit {0}). IsFirst w answer)
        (IsAnnounced w answer)
        (do first_announce w config answer; run_loop w config events)
run-Runs w config none events small =
    Runs-bind (first_announce-Runs w config none) λ u. unreached w (run_loop w config events)
run-Runs w config (some peers) events small =
    Runs-bind (first_announce-Runs w config (some peers))
      λ u. run_loop-Completes w config events small

ends :
    (w : World) (answer : Option (List w.Candidate)) (t : Torrent w)
    (out : Result TorrentError (Unit {0}) × Session w)
    → Post {A = Unit {0}} (λ u. IsFirst w answer) (IsAnnounced w answer) out
    → let started = record t { running = true; close_err = none; session = out.1 } in
      let after = finish_run w (some (elim (out.0) [ ok u ↦ cancelled | err e ↦ e ])) started in
      (after.0 ≡ some (run_error answer)) × IsFinished w (after.1)
unfolding finish_run
ends w none t (ok u, q) p = absurd p
ends w none t (err e, q) (i, same) = (
  ap some same,
  finish_run-IsFinished w (some e) (record t { running = true; close_err = none; session = q })
      i.well_formed,
)
ends w (some peers) t (ok u, q) i = (
  refl,
  finish_run-IsFinished w (some cancelled)
      (record t { running = true; close_err = none; session = q }) i.well_formed,
)
ends w (some peers) t (err e, q) p = absurd p

-- A run of a torrent that is not running, whose session is sound, ends with the error of its first
-- announce, if that fails, and otherwise with the end of the context, whatever events it takes with
-- blocks shorter than 2 ^ 32 bytes; then the torrent does not run, has no peers, no pending requests
-- and no open file, and its pieces are well formed.
pub run_download-IsFinished :
    (w : World) (config : RunConfig) (answer : Option (List w.Candidate))
    (events : List (LoopEvent w)) (t : Torrent w)
    → t.running ≡ false
    → IsSound w t.session
    → All (IsSmallLoopEvent w) events
    → ((run_download w config answer events t).0 ≡ some (run_error answer))
      × IsFinished w (run_download w config answer events t).1
unfolding run_download
run_download-IsFinished w config answer events t idle i small =
    rw (begin_run-idle w t idle, run_download)
      (ends w answer t _ ((run-Runs w config answer events small).after t.session i))
