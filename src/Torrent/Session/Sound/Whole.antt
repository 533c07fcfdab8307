-- ===== src/Torrent/Session/Sound/Whole.antt =====
-- torrent/run.go: a whole run keeps the state of a session, and no event ends it.
use mole_swarm.Base.{
  ℕ, ◌≡◌, refl, Option, none, some, List, [], ◌∷◌, arith, leb, length, All, Result, ok, err,
  Result-cases, inl, inr,
}
use mole_swarm.Base.State.{
  Runs, Runs-bind, Runs-if, Runs-or_else, Runs-pure, pure, modify, lift, or_else, ◌>>=◌, Post,
}
use mole_swarm.Protocol.Handshake.{Handshake}
use mole_swarm.Protocol.Message.{interested, not_interested}
use mole_swarm.Torrent.Piece.{TorrentError, announce_failed}
use mole_swarm.Torrent.Session.{
  World, Session, Action, new_peer, DownloadMode, unset, progress, paused,
}
use mole_swarm.Torrent.Session.Peers.{max_peers, activate_peer, close_peer}
use mole_swarm.Torrent.PieceSet.{all_complete}
use mole_swarm.Torrent.PieceSet.Sized.{bytes_left-IsSized}
use mole_swarm.Torrent.Session.Status.{Status, build_status, transfer_state}
use mole_swarm.Tracker.Request.{AnnounceRequest, AnnounceEvent, no_event, started_event}
use mole_swarm.Torrent.Session.Mode.{same_mode, switch_mode, change_download_mode}
use mole_swarm.Torrent.Session.Lifecycle.{RunConfig, announce_request, exchange_handshakes}
use mole_swarm.Torrent.Session.Loop.{
  allocate, connect_peer, connect_one, connect_tracker_peers, connect_answer, connect_first,
  first_announce, LoopEvent, peer_event, status_request, mode_request, reannounce,
  handle_loop_event, run_loop,
}
use mole_swarm.Torrent.Session.Sound.{IsSound, IsRefused}
use mole_swarm.Torrent.Session.Sound.Events.{
  Completes, IsSmallEvent, broadcast_message-Runs, activate_peer-Keeps, handle_peer_event-Completes,
}

module _ (w : World) where
  set_mode-Completes :
      (mode : DownloadMode) → Completes w (modify (λ (s : Session w). record s { mode = mode }))
  set_mode-Completes mode = record { after = λ s i. i }

  switch_mode-Completes : (mode : DownloadMode) → Completes w (switch_mode w mode)
  unfolding switch_mode
  switch_mode-Completes unset = Runs-pure tt
  switch_mode-Completes paused =
      Runs-bind (set_mode-Completes paused) λ u. broadcast_message-Runs w (λ e s. ⊥) not_interested
  switch_mode-Completes progress =
      Runs-bind (set_mode-Completes progress) λ u. broadcast_message-Runs w (λ e s. ⊥) interested

  change_download_mode-Completes : (mode : DownloadMode) → Completes w (change_download_mode w mode)
  unfolding change_download_mode
  change_download_mode-Completes mode = record {
    after = λ s i.
        (Runs-if (same_mode s.mode mode) (λ same. Runs-pure tt)
            (λ other. switch_mode-Completes s.mode)).after
          s i;
  }

  -- A peer that is connected changes the objects only.
  connect_peer-Runs :
      (config : RunConfig) (candidate : w.Candidate)
      → Runs (IsSound w) (λ h. IsSound w) (λ e. IsSound w) (connect_peer w config candidate)
  unfolding connect_peer
  connect_peer-Runs config candidate = record {
    after = λ s i. ends s i (exchange_handshakes w config candidate s.next s);
  }
    where
      ends :
          (s : Session w)
          → IsSound w s
          → (r : Result TorrentError Handshake)
          → Post {A = ℕ}
              (λ h. IsSound w)
              (λ e. IsSound w)
              ((lift r >>= λ handshake. allocate w (new_peer handshake)) s)
      ends s i (ok handshake) = i
      ends s i (err e) = i

  activate-Runs :
      (h : ℕ)
      → Runs
          (IsSound w)
          (λ u. IsSound w)
          (λ (e : TorrentError). IsSound w)
          (or_else (activate_peer w (some h)) (λ e. modify (close_peer w h)))
  activate-Runs h =
      let close : (e : TorrentError)
          → Runs (IsRefused w e) (λ u. IsSound w) (λ (f : TorrentError). IsSound w)
              (modify (close_peer w h)) =
        λ e. record { after = λ s i. i.0 } in
      Runs-or_else (activate_peer-Keeps w (some h)) close

  connect_one-Completes :
      (config : RunConfig) (candidate : w.Candidate) → Completes w (connect_one w config candidate)
  unfolding connect_one
  connect_one-Completes config candidate =
      let skip : (e : TorrentError)
          → Runs (IsSound w) (λ u. IsSound w) (λ (f : TorrentError) s. ⊥) (pure tt) =
        λ e. Runs-pure tt in
      Runs-or_else (Runs-bind (connect_peer-Runs config candidate) activate-Runs) skip

  pub connect_tracker_peers-Completes :
      (config : RunConfig) (peers : List w.Candidate)
      → Completes w (connect_tracker_peers w config peers)
  unfolding connect_tracker_peers
  connect_tracker_peers-Completes config [] = Runs-pure tt
  connect_tracker_peers-Completes config (candidate ∷ rest) = record {
    after = λ s i.
        (Runs-if (leb max_peers (length s.peers)) (λ full. Runs-pure tt)
            (λ room.
              Runs-bind (connect_one-Completes config candidate)
                λ u. connect_tracker_peers-Completes config rest)).after
          s i;
  }

  -- The messages of an event are small.
  abbrev pub IsSmallLoopEvent : LoopEvent w → Type 0
  IsSmallLoopEvent (peer_event event) = IsSmallEvent w event
  IsSmallLoopEvent _ = Unit

  build_status-eq-ok :
      (s : Session w) → IsSound w s → (status : Status) × (build_status w s ≡ ok status)
  unfolding build_status transfer_state all_complete
  build_status-eq-ok s i =
      let (left, found, bound, zero) = bytes_left-IsSized s.pieces i.sized in
      elim (Result-cases (build_status w s)) [
        | inl built ↦ built
        | inr (e, failed) ↦ absurd (ground (arith, found, failed))
      ]

  announce_request-eq-ok :
      (config : RunConfig) (event : AnnounceEvent) (s : Session w)
      → IsSound w s
      → (asked : AnnounceRequest) × (announce_request w config event s ≡ ok asked)
  unfolding announce_request
  announce_request-eq-ok config event s i =
      let (left, found, bound, zero) = bytes_left-IsSized s.pieces i.sized in
      elim (Result-cases (announce_request w config event s)) [
        | inl built ↦ built
        | inr (e, failed) ↦ absurd (ground (arith, found, failed))
      ]

  -- A computation that succeeds, in front of an action.
  lift_then :
      {A : Type 0} {Q : Session w → Type 0} {Z : TorrentError → Session w → Type 0}
      (r : Result TorrentError A) (a : A) (m : Action w (Unit {0})) (s : Session w)
      → r ≡ ok a
      → Runs (IsSound w) (λ (u : Unit {0}). Q) Z m
      → IsSound w s
      → Post {A = Unit {0}} (λ u. Q) Z ((lift r >>= λ x. m) s)
  lift_then (ok b) a m s e runs i = runs.after s i
  lift_then (err f) a m s e runs i = cc

  connect_answer-Completes :
      (config : RunConfig) (answer : Option (List w.Candidate))
      → Completes w (connect_answer w config answer)
  unfolding connect_answer
  connect_answer-Completes config none = Runs-pure tt
  connect_answer-Completes config (some peers) = connect_tracker_peers-Completes config peers

  handle_loop_event-Completes :
      (config : RunConfig) (event : LoopEvent w)
      → IsSmallLoopEvent event
      → Completes w (handle_loop_event w config event)
  unfolding handle_loop_event
  handle_loop_event-Completes config (peer_event event) small =
      handle_peer_event-Completes w event small
  handle_loop_event-Completes config status_request small = record {
    after = λ s i.
        let (status, built) = build_status-eq-ok s i in
        lift_then (build_status w s) status (pure tt) s built (Runs-pure tt) i;
  }
  handle_loop_event-Completes config (mode_request mode) small = change_download_mode-Completes mode
  handle_loop_event-Completes config (reannounce answer) small = record {
    after = λ s i.
        let (asked, built) = announce_request-eq-ok config no_event s i in
        lift_then (announce_request w config no_event s) asked (connect_answer w config answer) s
          built (connect_answer-Completes config answer) i;
  }

  -- The first announce ends the run if it fails.
  abbrev pub IsAnnounced : Option (List w.Candidate) → TorrentError → Session w → Type 0
  IsAnnounced none e s = IsSound w s × (e ≡ announce_failed)
  IsAnnounced (some peers) e s = ⊥

  abbrev pub IsFirst : Option (List w.Candidate) → Session w → Type 0
  IsFirst none s = ⊥
  IsFirst (some peers) s = IsSound w s

  connect_first-Runs :
      (config : RunConfig) (answer : Option (List w.Candidate))
      → Runs
          (IsSound w)
          (λ (u : Unit {0}). IsFirst answer)
          (IsAnnounced answer)
          (connect_first w config answer)
  unfolding connect_first
  connect_first-Runs config none = record { after = λ s i. (i, refl) }
  connect_first-Runs config (some peers) = connect_tracker_peers-Completes config peers

  pub first_announce-Runs :
      (config : RunConfig) (answer : Option (List w.Candidate))
      → Runs
          (IsSound w)
          (λ (u : Unit {0}). IsFirst answer)
          (IsAnnounced answer)
          (first_announce w config answer)
  unfolding first_announce
  first_announce-Runs config answer = record {
    after = λ s i.
        let (asked, built) = announce_request-eq-ok config started_event s i in
        lift_then (announce_request w config started_event s) asked (connect_first w config answer)
          s built (connect_first-Runs config answer) i;
  }

  pub run_loop-Completes :
      (config : RunConfig) (events : List (LoopEvent w))
      → All IsSmallLoopEvent events
      → Completes w (run_loop w config events)
  unfolding run_loop
  run_loop-Completes config [] small = Runs-pure tt
  run_loop-Completes config (event ∷ events) small =
      Runs-bind (handle_loop_event-Completes config event (small.0))
        λ u. run_loop-Completes config events (small.1)
