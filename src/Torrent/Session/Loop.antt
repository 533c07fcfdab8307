-- ===== src/Torrent/Session/Loop.antt =====
-- torrent/run.go and torrent/peers.go: the loop of `RunDownload` and the connections to the tracker's peers.
use mole_swarm.Base.{
  ℕ, ◌+◌, Option, none, some, List, [], ◌∷◌, leb, ◌==◌, if◌then◌else◌, length, ok, err,
}
use mole_swarm.Base.State.{pure, fail, modify, get, lift, or_else, ◌>>=◌, ◌>>◌}
use mole_swarm.Torrent.Piece.{TorrentError, announce_failed, cancelled}
use mole_swarm.Torrent.Session.{World, Action, Peer, new_peer, DownloadMode}
use mole_swarm.Torrent.Session.Peers.{
  max_peers, PeerEvent, close_peer, activate_peer, handle_peer_event,
}
use mole_swarm.Torrent.Session.Mode.{change_download_mode}
use mole_swarm.Torrent.Session.Status.{build_status}
use mole_swarm.Tracker.Request.{no_event, started_event}
use mole_swarm.Torrent.Session.Lifecycle.{
  announce_request, RunConfig, exchange_handshakes, Torrent, begin_run, finish_run,
}

module _ (w : World) where
  -- A new object, behind a pointer of its own.
  abbrev pub allocate : Peer → Action w ℕ
  allocate p s =
      (ok s.next, record s { heap = λ k. if k == s.next then p else s.heap k; next = s.next + 1 })

  unfoldable pub connect_peer : RunConfig → w.Candidate → Action w ℕ
  unfolding exchange_handshakes new_peer
  connect_peer config candidate = do
    s ← get
    handshake ← lift (exchange_handshakes w config candidate s.next s)
    allocate (new_peer handshake)

  -- One round of `connectTrackerPeers`; no failure ends the loop.
  unfoldable pub connect_one : RunConfig → w.Candidate → Action w (Unit {0})
  unfolding connect_peer activate_peer
  connect_one config candidate =
      or_else
        (connect_peer config candidate >>= λ h.
          or_else (activate_peer w (some h)) (λ e. modify (close_peer w h)))
        (λ e. pure tt)

  unfoldable pub connect_tracker_peers : RunConfig → List w.Candidate → Action w (Unit {0})
  unfolding connect_one
  connect_tracker_peers config [] = pure tt
  connect_tracker_peers config (candidate ∷ rest) = do
    s ← get
    if leb max_peers (length s.peers)
        then pure tt
        else do connect_one config candidate; connect_tracker_peers config rest

  -- What the loop of `RunDownload` takes: an event of a peer, a request for the status or for a mode,
  -- the timer with the peers of the tracker's answer, if there is one.
  pub data LoopEvent : Type 0 where
    peer_event : PeerEvent → LoopEvent
    status_request : LoopEvent
    mode_request : DownloadMode → LoopEvent
    reannounce : Option (List w.Candidate) → LoopEvent

  -- What follows an announce during a run, and the first one: only the failure of the first ends a run.
  unfoldable pub connect_answer : RunConfig → Option (List w.Candidate) → Action w (Unit {0})
  unfolding connect_tracker_peers
  connect_answer config none = pure tt
  connect_answer config (some peers) = connect_tracker_peers config peers

  unfoldable pub connect_first : RunConfig → Option (List w.Candidate) → Action w (Unit {0})
  unfolding connect_tracker_peers
  connect_first config none = fail announce_failed
  connect_first config (some peers) = connect_tracker_peers config peers

  unfoldable pub handle_loop_event : RunConfig → LoopEvent → Action w (Unit {0})
  unfolding handle_peer_event change_download_mode connect_answer build_status announce_request
  handle_loop_event config (peer_event event) = handle_peer_event w event
  handle_loop_event config status_request = do
    s ← get
    lift (build_status w s) >>= λ status. pure tt
  handle_loop_event config (mode_request mode) = change_download_mode w mode
  handle_loop_event config (reannounce answer) = do
    s ← get
    lift (announce_request w config no_event s) >>= λ request. connect_answer config answer

  -- The loop until the context ends.
  unfoldable pub run_loop : RunConfig → List LoopEvent → Action w (Unit {0})
  unfolding handle_loop_event
  run_loop config [] = pure tt
  run_loop config (event ∷ events) = do handle_loop_event config event; run_loop config events

  unfoldable pub first_announce : RunConfig → Option (List w.Candidate) → Action w (Unit {0})
  unfolding connect_first announce_request
  first_announce config answer = do
    s ← get
    lift (announce_request w config started_event s) >>= λ request. connect_first config answer

  -- `RunDownload`: the answer to the first announce, and what the loop takes until the context ends.
  unfoldable pub run_download :
      RunConfig
      → Option (List w.Candidate)
      → List LoopEvent
      → Torrent w
      → Option TorrentError × Torrent w
  unfolding begin_run finish_run first_announce run_loop
  run_download config answer events t = elim (begin_run w t) [
    | err e ↦ (some e, t)
    | ok started ↦
        let (result, s) =
          (do first_announce config answer; run_loop config events) started.session in
        finish_run w (some (elim result [ ok u ↦ cancelled | err e ↦ e ]))
          (record started { session = s })
  ]
