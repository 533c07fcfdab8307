-- ===== src/Torrent/Session/Mode.antt =====
-- torrent/torrent.go: `changeDownloadMode`.
use mole_swarm.Base.{Bool, true, false, if◌then◌else◌}
use mole_swarm.Base.State.{pure, modify, get, ◌>>=◌, ◌>>◌}
use mole_swarm.Protocol.Message.{interested, not_interested}
use mole_swarm.Torrent.Session.{World, Action, DownloadMode, unset, progress, paused}
use mole_swarm.Torrent.Session.Peers.{broadcast_message}

abbrev pub same_mode : DownloadMode → DownloadMode → Bool
same_mode unset unset = true
same_mode progress progress = true
same_mode paused paused = true
same_mode _ _ = false

module _ (w : World) where
  -- The switch of `changeDownloadMode`, which is on the mode that the session has.
  unfoldable pub switch_mode : DownloadMode → Action w (Unit {0})
  unfolding broadcast_message
  switch_mode unset = pure tt
  switch_mode paused = do
    modify (λ s. record s { mode = paused })
    broadcast_message w not_interested
  switch_mode progress = do
    modify (λ s. record s { mode = progress })
    broadcast_message w interested

  unfoldable pub change_download_mode : DownloadMode → Action w (Unit {0})
  unfolding switch_mode
  change_download_mode mode = do
    s ← get
    if same_mode s.mode mode then pure tt else switch_mode s.mode
