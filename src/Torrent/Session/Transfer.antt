-- ===== src/Torrent/Session/Transfer.antt =====
-- torrent/transfer.go: how a session answers the messages of a peer. A step that a panic or the end of
-- the fuel stops fails with `index_panic` or `out_of_fuel`.
use mole_swarm.Base.{
  ℕ, zero, suc, ◌+◌, ◌%◌, ◌^◌, Bool, true, false, not, ◌&&◌, ◌||◌, Option, none, some, ltb, ◌==◌,
  if◌then◌else◌, length, err,
}
use mole_swarm.Base.Bytes.{Bytes}
use mole_swarm.Base.State.{pure, fail, get, modify, lift, ◌>>=◌, ◌>>◌, or_else}
use mole_swarm.Protocol.Message.{BlockRequest, interested, not_interested, request, piece}
use mole_swarm.Torrent.Piece.{unexpected_block, out_of_fuel, file_not_open}
use mole_swarm.Torrent.Bitfield.{has_piece}
use mole_swarm.Torrent.PieceSet.{PieceSet, is_complete, next_missing_block, store_block}
use mole_swarm.Torrent.PieceSet.Content.{verify_and_write, read_block}
use mole_swarm.Torrent.Session.{
  World, Session, Action, DownloadMode, paused, send_message, on_pieces, update_state,
}
use mole_swarm.Torrent.Session.Pending.{
  assigned_peer, is_pending, drop_request, assign, pending_count,
}

abbrev pub max_pending_per_peer : ℕ
max_pending_per_peer = 8

abbrev pub is_paused : DownloadMode → Bool
is_paused paused = true
is_paused _ = false

abbrev pub same_bool : Bool → Bool → Bool
same_bool true b = b
same_bool false b = not b

-- The request that a block answers.
abbrev pub delivered_request : ℕ → ℕ → Bytes → BlockRequest
delivered_request index begin bytes = record {
  piece_index = index;
  begin = begin;
  len = length bytes % 2 ^ 32;
}

-- The loop of `updateInterest` over the pieces from `index` on.
unfoldable pub is_interesting : PieceSet → Bytes → ℕ → ℕ → Bool
unfolding is_complete has_piece
is_interesting ps bits zero index = false
is_interesting ps bits (suc n) index =
    let rest = is_interesting ps bits n (index + 1) in
    if not (is_complete ps (index % 2 ^ 32)) && has_piece bits (index % 2 ^ 32) then true else rest

module _ (w : World) where
  unfoldable pub update_interest : ℕ → Action w (Unit {0})
  unfolding is_interesting send_message
  update_interest h = do
    s ← get
    let now = is_interesting s.pieces (s.heap h).bits (length s.pieces.states) 0
    if same_bool now (s.heap h).state.am_interested then pure tt else do
      send_message w h (if now then interested else not_interested)
      modify (update_state w h (λ p. record p { am_interested = now }))

  -- The loop of `reserveNextRequest` over the pieces from `index` on.
  unfoldable pub reserve_from : ℕ → ℕ → ℕ → Action w (Option BlockRequest)
  unfolding next_missing_block is_complete has_piece assign
  reserve_from h zero index = pure none
  reserve_from h (suc n) index = do
    s ← get
    if is_complete s.pieces (index % 2 ^ 32) || not (has_piece (s.heap h).bits (index % 2 ^ 32))
        then reserve_from h n (index + 1)
        else do
          found ← on_pieces w (λ ps. next_missing_block ps (index % 2 ^ 32) (is_pending s.pending))
          elim found [
            | none ↦ reserve_from h n (index + 1)
            | some r ↦ do modify (λ q. record q { pending = assign q.pending r h }); pure (some r)
          ]

  unfoldable pub reserve_next_request : ℕ → Action w (Option BlockRequest)
  unfolding reserve_from
  reserve_next_request h = do s ← get; reserve_from h (length s.pieces.states) 0

  -- A request that cannot be sent is given back.
  unfoldable pub send_request : ℕ → BlockRequest → Action w (Unit {0})
  unfolding send_message drop_request
  send_request h r =
      or_else (send_message w h (request r))
        λ e. do modify (λ q. record q { pending = drop_request q.pending r }); fail e

  -- The loop of `fillRequestWindow`.
  unfoldable pub fill_window : ℕ → ℕ → Action w (Unit {0})
  unfolding reserve_next_request send_request pending_count
  fill_window zero h = fail out_of_fuel
  fill_window (suc fuel) h = do
    s ← get
    if not (ltb (pending_count s.pending h) max_pending_per_peer) then pure tt else do
      found ← reserve_next_request h
      elim found [ none ↦ pure tt | some r ↦ do send_request h r; fill_window fuel h ]

  -- Each round adds a request, so there are at most as many as a peer may have, and the test after them.
  unfoldable pub fill_request_window : ℕ → Action w (Unit {0})
  unfolding fill_window
  fill_request_window h = do
    s ← get
    if is_paused s.mode || ((s.heap h).state.peer_choking || not (s.heap h).state.am_interested)
        then pure tt
        else fill_window (max_pending_per_peer + 1) h

  unfoldable pub serve_block : ℕ → BlockRequest → Action w (Unit {0})
  unfolding read_block send_message
  serve_block h r = do
    s ← get
    if (s.heap h).state.am_choking then pure tt else do
      bytes ← lift (read_block w.disk s.pieces r s.file)
      send_message w h (piece r.piece_index r.begin bytes)
      modify (λ q. record q { uploaded = (q.uploaded + length bytes) % 2 ^ 64 })

  -- `VerifyAndWrite` with the session's file.
  unfoldable pub verify_piece_at : ℕ → Action w (Unit {0})
  unfolding verify_and_write
  verify_piece_at index s = elim s.file [
    | none ↦ (err file_not_open, s)
    | some file ↦
        let (result, pieces, after) = verify_and_write w.sha1 w.disk s.pieces index file in
        (result, record s { pieces = pieces; file = some after })
  ]

  -- The assignment of a block to the peer that delivers it.
  unfoldable pub is_assigned : Session w → ℕ → BlockRequest → Bool
  unfolding assigned_peer
  is_assigned s h r = elim (assigned_peer s.pending r) [ none ↦ false | some k ↦ k == h ]

  unfoldable pub receive_block : ℕ → ℕ → ℕ → Bytes → Action w Bool
  unfolding is_assigned store_block drop_request verify_piece_at
  receive_block h index begin bytes = do
    let r = delivered_request index begin bytes
    s ← get
    if not (is_assigned s h r) then fail unexpected_block else do
      assembled ← on_pieces w (λ ps. store_block ps r bytes)
      modify (λ q. record q {
        pending = drop_request q.pending r;
        downloaded = (q.downloaded + length bytes) % 2 ^ 64;
      })
      if not assembled then pure false else do verify_piece_at index; pure true
