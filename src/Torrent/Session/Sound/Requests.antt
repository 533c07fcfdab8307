-- ===== src/Torrent/Session/Sound/Requests.antt =====
-- torrent/transfer.go: choosing blocks to ask a peer for keeps the state of a session, and always ends.
use mole_swarm.Base.{
  ℕ, zero, suc, ◌+◌, ◌%◌, ◌^◌, ◌<◌, ◌≡◌, refl, subst, sym, ap, false, not, ◌||◌, Option, none, some,
  arith, ltb, length, inl, inr, Result, ok, err,
}
use mole_swarm.Base.State.{
  Runs, Runs-bind, Runs-if, Runs-or_else, Runs-pure, Runs-mono, pure, fail, modify, ◌>>◌, Post,
}
use mole_swarm.Protocol.Message.{BlockRequest, request}
use mole_swarm.Torrent.Piece.{TorrentError}
use mole_swarm.Torrent.Bitfield.{has_piece}
use mole_swarm.Torrent.PieceSet.{PieceSet, is_complete, next_missing_block}
use mole_swarm.Torrent.PieceSet.Sized.{IsSized-same}
use mole_swarm.Torrent.PieceSet.Open.{IsOpen, next_missing_block-IsOpen}
use mole_swarm.Torrent.Session.{World, Session, on_pieces}
use mole_swarm.Torrent.Session.Pending.{
  Pending, assign, is_pending, drop_request, pending_count, assigned_peer-assign, drop_request-new,
}
use mole_swarm.Torrent.Session.Transfer.{
  max_pending_per_peer, reserve_from, reserve_next_request, send_request, fill_window,
  fill_request_window, is_paused,
}
use mole_swarm.Torrent.Session.Crash.{Safe, Safe-err, next_missing_block-Safe}
use mole_swarm.Torrent.Session.Sound.{
  IsSoundState, IsSound, IsRefused, Keeps, send_message-Runs, drop_request-IsSoundState,
}
use mole_swarm.Tracker.Server.{Map}

-- A new request is added for a peer that has fewer than 8.
assign-IsSoundState :
    (ps : PieceSet) (m : Pending) (peers : Map ℕ) (r : BlockRequest) (h : ℕ)
    → IsSoundState ps m peers
    → IsOpen ps r
    → is_pending m r ≡ false
    → pending_count m h < 8
    → IsSoundState ps (assign m r h) peers
unfolding assign pending_count
assign-IsSoundState ps m peers r h i o new few = record {
  well_formed = i.well_formed;
  wanted = λ q k e. elim (assigned_peer-assign m r q h k e) [
    | inl (same, holder) ↦ subst (IsOpen ps) (sym same) o
    | inr old ↦ i.wanted q k old
  ];
  window = λ k. ground (arith, drop_request-new m r new, i.window k, few);
  few = i.few;
  sized = i.sized;
}

pending_count-assign :
    (m : Pending) (r : BlockRequest) (h : ℕ)
    → is_pending m r ≡ false
    → pending_count (assign m r h) h ≡ pending_count m h + 1
unfolding assign pending_count
pending_count-assign m r h new = ground (arith, drop_request-new m r new)

module _ (w : World) (h c : ℕ) where
  -- `h` has `c` requests, and room for one more.
  abbrev HasRoom : Session w → Type 0
  HasRoom s = IsSound w s × (pending_count s.pending h ≡ c) × (c < 8)

  -- What the search leaves: another request, or no change of the number.
  abbrev Reserved : Option BlockRequest → Session w → Type 0
  Reserved none s = IsSound w s
  Reserved (some r) s = IsSound w s × (pending_count s.pending h ≡ suc c)

  -- The search of one piece, in front of the choice what to do with what was found.
  abbrev Searched : Option BlockRequest → Session w → Type 0
  Searched none s = HasRoom s
  Searched (some r) s = HasRoom s × IsOpen s.pieces r × (is_pending s.pending r ≡ false)

  -- The search and the number of pieces from `index` on.
  abbrev FoundFrom : ℕ → ℕ → Option BlockRequest → Session w → Type 0
  FoundFrom n index found s = Searched found s × (index + suc n ≡ length s.pieces.states)

  search-Post :
      (n index : ℕ) (s : Session w) (found : Result TorrentError (Option BlockRequest))
      (ps : PieceSet)
      → HasRoom s
      → index + suc n ≡ length s.pieces.states
      → next_missing_block s.pieces (index % 2 ^ 32) (is_pending s.pending) ≡ (found, ps)
      → Post (FoundFrom n index) (IsRefused w) (found, record s { pieces = ps })
  search-Post n index s found ps (i, count, few) size e =
      let (prepared, keeps, finds) =
        next_missing_block-IsOpen s.pieces ps (index % 2 ^ 32) (is_pending s.pending) found
          i.well_formed e in
      let sound : IsSoundState ps s.pending s.peers = record {
        well_formed = prepared.well_formed;
        wanted = λ r k p. keeps r (i.wanted r k p);
        window = i.window;
        few = i.few;
        sized = IsSized-same i.sized prepared.same_info prepared.same_count;
      } in
      let safe : Safe found = subst Safe (ap (λ o. o.0) e) (
        next_missing_block-Safe s.pieces (index % 2 ^ 32) (is_pending s.pending) i.well_formed
          (omega (arith, size))) in
      let size' : index + suc n ≡ length ps.states = omega (arith, size, prepared.same_count) in
      cases found finds safe sound size'
    where
      cases :
          (found : Result TorrentError (Option BlockRequest))
          → ((r : BlockRequest)
              → found ≡ ok (some r)
              → IsOpen ps r × (is_pending s.pending r ≡ false))
          → Safe found
          → IsSoundState ps s.pending s.peers
          → index + suc n ≡ length ps.states
          → Post (FoundFrom n index) (IsRefused w) (found, record s { pieces = ps })
      cases (err e') finds safe sound size' = (sound, Safe-err e' safe refl)
      cases (ok none) finds safe sound size' = ((sound, count, few), size')
      cases (ok (some r)) finds safe sound size' =
          let (open_block, new) = finds r refl in (((sound, count, few), open_block, new), size')

  search-Runs :
      (m : Pending) (n index : ℕ)
      → Runs
          (λ s. HasRoom s × (index + suc n ≡ length s.pieces.states) × (s.pending ≡ m))
          (FoundFrom n index)
          (IsRefused w)
          (on_pieces w (λ ps. next_missing_block ps (index % 2 ^ 32) (is_pending m)))
  search-Runs m n index = record {
    after = λ s (room, size, same).
        subst
          (λ l.
            Post (FoundFrom n index) (IsRefused w)
              (on_pieces w (λ ps. next_missing_block ps (index % 2 ^ 32) (is_pending l)) s))
          same (search-Post n index s _ _ room size refl);
  }

  reserve_found-Runs :
      (n index : ℕ) (found : Option BlockRequest)
      → Runs
          (λ s. HasRoom s × (index + 1 + n ≡ length s.pieces.states))
          Reserved
          (IsRefused w)
          (reserve_from w h n (index + 1))
      → Runs (FoundFrom n index found) Reserved (IsRefused w) (elim found [
        | none ↦ reserve_from w h n (index + 1)
        | some r ↦ do
          modify (λ (q : Session w). record q { pending = assign q.pending r h })
          pure (some r)
      ])
  reserve_found-Runs n index none rest =
      Runs-mono (λ q (room, size). (room, omega (arith, size))) (λ found q k. k) rest
  reserve_found-Runs n index (some r) rest = record {
    after = λ s (((i, count, few), open_block, new), size). (
      assign-IsSoundState s.pieces s.pending s.peers r h i open_block new
          (omega (arith, few, count)),
      omega (arith, pending_count-assign s.pending r h new, count),
    );
  }

  reserve_from-Runs :
      (n index : ℕ)
      → Runs
          (λ s. HasRoom s × (index + n ≡ length s.pieces.states))
          Reserved
          (IsRefused w)
          (reserve_from w h n index)
  unfolding reserve_from
  reserve_from-Runs zero index = record { after = λ s p. p.0.0 }
  reserve_from-Runs (suc n) index = record {
    after = λ s p.
        (Runs-if
            (is_complete s.pieces (index % 2 ^ 32)
              || not (has_piece (s.heap h).bits (index % 2 ^ 32)))
            (λ skipped.
              Runs-mono (λ q (room, size, same). (room, omega (arith, size))) (λ found q k. k)
                (reserve_from-Runs n (index + 1)))
            (λ lacks.
              Runs-bind (search-Runs s.pending n index) (λ found.
                reserve_found-Runs n index found (reserve_from-Runs n (index + 1))))).after
          s (p.0, p.1, refl);
  }

  reserve_next_request-Runs : Runs HasRoom Reserved (IsRefused w) (reserve_next_request w h)
  unfolding reserve_next_request
  reserve_next_request-Runs = record {
    after = λ s room. (reserve_from-Runs (length s.pieces.states) 0).after s (room, omega arith);
  }

  send_request-Runs :
      (r : BlockRequest)
      → Runs (Reserved (some r)) (λ u. Reserved (some r)) (IsRefused w) (send_request w h r)
  unfolding send_request
  send_request-Runs r =
      let give_back : (e : TorrentError)
          → Runs (IsRefused w e) (λ u. Reserved (some r)) (IsRefused w)
              (do
                modify (λ (q : Session w). record q { pending = drop_request q.pending r })
                fail e) =
        λ e. record {
          after = λ s i. (drop_request-IsSoundState s.pieces s.pending s.peers r (i.0), i.1);
        } in
      Runs-or_else (send_message-Runs w h (request r) (λ s n l i. i) (λ s n i. (i.0, refl)))
        give_back

module _ (w : World) (h : ℕ) where
  fill_found-Runs :
      (c fuel : ℕ) (found : Option BlockRequest)
      → Runs
          (λ s. IsSound w s × (8 < pending_count s.pending h + fuel))
          (λ u. IsSound w)
          (IsRefused w)
          (fill_window w fuel h)
      → 8 < c + suc fuel
      → Runs
          (Reserved w h c found)
          (λ u. IsSound w)
          (IsRefused w)
          (elim found [ none ↦ pure tt | some r ↦ do send_request w h r; fill_window w fuel h ])
  fill_found-Runs c fuel none rest enough = Runs-pure tt
  fill_found-Runs c fuel (some r) rest enough =
      Runs-bind (send_request-Runs w h c r)
        λ u. Runs-mono (λ s (i, count). (i, omega (arith, count, enough))) (λ v s i. i) rest

  stop-Runs :
      (c : ℕ)
      → Runs
          (λ s. IsSound w s × (pending_count s.pending h ≡ c))
          (λ u. IsSound w)
          (IsRefused w)
          (pure tt)
  stop-Runs c = record { after = λ s p. p.0 }

  fill_window-Runs :
      (fuel : ℕ)
      → Runs
          (λ s. IsSound w s × (8 < pending_count s.pending h + fuel))
          (λ u. IsSound w)
          (IsRefused w)
          (fill_window w fuel h)
  unfolding fill_window
  fill_window-Runs zero = record {
    after = λ s (i, enough). absurd (omega (arith, enough, i.window h));
  }
  fill_window-Runs (suc fuel) = record {
    after = λ s (i, enough).
        (Runs-if (not (ltb (pending_count s.pending h) max_pending_per_peer))
            (λ full. stop-Runs (pending_count s.pending h))
            (λ room.
              Runs-bind
                (Runs-mono (λ q (k, same). (k, same, ground (arith, room))) (λ found q k. k)
                  (reserve_next_request-Runs w h (pending_count s.pending h)))
                (λ found.
                  fill_found-Runs (pending_count s.pending h) fuel found (fill_window-Runs fuel)
                    enough))).after
          s (i, refl);
  }

  pub fill_request_window-Keeps : Keeps w (fill_request_window w h)
  unfolding fill_request_window
  fill_request_window-Keeps = record {
    after = λ s i.
        (Runs-if
            (is_paused s.mode
              || ((s.heap h).state.peer_choking || not (s.heap h).state.am_interested))
            (λ idle. Runs-pure tt)
            (λ asks.
              Runs-mono (λ q k. (k, omega arith)) (λ u q k. k)
                (fill_window-Runs (max_pending_per_peer + 1)))).after
          s i;
  }
