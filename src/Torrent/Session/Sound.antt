-- ===== src/Torrent/Session/Sound.antt =====
-- torrent/torrent.go and torrent/transfer.go: the state of a session between two events, and the
-- actions that keep it.
pub mod Requests
pub mod Blocks
pub mod Events
pub mod Whole
pub mod Opened
pub mod Lifetime
use mole_swarm.Base.{
  ℕ, zero, suc, ◌+◌, ◌%◌, ◌^◌, ◌≤◌, ◌<◌, ◌≡◌, refl, subst, sym, Bool, true, false, not, Option,
  none, some, List, [], ◌∷◌, arith, ◌==◌, if◌then◌else◌, length, Bool-cases, ◌⊎◌, inl, inr, Result,
  ok, err,
}
use mole_swarm.Base.State.{State, Runs, pure, modify, Post}
use mole_swarm.Protocol.Message.{BlockRequest, Message}
use mole_swarm.Torrent.Piece.{TorrentError, peer_write_queue_full}
use mole_swarm.Torrent.PieceSet.{PieceSet}
use mole_swarm.Torrent.PieceSet.WellFormed.{IsWellFormed}
use mole_swarm.Torrent.PieceSet.Open.{IsOpen}
use mole_swarm.Torrent.PieceSet.Sized.{IsSized}
use mole_swarm.Torrent.Session.{World, Session, Action, is_crash, send_message, on_pieces}
use mole_swarm.Torrent.Session.Pending.{
  Pending, assigned_peer, drop_request, release, pending_count, assigned_peer-drop_request,
  assigned_peer-release, pending_count-drop_request, pending_count-release_same,
  pending_count-release_other,
}
use mole_swarm.Tracker.Server.{Map}

-- The pieces are well formed; every request that is pending asks for a block that is missing; no peer
-- has more than 8 of them; there are at most 5 peers; the pieces are as many as the content asks for.
pub record IsSoundState (pieces : PieceSet) (pending : Pending) (peers : Map ℕ) : Type 0 where
  pub well_formed : IsWellFormed pieces
  pub wanted : (r : BlockRequest) (h : ℕ) → assigned_peer pending r ≡ some h → IsOpen pieces r
  pub window : (h : ℕ) → pending_count pending h ≤ 8
  pub few : length peers ≤ 5
  pub sized : IsSized pieces.info (length pieces.states)

pub drop_request-IsSoundState :
    (ps : PieceSet) (m : Pending) (peers : Map ℕ) (r : BlockRequest)
    → IsSoundState ps m peers
    → IsSoundState ps (drop_request m r) peers
drop_request-IsSoundState ps m peers r i = record {
  well_formed = i.well_formed;
  wanted = λ q k e. i.wanted q k ((assigned_peer-drop_request m r q k e).1);
  window = λ h. omega (arith, pending_count-drop_request m r h, i.window h);
  few = i.few;
  sized = i.sized;
}

pub release-IsSoundState :
    (ps : PieceSet) (m : Pending) (peers : Map ℕ) (h : ℕ)
    → IsSoundState ps m peers
    → IsSoundState ps (release m h) peers
release-IsSoundState ps m peers h i = record {
  well_formed = i.well_formed;
  wanted = λ q k e. let (apart, j, found) = assigned_peer-release m h q k e in i.wanted q j found;
  window = λ k. elim (Bool-cases (k == h)) [
    | inl same ↦
        let at_peer : k ≡ h = ground arith in
        omega (
          arith,
          pending_count-release_same m h,
          subst (λ n. pending_count (release m h) k ≡ pending_count (release m h) n) at_peer refl,
        )
    | inr other ↦
        omega (arith, pending_count-release_other m h k (λ e. ground (arith, e)), i.window k)
  ];
  few = i.few;
  sized = i.sized;
}

module _ (w : World) where
  abbrev pub IsSound : Session w → Type 0
  IsSound s = IsSoundState s.pieces s.pending s.peers

  -- After a failure that is an error value of the source.
  abbrev pub IsRefused : TorrentError → Session w → Type 0
  IsRefused e s = IsSound s × (is_crash e ≡ false)

  abbrev pub Keeps : {A : Type 0} → Action w A → Type 0
  Keeps m = Runs IsSound (λ a. IsSound) IsRefused m

  pub send_message-Runs :
      {P : Session w → Type 0} {Z : TorrentError → Session w → Type 0} (h : ℕ) (message : Message)
      → ((s : Session w) (n : ℕ) (l : List (ℕ × Message))
          → P s
          → P (record s { attempts = n; sent = l }))
      → ((s : Session w) (n : ℕ) → P s → Z peer_write_queue_full (record s { attempts = n }))
      → Runs P (λ u. P) Z (send_message w h message)
  unfolding send_message
  send_message-Runs h message sends refuses = record {
    after = λ s p. elim (Bool-cases (w.room h s.attempts)) [
      | inl queued ↦ rw (queued, send_message) (sends s _ _ p)
      | inr full ↦ rw (full, send_message) (refuses s _ p)
    ];
  }

  pub send_message-Keeps : (h : ℕ) (message : Message) → Keeps (send_message w h message)
  send_message-Keeps h message = send_message-Runs h message (λ s n l i. i) (λ s n i. (i, refl))
