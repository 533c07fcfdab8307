-- ===== src/Torrent/Session/Sound/Blocks.antt =====
-- torrent/transfer.go: sending a block and taking one in keep the state of a session, and never panic.
use mole_swarm.Base.{
  ℕ, ◌+◌, ◌%◌, ◌^◌, ◌≤◌, ◌<◌, ◌≡◌, ◌≢◌, refl, subst, sym, ap, ◌∙◌, Bool, true, false, not, some,
  arith, if◌then◌else◌, length, length-set, lt_of_get_elem?, Option-cases, inl, inr, Result, ok,
  err,
}
use mole_swarm.Base.Bytes.{Bytes}
use mole_swarm.Base.State.{
  Runs, Runs-bind, Runs-if, Runs-pure, Runs-mono, pure, fail, modify, lift, ◌>>◌, Post,
}
use mole_swarm.Protocol.Message.{BlockRequest, piece}
use mole_swarm.Torrent.Piece.{TorrentError, unexpected_block}
use mole_swarm.Torrent.PieceSet.{PieceSet, filled, store_block}
use mole_swarm.Torrent.PieceSet.Content.{read_block}
use mole_swarm.Torrent.PieceSet.WellFormed.{IsWellFormed}
use mole_swarm.Torrent.PieceSet.Sized.{IsSized, IsSized-same}
use mole_swarm.Torrent.PieceSet.Open.{IsOpen}
use mole_swarm.Torrent.PieceSet.Stored.{
  store_block-IsOpen, store_block-IsWellFormed, store_block-keeps, IsChecked, unchanged, cleared,
  verify_and_write-IsChecked, IsChecked-IsWellFormed, IsChecked-IsOpen,
}
use mole_swarm.Torrent.Session.{World, Session, on_pieces}
use mole_swarm.Torrent.Session.Pending.{
  Pending, assigned_peer, drop_request, pending_count, assigned_peer-drop_request,
  pending_count-drop_request,
}
use mole_swarm.Torrent.Session.Transfer.{
  is_assigned, delivered_request, serve_block, verify_piece_at, receive_block,
}
use mole_swarm.Torrent.Session.Crash.{Safe, Safe-err, read_block-Safe, verify_and_write-Safe}
use mole_swarm.Torrent.Session.Sound.{IsSoundState, IsSound, IsRefused, Keeps, send_message-Keeps}

module _ (w : World) where
  lift-Keeps : {A : Type 0} (r : Result TorrentError A) → Safe r → Keeps w (lift r)
  lift-Keeps (ok a) safe = record { after = λ s i. i }
  lift-Keeps (err e) safe = record { after = λ s i. (i, Safe-err e safe refl) }

  count_uploaded-Keeps :
      (n : ℕ)
      → Keeps w (modify (λ (q : Session w). record q { uploaded = (q.uploaded + n) % 2 ^ 64 }))
  count_uploaded-Keeps n = record { after = λ s i. i }

  pub serve_block-Keeps : (h : ℕ) (r : BlockRequest) → Keeps w (serve_block w h r)
  unfolding serve_block
  serve_block-Keeps h r = record {
    after = λ s i.
        (Runs-if (s.heap h).state.am_choking (λ choked. Runs-pure tt)
            (λ served.
              Runs-bind
                (lift-Keeps (read_block w.disk s.pieces r s.file)
                  (read_block-Safe w.disk s.pieces r s.file))
                λ bytes.
                  Runs-bind (send_message-Keeps w h (piece r.piece_index r.begin bytes))
                    λ u. count_uploaded-Keeps (length bytes))).after
          s i;
  }

IsChecked-length :
    {ps ps' : PieceSet} {index : ℕ} → IsChecked ps index ps' → length ps'.states ≡ length ps.states
IsChecked-length unchanged = refl
IsChecked-length {ps} {index = index} (cleared p c found all) = length-set ps.states index _

IsChecked-info : {ps ps' : PieceSet} {index : ℕ} → IsChecked ps index ps' → ps'.info ≡ ps.info
IsChecked-info unchanged = refl
IsChecked-info (cleared p c found all) = refl

module _ (w : World) (index : ℕ) where
  verified-Post :
      (s : Session w) (file : w.disk.File) (out : Result TorrentError (Unit {0})) (ps : PieceSet)
      (after : w.disk.File)
      → IsSound w s
      → Safe out
      → IsChecked s.pieces index ps
      → Post {A = Unit {0}}
          (λ u. IsSound w)
          (IsRefused w)
          (out, record s { pieces = ps; file = some after })
  verified-Post s file out ps after i safe checked = ends out safe
    where
      sound : IsSoundState ps s.pending s.peers
      sound = record {
        well_formed = IsChecked-IsWellFormed checked i.well_formed;
        wanted = λ r k e. IsChecked-IsOpen r checked (i.wanted r k e);
        window = i.window;
        few = i.few;
        sized = IsSized-same i.sized (IsChecked-info checked) (IsChecked-length checked);
      }

      ends :
          (out : Result TorrentError (Unit {0}))
          → Safe out
          → Post {A = Unit {0}}
              (λ u. IsSound w)
              (IsRefused w)
              (out, record s { pieces = ps; file = some after })
      ends (ok u) safe = sound
      ends (err e) safe = (sound, Safe-err e safe refl)

  verify_piece_at-Runs :
      Runs
        (λ s. IsSound w s × (index < length s.pieces.states))
        (λ u. IsSound w)
        (IsRefused w)
        (verify_piece_at w index)
  unfolding verify_piece_at
  verify_piece_at-Runs = record {
    after = λ s (i, lt). elim (Option-cases s.file) [
      | inl closed ↦ rw (closed, verify_piece_at) (i, refl)
      | inr (file, opened) ↦
          rw (opened, verify_piece_at)
            (verified-Post s file _ _ _ i
              (verify_and_write-Safe w.sha1 w.disk s.pieces index file lt)
              (verify_and_write-IsChecked w.sha1 w.disk s.pieces index file))
    ];
  }

module _ (w : World) (r : BlockRequest) where
  -- The pieces are well formed and every pending request but `r` is for a missing block.
  abbrev Delivered : Session w → Type 0
  Delivered s =
      IsWellFormed s.pieces
      × ((q : BlockRequest) (k : ℕ)
          → assigned_peer s.pending q ≡ some k
          → q ≢ r
          → IsOpen s.pieces q)
      × ((h : ℕ) → pending_count s.pending h ≤ 8)
      × (length s.peers ≤ 5)
      × IsSized s.pieces.info (length s.pieces.states)
      × (r.piece_index < length s.pieces.states)

  store-Post :
      (bytes : Bytes) (s : Session w)
      → IsSound w s
      → IsOpen s.pieces r
      → length bytes ≡ r.len
      → length bytes < 2 ^ 32
      → Post {A = Bool}
          (λ a. Delivered)
          (IsRefused w)
          (on_pieces w (λ ps. store_block ps r bytes) s)
  store-Post bytes s i o size lt =
      subst
        (λ out. Post {A = Bool} (λ a. Delivered) (IsRefused w) (out.0, record s { pieces = out.1 }))
        (sym (store_block-IsOpen s.pieces r bytes i.well_formed o size lt))
        (
          store_block-IsWellFormed s.pieces r bytes i.well_formed o size,
          (λ q k e apart. store_block-keeps s.pieces r q bytes o (i.wanted q k e) apart),
          i.window,
          i.few,
          IsSized-same i.sized refl
              (length-set s.pieces.states r.piece_index (filled o.state r.begin bytes)),
          omega (
            arith,
            lt_of_get_elem? s.pieces.states r.piece_index o.at_index,
            length-set s.pieces.states r.piece_index (filled o.state r.begin bytes),
          ),
        )

  -- The request is taken off the map.
  settled :
      (s : Session w)
      → Delivered s
      → IsSoundState s.pieces (drop_request s.pending r) s.peers
        × (r.piece_index < length s.pieces.states)
  settled s (v, wanted, window, few, sized, lt) = (
    record {
      well_formed = v;
      wanted = λ q k e.
          let (apart, found) = assigned_peer-drop_request s.pending r q k e in
          wanted q k found apart;
      window = λ h. omega (arith, pending_count-drop_request s.pending r h, window h);
      few = few;
      sized = sized;
    },
    lt,
  )

pub is_assigned-some :
    (w : World) (s : Session w) (h : ℕ) (r : BlockRequest)
    → is_assigned w s h r ≡ true
    → assigned_peer s.pending r ≡ some h
unfolding is_assigned
is_assigned-some w s h r e = elim (Option-cases (assigned_peer s.pending r)) [
  | inl absent ↦ absurd (ground (arith, absent))
  | inr (k, present) ↦ let same : k ≡ h = ground (arith, present) in present ∙ ap some same
]

module _ (w : World) (h index begin : ℕ) (bytes : Bytes) (small : length bytes < 2 ^ 32) where
  abbrev asked : BlockRequest
  asked = delivered_request index begin bytes

  store-Runs :
      Runs
        (λ s. IsSound w s × (assigned_peer s.pending asked ≡ some h))
        (λ (a : Bool). Delivered w asked)
        (IsRefused w)
        (on_pieces w (λ ps. store_block ps asked bytes))
  store-Runs = record {
    after = λ s (i, found).
        store-Post w asked bytes s i (i.wanted asked h found) (omega (arith, small)) small;
  }

  settle-Runs :
      Runs
        (Delivered w asked)
        (λ u s. IsSound w s × (index < length s.pieces.states))
        (IsRefused w)
        (modify (λ (q : Session w). record q {
          pending = drop_request q.pending asked;
          downloaded = (q.downloaded + length bytes) % 2 ^ 64;
        }))
  settle-Runs = record { after = settled w asked }

  finish-Runs :
      (assembled : Bool)
      → Runs
          (λ s. IsSound w s × (index < length s.pieces.states))
          (λ (a : Bool). IsSound w)
          (IsRefused w)
          (if not assembled then pure false else (do verify_piece_at w index; pure true))
  finish-Runs true = Runs-bind (verify_piece_at-Runs w index) λ v. Runs-pure true
  finish-Runs false = record { after = λ s p. p.0 }

  reject-Runs :
      (m : Pending)
      → Runs
          (λ s. IsSound w s × (s.pending ≡ m))
          (λ (a : Bool). IsSound w)
          (IsRefused w)
          (fail unexpected_block)
  reject-Runs m = record { after = λ s p. (p.0, refl) }

  pub receive_block-Keeps : Keeps w (receive_block w h index begin bytes)
  unfolding receive_block
  receive_block-Keeps = record {
    after = λ s i.
        (Runs-if (not (is_assigned w s h asked)) (λ unasked. reject-Runs s.pending)
            (λ wanted.
              Runs-bind
                (Runs-mono
                  (λ q (k, same). (
                    k,
                    ap (λ p. assigned_peer p asked) same
                        ∙ is_assigned-some w s h asked (ground (arith, wanted)),
                  ))
                  (λ a q k. k) store-Runs)
                λ assembled. Runs-bind settle-Runs λ u. finish-Runs assembled)).after
          s (i, refl);
  }
