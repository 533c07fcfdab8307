-- ===== src/Torrent/Session/Reading.antt =====
-- torrent/peer.go: `readLoop`, and what a session does with the bytes of a connection.
use mole_swarm.Base.{
  ℕ, zero, suc, ◌^◌, ◌<◌, ◌≡◌, ◌≢◌, refl, some, List, [], ◌∷◌, All, arith, ltb, ◌==◌, length, take,
  drop, length-take, length-drop, Result, ◌>>=◌, Option-cases, Result-cases, inl, inr, ok, err,
  fail_if, Ensures, holds, refused, Ensures-if, Ensures-bind, Ensures-ok, anything,
}
use mole_swarm.Base.Bytes.{Bytes, read_full, read_full-eq-some, uint32}
use mole_swarm.Protocol.Message.{
  Message, MessageError, slice_panic, big_endian, invalid_payload_length, choke_id, unchoke_id,
  interested_id, not_interested_id, have_id, request_id, cancel_id, bitfield_id, piece_id,
  max_peer_message_size, fixed_payload_length, has_wrong_length, decode_piece, decode_block_request,
  decode_payload, decode_body, read_body, read_message,
}
use mole_swarm.Torrent.Session.{World, Session}
use mole_swarm.Torrent.Session.Peers.{PeerEvent, message_received, disconnected, handle_events}
use mole_swarm.Torrent.Session.Sound.{IsSound}
use mole_swarm.Torrent.Session.Sound.Events.{IsSmall, IsSmallEvent, handle_events-Completes}
use mole_swarm.Torrent.Session.Sound.Lifetime.{Succeeds, Completes-Succeeds}

-- The events of a connection that delivers these bytes, at most `n` of them before the context ends;
-- a panic while a message is read is the panic of the program.
unfoldable pub read_loop : ℕ → ℕ → Bytes → Result MessageError (List PeerEvent)
unfolding read_message
read_loop zero h bs = ok []
read_loop (suc n) h bs = elim (read_message bs) [
  | err slice_panic ↦ err slice_panic
  | err e ↦ ok (disconnected (some h) ∷ [])
  | ok (message, rest) ↦
      read_loop n h rest >>= λ more. ok (message_received (some h) message ∷ more)
]

decode_piece-ne-slice_panic : (payload : Bytes) → decode_piece payload ≢ err slice_panic
unfolding decode_piece
decode_piece-ne-slice_panic payload e =
    ground (arith, e, length-take 4 payload, length-take 4 (drop 4 payload), length-drop 4 payload)

decode_block_request-ne-slice_panic :
    (payload : Bytes) → decode_block_request payload ≢ err slice_panic
unfolding decode_block_request
decode_block_request-ne-slice_panic payload e = ground (
  arith,
  e,
  length-take 4 payload,
  length-take 4 (drop 4 payload),
  length-drop 4 payload,
  length-drop 8 payload,
)

-- The guard of `decodeBody` keeps the reads of a payload within its bounds.
decode_body-ne-slice_panic : (body : Bytes) → decode_body body ≢ err slice_panic
unfolding decode_body decode_payload
decode_body-ne-slice_panic [] e = cc
decode_body-ne-slice_panic (id ∷ payload) e = elim (Result-cases (decode_block_request payload)) [
  | inl (block, found) ↦ ground (arith, e, found, decode_piece-ne-slice_panic payload)
  | inr (failure, failed) ↦ ground (
    arith,
    e,
    failed,
    decode_piece-ne-slice_panic payload,
    decode_block_request-ne-slice_panic payload,
  )
]

read_message-ne-slice_panic : (bs : Bytes) → read_message bs ≢ err slice_panic
unfolding read_message read_body
read_message-ne-slice_panic bs e = elim (Option-cases (read_full 4 bs)) [
  | inl short ↦ ground (arith, e, short)
  | inr ((front, left), full) ↦ elim (Option-cases (read_full (uint32 front) left)) [
    | inl short ↦ ground (arith, e, full, short)
    | inr ((body, rest), whole) ↦ elim (Result-cases (decode_body body)) [
      | inl (m, found) ↦ ground (arith, e, full, whole, found)
      | inr (failure, failed) ↦
          ground (arith, e, full, whole, failed, decode_body-ne-slice_panic body)
    ]
  ]
]

module _ (w : World) where
  decode_piece-IsSmall :
      (payload : Bytes) → length payload < 2 ^ 32 → Ensures (IsSmall w) (decode_piece payload)
  unfolding decode_piece
  decode_piece-IsSmall payload small =
      Ensures-if (ltb (length payload) 8) (λ short. refused)
        λ long. Ensures-bind (anything (big_endian (take 4 payload))) λ index u.
          Ensures-bind (anything (big_endian (take 4 (drop 4 payload))))
            λ begin v. holds (omega (arith, small, length-drop 8 payload))

  decode_payload-IsSmall :
      (id : ℕ) (payload : Bytes)
      → length payload < 2 ^ 32
      → Ensures (IsSmall w) (decode_payload id payload)
  unfolding decode_payload
  decode_payload-IsSmall id payload small =
      Ensures-if (id == interested_id) (λ e. holds tt)
        λ _.
          Ensures-if (id == not_interested_id) (λ e. holds tt)
            λ _.
              Ensures-if (id == choke_id) (λ e. holds tt)
                λ _.
                  Ensures-if (id == unchoke_id) (λ e. holds tt)
                    λ _.
                      Ensures-if (id == have_id)
                        (λ e. Ensures-bind (anything (big_endian payload)) λ index u. holds tt)
                        λ _.
                          Ensures-if (id == request_id)
                            (λ e.
                              Ensures-bind (anything (decode_block_request payload))
                                λ b u. holds tt)
                            λ _.
                              Ensures-if (id == cancel_id)
                                (λ e.
                                  Ensures-bind (anything (decode_block_request payload))
                                    λ b u. holds tt)
                                λ _.
                                  Ensures-if (id == bitfield_id) (λ e. holds tt)
                                    λ _.
                                      Ensures-if (id == piece_id)
                                        (λ e. decode_piece-IsSmall payload small) (λ e. refused)

  decode_body-IsSmall :
      (body : Bytes) → length body < 2 ^ 32 → Ensures (IsSmall w) (decode_body body)
  unfolding decode_body
  decode_body-IsSmall [] small = refused
  decode_body-IsSmall (id ∷ payload) small =
      Ensures-bind
        (anything
          (fail_if (has_wrong_length (fixed_payload_length id) payload) invalid_payload_length))
        λ u v. decode_payload-IsSmall id payload (omega (arith, small))

  read_body-IsSmall :
      (n : ℕ) (bs : Bytes)
      → n < 2 ^ 32
      → Ensures (λ (out : Message × Bytes). IsSmall w (out.0)) (read_body n bs)
  unfolding read_body
  read_body-IsSmall n bs small = elim (Option-cases (read_full n bs)) [
    | inl short ↦ rw (short, read_body) refused
    | inr ((body, rest), whole) ↦
        let (parts, size) = read_full-eq-some n bs body rest whole in
        rw (whole, read_body)
          (Ensures-bind (decode_body-IsSmall body (omega (arith, size, small))) λ m k. holds k)
  ]

  -- The messages that `ReadMessage` returns are small.
  read_message-IsSmall :
      (bs : Bytes) → Ensures (λ (out : Message × Bytes). IsSmall w (out.0)) (read_message bs)
  unfolding read_message
  read_message-IsSmall bs = elim (Option-cases (read_full 4 bs)) [
    | inl short ↦ rw (short, read_message) refused
    | inr ((front, left), full) ↦
        rw (full, read_message)
          (Ensures-if (uint32 front == 0) (λ alive. holds tt)
            λ more.
              Ensures-if (ltb max_peer_message_size (uint32 front)) (λ large. refused)
                λ fits. read_body-IsSmall (uint32 front) left (ground (arith, fits)))
  ]

  -- The events of a connection: there is no panic in the reading, and the messages are small.
  read_loop-IsSmall :
      (n h : ℕ) (bs : Bytes)
      → (events : List PeerEvent) × (read_loop n h bs ≡ ok events) × All (IsSmallEvent w) events
  unfolding read_loop
  read_loop-IsSmall zero h bs = ([], refl, tt)
  read_loop-IsSmall (suc n) h bs = elim (Result-cases (read_message bs)) [
    | inr (e, failed) ↦ (
      disconnected (some h) ∷ [],
      ground (arith, failed, read_message-ne-slice_panic bs),
      (tt, tt),
    )
    | inl ((m, rest), found) ↦
        let (events, read, all_small) = read_loop-IsSmall n h rest in
        (
          message_received (some h) m ∷ events,
          ground (arith, found, read),
          (Ensures-ok (read_message-IsSmall bs) found, all_small),
        )
  ]

-- Whatever bytes a peer sends, reading the messages in them does not panic; any number of these
-- messages that come before the context ends, and the end of the connection, are handled in a sound
-- session without a panic, without an end of the fuel and without a failure that reaches the loop, and
-- leave the session sound.
pub handle_events-read_loop :
    (w : World) (n h : ℕ) (bs : Bytes) (s : Session w)
    → IsSound w s
    → (events : List PeerEvent) × (read_loop n h bs ≡ ok events)
      × Succeeds w (handle_events w events) s
handle_events-read_loop w n h bs s i =
    let (events, read, all_small) = read_loop-IsSmall w n h bs in
    (
      events,
      read,
      Completes-Succeeds w (handle_events w events) s (handle_events-Completes w events all_small)
          i,
    )
