-- ===== src/Protocol/Handshake/RoundTrip.antt =====
-- protocol/handshake.go: reading what was written, and writing what was read.
use mole_swarm.Base.{
  ℕ, ◌%◌, ◌<◌, ◌≡◌, refl, ◌∙◌, subst, [], ◌∷◌, ◌++◌, length, ok, arith, append_assoc, Ensures,
  Ensures-ok, Ensures-intro, Ensures-bind, holds, All,
}
use mole_swarm.Base.Bytes.{Bytes, IsByte, read_full-append, read_full-eq-some}
use mole_swarm.Protocol.Handshake.{
  Handshake, next_bytes, read_handshake, write_handshake, IsHandshake, protocol_length,
}

next_bytes-append :
    (n : ℕ) (xs rest : Bytes) → n ≡ length xs → next_bytes n (xs ++ rest) ≡ ok (xs, rest)
unfolding next_bytes
next_bytes-append n xs rest e = rw (read_full-append n xs rest e, next_bytes)

next_bytes-Ensures :
    (n : ℕ) (bs : Bytes)
    → Ensures (λ (xs, rest). (bs ≡ xs ++ rest) × (length xs ≡ n)) (next_bytes n bs)
unfolding next_bytes
next_bytes-Ensures n bs =
    Ensures-intro (next_bytes n bs) λ (xs, rest) e. read_full-eq-some n bs xs rest (ground arith)

-- A handshake of the array sizes, whose name is shorter than 256 bytes, is read back from its
-- frame, and what follows the frame is left on the connection.
pub read_handshake-write_handshake :
    (h : Handshake) (rest : Bytes)
    → IsHandshake h
    → read_handshake (write_handshake h ++ rest) ≡ ok (h, rest)
unfolding read_handshake write_handshake
read_handshake-write_handshake h rest v = rw (
  next_bytes-append 1 (length h.protocol % 256 ∷ [])
      ((h.protocol ++ (h.reserved ++ (h.info_hash ++ h.peer_id))) ++ rest) refl,
  append_assoc,
  append_assoc,
  append_assoc,
  next_bytes-append (length h.protocol % 256) h.protocol
      (h.reserved ++ (h.info_hash ++ (h.peer_id ++ rest))) (omega arith),
  next_bytes-append 8 h.reserved (h.info_hash ++ (h.peer_id ++ rest)) (omega arith),
  next_bytes-append 20 h.info_hash (h.peer_id ++ rest) (omega arith),
  next_bytes-append 20 h.peer_id rest (omega arith),
)

one_byte : (xs : Bytes) → length xs ≡ 1 → xs ≡ protocol_length xs ∷ []
one_byte [] e = absurd (omega arith)
one_byte (x ∷ []) e = refl
one_byte (x ∷ y ∷ xs) e = absurd (omega arith)

-- The length byte and the name that it measures.
front_bytes :
    (bs size bs₁ name bs₂ : Bytes)
    → All IsByte bs
    → (bs ≡ size ++ bs₁) × (length size ≡ 1)
    → (bs₁ ≡ name ++ bs₂) × (length name ≡ protocol_length size)
    → (length name < 256) × (bs ≡ (length name % 256) ∷ (name ++ bs₂))
front_bytes bs size bs₁ name bs₂ bytes (cut, one) (cut', fits) =
    let first = one_byte size one in
    let all = subst (All IsByte) (rw first at cut) bytes in
    let small : length name < 256 = omega arith in
    let same : protocol_length size ≡ length name % 256 = omega arith in
    (small, cut ∙ cc (first, cut', same))

read_handshake-Ensures :
    (bs : Bytes)
    → All IsByte bs
    → Ensures (λ (h, rest). IsHandshake h × (bs ≡ write_handshake h ++ rest)) (read_handshake bs)
unfolding read_handshake write_handshake
read_handshake-Ensures bs bytes = Ensures-bind (next_bytes-Ensures 1 bs) λ (size, bs₁) p₁.
    Ensures-bind (next_bytes-Ensures (protocol_length size) bs₁) λ (name, bs₂) p₂.
      Ensures-bind (next_bytes-Ensures 8 bs₂) λ (reserved, bs₃) p₃.
        Ensures-bind (next_bytes-Ensures 20 bs₃) λ (info_hash, bs₄) p₄.
          Ensures-bind (next_bytes-Ensures 20 bs₄) λ (peer_id, bs₅) p₅.
            let (fits, whole) = front_bytes bs size bs₁ name bs₂ bytes p₁ p₂ in
            holds (
              record {
                name_fits = fits;
                reserved_size = p₃.1;
                info_hash_size = p₄.1;
                peer_id_size = p₅.1;
              },
              whole ∙ simp (p₃.0, p₄.0, p₅.0, append_assoc),
            )

-- A handshake that is read from a stream of bytes has the array sizes and a name shorter than 256
-- bytes, and the stream is its frame followed by what is left.
pub write_handshake-read_handshake :
    (bs rest : Bytes) (h : Handshake)
    → All IsByte bs
    → read_handshake bs ≡ ok (h, rest)
    → IsHandshake h × (bs ≡ write_handshake h ++ rest)
write_handshake-read_handshake bs rest h bytes e = Ensures-ok (read_handshake-Ensures bs bytes) e
