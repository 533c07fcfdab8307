-- ===== src/Protocol/Handshake.antt =====
-- protocol/handshake.go: the peer handshake and its frame. The arrays `[8]byte` and `[20]byte` are
-- byte lists, of those lengths in every handshake that `IsHandshake` admits.
pub mod RoundTrip
mod Tests
use mole_swarm.Base.{
  ℕ, ◌+◌, ◌%◌, ◌<◌, ◌≡◌, Option, none, some, List, [], ◌∷◌, ◌++◌, length, Result, ok, err, ◌>>=◌,
  ◌>>◌,
}
use mole_swarm.Base.Bytes.{Bytes, read_full, codes}

abbrev pub peer_protocol : Bytes
peer_protocol = codes "BitTorrent protocol"

pub record Handshake : Type 0 where
  pub protocol : Bytes
  pub reserved : Bytes
  pub info_hash : Bytes
  pub peer_id : Bytes

pub data HandshakeError : Type 0 where
  short_read : HandshakeError

-- The next `n` bytes of the connection, or the error of `io.ReadFull`.
unfoldable pub next_bytes : ℕ → Bytes → Result HandshakeError (Bytes × Bytes)
next_bytes n bs = elim (read_full n bs) [ none ↦ err short_read | some r ↦ ok r ]

-- The length byte of the protocol name.
abbrev pub protocol_length : Bytes → ℕ
protocol_length [] = 0
protocol_length (b ∷ _) = b

unfoldable pub read_handshake : Bytes → Result HandshakeError (Handshake × Bytes)
read_handshake bs = next_bytes 1 bs >>= λ (size, bs₁).
    next_bytes (protocol_length size) bs₁ >>= λ (name, bs₂). next_bytes 8 bs₂ >>= λ (reserved, bs₃).
    next_bytes 20 bs₃ >>= λ (info_hash, bs₄). next_bytes 20 bs₄ >>= λ (peer_id, bs₅).
    ok (
      record { protocol = name; reserved = reserved; info_hash = info_hash; peer_id = peer_id },
      bs₅,
    )

-- The frame that is written in one call.
unfoldable pub write_handshake : Handshake → Bytes
write_handshake h =
    (length h.protocol % 256) ∷ (h.protocol ++ (h.reserved ++ (h.info_hash ++ h.peer_id)))

-- The array types and a name whose length fits its byte.
pub record IsHandshake (h : Handshake) : Type 0 where
  pub name_fits : length h.protocol < 256
  pub reserved_size : length h.reserved ≡ 8
  pub info_hash_size : length h.info_hash ≡ 20
  pub peer_id_size : length h.peer_id ≡ 20
