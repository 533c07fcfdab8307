-- ===== src/Protocol/Handshake/Tests.antt =====
-- protocol/handshake.go: the theorems at concrete inputs.
use mole_swarm.Base.{◌≡◌, refl, [], ◌∷◌, ◌++◌, ok, err, arith, replicate}
use mole_swarm.Base.Bytes.{Bytes, read_full}
use mole_swarm.Protocol.Handshake.{
  Handshake, IsHandshake, peer_protocol, read_handshake, write_handshake, next_bytes, short_read,
}
use mole_swarm.Protocol.Handshake.RoundTrip.{
  read_handshake-write_handshake, write_handshake-read_handshake,
}

abbrev greeting : Handshake
greeting = record {
  protocol = peer_protocol;
  reserved = replicate 8 0;
  info_hash = replicate 20 17;
  peer_id = replicate 20 255;
}

greeting-IsHandshake : IsHandshake greeting
greeting-IsHandshake = record {
  name_fits = omega arith;
  reserved_size = refl;
  info_hash_size = refl;
  peer_id_size = refl;
}

read_handshake_short : read_handshake (19 ∷ 66 ∷ []) ≡ err short_read
unfolding read_handshake next_bytes read_full
read_handshake_short = refl

read_handshake-write_handshake_example :
    read_handshake (write_handshake greeting ++ 5 ∷ []) ≡ ok (greeting, 5 ∷ [])
read_handshake-write_handshake_example =
    read_handshake-write_handshake greeting (5 ∷ []) greeting-IsHandshake

abbrev greeting_bytes : Bytes
greeting_bytes =
    19 ∷ (peer_protocol ++ (replicate 8 0 ++ (replicate 20 17 ++ (replicate 20 255 ++ 5 ∷ []))))

read_greeting : read_handshake greeting_bytes ≡ ok (greeting, 5 ∷ [])
unfolding read_handshake next_bytes read_full
read_greeting = refl

write_handshake-read_handshake_example :
    IsHandshake greeting × (greeting_bytes ≡ write_handshake greeting ++ 5 ∷ [])
write_handshake-read_handshake_example =
    write_handshake-read_handshake greeting_bytes (5 ∷ []) greeting (omega arith) read_greeting
