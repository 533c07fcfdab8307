-- ===== src/Tracker/Request/Parsed.antt =====
-- tracker/announce.go: what a request that is accepted has.
use mole_swarm.Base.{
  ℕ, ◌%◌, ◌<◌, ◌≡◌, refl, Option, arith, ◌==◌, length, Result, ok, Ensures, holds, Ensures-ok,
  Ensures-intro, Ensures-bind, Ensures-fail_if,
}
use mole_swarm.Base.Bytes.{Bytes, codes}
use mole_swarm.Tracker.Request.{
  AnnounceRequest, Query, RequestError, invalid_announce_request, value_or_empty,
  parse_string_query, parse_array_query, parse_event, parse_uint64_query, parse_uint16_query,
  parse_announce_request,
}

-- A request that is accepted: ids of 20 bytes, and the lowest 16 bits of the number that the query
-- has for the port.
pub record IsAccepted (parse_uint : Bytes → Option ℕ) (query : Query) (r : AnnounceRequest)
    : Type 0 where
  pub info_hash_size : length r.info_hash ≡ 20
  pub peer_id_size : length r.peer_id ≡ 20
  pub port_positive : 0 < r.port
  pub port_size : r.port < 65536
  pub number : ℕ
  pub port_number : parse_uint64_query parse_uint query (codes "port") ≡ ok number
  pub port_bits : r.port ≡ number % 65536

anything : {A : Type 0} (r : Result RequestError A) → Ensures (λ (a : A). Unit {0}) r
anything r = Ensures-intro r λ a e. tt

array-Ensures :
    (query : Query) (key : Bytes) → Ensures (λ v. length v ≡ 20) (parse_array_query query key)
unfolding parse_array_query
array-Ensures query key =
    Ensures-bind (anything (parse_string_query query key))
      λ v u. Ensures-intro _ λ a e. ground arith

-- A request that is accepted has ids of 20 bytes and a port from 1 to 65535, which is the number given
-- for it modulo 65536.
pub parse_announce_request-IsAccepted :
    (parse_uint : Bytes → Option ℕ) (query : Query) (r : AnnounceRequest)
    → parse_announce_request parse_uint query ≡ ok r
    → IsAccepted parse_uint query r
unfolding parse_announce_request parse_uint16_query
parse_announce_request-IsAccepted parse_uint query r e =
    Ensures-ok {P = IsAccepted parse_uint query}
      (Ensures-bind (array-Ensures query (codes "info_hash")) λ info_hash hash_size.
        Ensures-bind (array-Ensures query (codes "peer_id")) λ peer_id id_size.
          Ensures-bind (port-Ensures) λ port found.
            Ensures-bind (Ensures-fail_if (port == 0) invalid_announce_request) λ u some_port.
              Ensures-bind (anything (parse_uint64_query parse_uint query (codes "uploaded")))
                λ uploaded u.
                  Ensures-bind (anything (parse_uint64_query parse_uint query (codes "downloaded")))
                    λ downloaded u.
                      Ensures-bind (anything (parse_uint64_query parse_uint query (codes "left")))
                        λ left u.
                          Ensures-bind
                            (anything (parse_event (value_or_empty (query (codes "event")))))
                            λ event u. holds (record {
                              info_hash_size = hash_size;
                              peer_id_size = id_size;
                              port_positive = ground (arith, some_port);
                              port_size = omega (arith, found.2);
                              number = found.0;
                              port_number = found.1;
                              port_bits = found.2;
                            }))
      e
  where
    port-Ensures :
        Ensures
          (λ port.
            (n : ℕ) × (parse_uint64_query parse_uint query (codes "port") ≡ ok n)
            × (port ≡ n % 65536))
          (parse_uint16_query parse_uint query (codes "port"))
    port-Ensures =
        Ensures-bind (Ensures-intro (parse_uint64_query parse_uint query (codes "port")) (λ n h. h))
          λ n h. holds (n, h, refl)
