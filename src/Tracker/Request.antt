-- ===== src/Tracker/Request.antt =====
-- tracker/announce.go: the parsing of announce requests. The query of the URL is the parameter `Query`,
-- `strconv.ParseUint` at base 10 and 64 bits the parameter `parse_uint`.
pub mod Parsed
mod Tests
use mole_swarm.Base.{
  ℕ, ◌%◌, ◌^◌, ◌≡◌, Bool, true, false, not, ◌&&◌, ◌||◌, Option, none, some, List, [], ◌∷◌, ltb, leb,
  ◌==◌, if◌then◌else◌, length, Result, ok, err, ◌>>=◌, ◌>>◌, fail_if,
}
use mole_swarm.Base.Bytes.{Bytes, codes}
use mole_swarm.Protocol.Bencode.{bytes_eq}

pub data AnnounceEvent : Type 0 where
  no_event started_event completed_event stopped_event : AnnounceEvent

pub record AnnounceRequest : Type 0 where
  pub info_hash : Bytes
  pub peer_id : Bytes
  pub port : ℕ
  pub uploaded : ℕ
  pub downloaded : ℕ
  pub left : ℕ
  pub compact : Bool
  pub event : AnnounceEvent

-- The first value of a key, if the key is there.
abbrev pub Query : Type 0
Query = Bytes → Option Bytes

pub data RequestError : Type 0 where
  invalid_announce_request : RequestError

-- `query.Get(key)`: empty for a missing key.
abbrev pub value_or_empty : Option Bytes → Bytes
value_or_empty none = []
value_or_empty (some v) = v

abbrev pub is_empty : Bytes → Bool
is_empty [] = true
is_empty (b ∷ bs) = false

abbrev pub or_invalid {ℓ} : {A : Type ℓ} → Option A → Result RequestError A
or_invalid none = err invalid_announce_request
or_invalid (some a) = ok a

unfoldable pub parse_string_query : Query → Bytes → Result RequestError Bytes
parse_string_query query key = do
  fail_if (is_empty (value_or_empty (query key))) invalid_announce_request
  ok (value_or_empty (query key))

-- `copy(array[:], value)` of a value with the array's length.
unfoldable pub parse_array_query : Query → Bytes → Result RequestError Bytes
unfolding parse_string_query
parse_array_query query key = do
  value ← parse_string_query query key
  fail_if (not (length value == 20)) invalid_announce_request
  ok value

unfoldable pub parse_event : Bytes → Result RequestError AnnounceEvent
unfolding bytes_eq
parse_event event =
    if is_empty event
    then ok no_event
    else if bytes_eq event (codes "started")
    then ok started_event
    else if bytes_eq event (codes "completed")
    then ok completed_event
    else if bytes_eq event (codes "stopped")
    then ok stopped_event
    else err invalid_announce_request

module _ (parse_uint : Bytes → Option ℕ) where
  unfoldable pub parse_uint64_query : Query → Bytes → Result RequestError ℕ
  parse_uint64_query query key = do value ← or_invalid (query key); or_invalid (parse_uint value)

  unfoldable pub parse_uint16_query : Query → Bytes → Result RequestError ℕ
  unfolding parse_uint64_query
  parse_uint16_query query key = do value ← parse_uint64_query query key; ok (value % 2 ^ 16)

  unfoldable pub parse_announce_request : Query → Result RequestError AnnounceRequest
  unfolding parse_array_query parse_uint16_query parse_uint64_query parse_event
  parse_announce_request query = do
    info_hash ← parse_array_query query (codes "info_hash")
    peer_id ← parse_array_query query (codes "peer_id")
    port ← parse_uint16_query query (codes "port")
    fail_if (port == 0) invalid_announce_request
    uploaded ← parse_uint64_query query (codes "uploaded")
    downloaded ← parse_uint64_query query (codes "downloaded")
    left ← parse_uint64_query query (codes "left")
    event ← parse_event (value_or_empty (query (codes "event")))
    ok (record {
      info_hash = info_hash;
      peer_id = peer_id;
      port = port;
      uploaded = uploaded;
      downloaded = downloaded;
      left = left;
      compact = bytes_eq (value_or_empty (query (codes "compact"))) (codes "1");
      event = event;
    })
