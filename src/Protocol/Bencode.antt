-- ===== src/Protocol/Bencode.antt =====
-- protocol/bencode.go: bencoded values and their accessors. A Go string is its bytes. The struct
-- has a kind and a field for each kind; a value of the model is the field that its kind selects,
-- and `unset` is the zero struct, whose kind is none of the four. A dictionary is the list of its
-- entries, in the order in which they were put in.
pub mod Encoder
pub mod Decoder
pub mod Canonical
pub mod Scalars
pub mod RoundTrip
pub mod Sound
pub mod Order
mod Tests
use mole_swarm.Base.{
  ℕ, ◌≡◌, Bool, true, false, Option, none, some, List, [], ◌∷◌, ltb, ◌==◌, if◌then◌else◌,
}
use mole_swarm.Base.Bytes.{Bytes}
use mole_swarm.Base.Int.{ℤ}

mutual
  pub data Bencoding : Type 0 where
    str : Bytes → Bencoding
    integer : ℤ → Bencoding
    list : Items → Bencoding
    dict : Entries → Bencoding
    unset : Bencoding

  pub data Items : Type 0 where
    no_items : Items
    item : Bencoding → Items → Items

  pub data Entries : Type 0 where
    no_entries : Entries
    entry : Bytes → Bencoding → Entries → Entries

pub data BencodeError : Type 0 where
  out_of_fuel eof buffer_full trailing_data nesting_over_limit bad_prefix : BencodeError
  empty_length leading_zero non_digit out_of_range length_over_limit : BencodeError
  empty_integer no_digits negative_zero unsorted_keys unknown_kind : BencodeError

-- The order of Go strings: bytewise, a proper prefix first.
unfoldable pub bytes_lt : Bytes → Bytes → Bool
bytes_lt [] [] = false
bytes_lt [] (b ∷ bs) = true
bytes_lt (a ∷ aa) [] = false
bytes_lt (a ∷ aa) (b ∷ bs) = if a == b then bytes_lt aa bs else ltb a b

unfoldable pub bytes_eq : Bytes → Bytes → Bool
bytes_eq [] [] = true
bytes_eq [] (b ∷ bs) = false
bytes_eq (a ∷ aa) [] = false
bytes_eq (a ∷ aa) (b ∷ bs) = if a == b then bytes_eq aa bs else false

-- The methods `String`, `Dict`, `Int` and `List` of a value: the field, if the kind fits.
unfoldable pub string_of : Bencoding → Option Bytes
string_of (str s) = some s
string_of _ = none

unfoldable pub dict_of : Bencoding → Option Entries
dict_of (dict es) = some es
dict_of _ = none

unfoldable pub int_of : Bencoding → Option ℤ
int_of (integer n) = some n
int_of _ = none

unfoldable pub list_of : Bencoding → Option Items
list_of (list xs) = some xs
list_of _ = none

-- An index expression on the map: the value of the key, if there is one.
unfoldable pub find : Bytes → Entries → Option Bencoding
find k no_entries = none
find k (entry j v es) = if bytes_eq j k then some v else find k es

-- The methods `String`, `Int`, `Dict` and `List` of a dictionary, at a key.
abbrev and_then : {A : Type 0} → Option Bencoding → (Bencoding → Option A) → Option A
and_then none f = none
and_then (some v) f = f v

unfoldable pub find_string : Bytes → Entries → Option Bytes
find_string k es = and_then (find k es) string_of

unfoldable pub find_int : Bytes → Entries → Option ℤ
find_int k es = and_then (find k es) int_of

unfoldable pub find_dict : Bytes → Entries → Option Entries
find_dict k es = and_then (find k es) dict_of

unfoldable pub find_list : Bytes → Entries → Option Items
find_list k es = and_then (find k es) list_of
