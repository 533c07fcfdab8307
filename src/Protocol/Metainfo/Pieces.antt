-- ===== src/Protocol/Metainfo/Pieces.antt =====
-- protocol/metainfo.go: the hashes of the pieces, joined and cut apart, and the info dictionaries
-- that `ParseInfo` accepts.
use mole_swarm.Base.{
  ℕ, zero, suc, ◌*◌, ◌%◌, ◌≤◌, ◌<◌, ◌≡◌, refl, ap, ◌∙◌, sym, List, [], ◌∷◌, ◌++◌, arith, length,
  drop, length-append, length-take, length-drop, take-append-drop, take_left, drop_left, All,
}
use mathlib.Core.Path.{ap₂}
use mole_swarm.Base.Bytes.{Bytes}
use mole_swarm.Base.Int.{pos}
use mole_swarm.Protocol.Metainfo.{
  Info, hash_size, marshal_piece_hashes, split_hashes, expected_pieces,
}

abbrev pub IsHash : Bytes → Type 0
IsHash h = length h ≡ hash_size

pub length-marshal :
    (hs : List Bytes) → All IsHash hs → length (marshal_piece_hashes hs) ≡ hash_size * length hs
unfolding marshal_piece_hashes
length-marshal [] h = refl
length-marshal (x ∷ hs) h =
    omega (arith, length-append x (marshal_piece_hashes hs), length-marshal hs h.1, h.0)

split_hashes-append :
    (f : ℕ) (x rest : Bytes) → IsHash x → split_hashes (suc f) (x ++ rest) ≡ x ∷ split_hashes f rest
unfolding split_hashes
split_hashes-append f [] rest h = absurd (omega arith)
split_hashes-append f (b ∷ x) rest h =
    ap₂ (λ y z. y ∷ split_hashes f z) (take_left (b ∷ x) rest hash_size (sym h))
      (drop_left (b ∷ x) rest hash_size (sym h))

-- Hashes that are joined are cut apart again.
pub split_hashes-marshal :
    (f : ℕ) (hs : List Bytes)
    → All IsHash hs
    → length hs ≤ f
    → split_hashes f (marshal_piece_hashes hs) ≡ hs
unfolding marshal_piece_hashes split_hashes
split_hashes-marshal zero [] h le = refl
split_hashes-marshal (suc f) [] h le = refl
split_hashes-marshal zero (x ∷ hs) h le = absurd (omega arith)
split_hashes-marshal (suc f) (x ∷ hs) h le =
    split_hashes-append f x (marshal_piece_hashes hs) h.0
    ∙ ap (◌∷◌ x) (split_hashes-marshal f hs h.1 (omega arith))

-- A text of whole hashes is cut into hashes that join to it.
pub marshal-split_hashes :
    (f : ℕ) (bs : Bytes)
    → length bs % hash_size ≡ 0
    → length bs ≤ f
    → All IsHash (split_hashes f bs) × (marshal_piece_hashes (split_hashes f bs) ≡ bs)
unfolding marshal_piece_hashes split_hashes
marshal-split_hashes zero [] m le = (tt, refl)
marshal-split_hashes zero (b ∷ bs) m le = absurd (omega arith)
marshal-split_hashes (suc f) [] m le = (tt, refl)
marshal-split_hashes (suc f) (b ∷ bs) m le =
    let size = length-take hash_size (b ∷ bs) in
    let left = length-drop hash_size (b ∷ bs) in
    let (hashes, joined) =
      marshal-split_hashes f (drop hash_size (b ∷ bs)) (omega arith) (omega arith) in
    ((omega arith, hashes), rw joined (take-append-drop hash_size (b ∷ bs)))

-- A single file's description: a name, sizes, and a hash for each piece.
pub record IsInfo (i : Info) : Type 0 where
  pub total : ℕ
  pub size : ℕ
  pub len_eq : i.len ≡ pos total
  pub size_eq : i.piece_length ≡ pos size
  pub size_pos : 0 < size
  pub name_pos : 0 < length i.name
  pub hashes : All IsHash i.piece_hashes
  pub count : length i.piece_hashes ≡ expected_pieces total size
