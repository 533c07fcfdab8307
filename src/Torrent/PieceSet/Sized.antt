-- ===== src/Torrent/PieceSet/Sized.antt =====
-- torrent/pieces.go: the lengths of the pieces and the bytes that are left.
use mole_swarm.Base.{
  ℕ, ◌+◌, ◌-◌, ◌*◌, ◌/◌, ◌%◌, ◌^◌, ◌≤◌, ◌<◌, ◌≡◌, ◌↔◌, refl, sym, subst, true, List, [], ◌∷◌, All,
  arith, ltb, if◌then◌else◌, length, replicate, length-replicate, Bool-cases, ◌⊎◌, inl, inr, ok,
}
use native.Mathlib.Nat.{div-add-mod}
use mole_swarm.Protocol.Metainfo.{Info}
use mole_swarm.Torrent.FileStorage.{nat_of, fits_wire, expected_count}
use mole_swarm.Torrent.PieceSet.{
  PieceData, PieceSet, no_data, new_piece_set, piece_offset, piece_length, sum_left, bytes_left,
}

-- The pieces are as many as the content asks for, and an index fits a `uint32`.
pub record IsSized (info : Info) (count : ℕ) : Type 0 where
  pub piece_positive : 0 < nat_of info.piece_length
  pub piece_fits : nat_of info.piece_length < 2 ^ 32
  pub total_fits : nat_of info.len < 2 ^ 63
  pub whole_count : count ≡ expected_count (nat_of info.len) (nat_of info.piece_length)
  pub count_fits : count < 2 ^ 32

pub new_piece_set-IsSized :
    (info : Info) (ps : PieceSet)
    → nat_of info.len < 2 ^ 63
    → length info.piece_hashes < 2 ^ 32
    → new_piece_set info ≡ ok ps
    → IsSized ps.info (length ps.states)
unfolding new_piece_set
new_piece_set-IsSized info ps total few e =
    let count = expected_count (nat_of info.len) (nat_of info.piece_length) in
    let same : record { info = info; states = replicate count no_data } ≡ ps = ground (arith, e) in
    let fits : fits_wire info.piece_length ≡ true = ground (arith, e) in
    let hashes : length info.piece_hashes ≡ count = ground (arith, e) in
    subst (λ q. IsSized (PieceSet.info q) (length (PieceSet.states q))) same
      (record {
        piece_positive = ground arith;
        piece_fits = ground arith;
        total_fits = total;
        whole_count = length-replicate count no_data;
        count_fits = omega (arith, length-replicate count no_data, hashes, few);
      })

mul_le : (i q len : ℕ) → i ≤ q → i * len ≤ q * len
mul_le i q len h = grind arith

-- The start of a piece lies in the content.
piece_start :
    (total len count i : ℕ)
    → 0 < len
    → count ≡ expected_count total len
    → i < count
    → i * len < total
unfolding expected_count
piece_start total len count i positive e lt =
    let q = (total - 1) / len in
    let below : i ≤ q = ground (arith, e, lt) in
    grind (arith, mul_le i q len below, div-add-mod (total - 1) len)

-- The length of a piece: a whole one, or what is left.
abbrev length_at : PieceSet → ℕ → ℕ
length_at ps i =
    let left = nat_of ps.info.len - i * nat_of ps.info.piece_length in
    if ltb left (nat_of ps.info.piece_length) then left else nat_of ps.info.piece_length

piece_length-Sized :
    (ps : PieceSet) (i : ℕ)
    → IsSized ps.info (length ps.states)
    → i < length ps.states
    → (piece_length ps (i % 2 ^ 32) ≡ ok (length_at ps i))
      × (0 < length_at ps i)
      × (i * nat_of ps.info.piece_length + length_at ps i ≤ nat_of ps.info.len)
      × (length_at ps i ≤ nat_of ps.info.piece_length)
unfolding piece_length piece_offset
piece_length-Sized ps i z lt =
    let index : i % 2 ^ 32 ≡ i = omega (arith, lt, z.count_fits) in
    let start =
      piece_start (nat_of ps.info.len) (nat_of ps.info.piece_length) (length ps.states) i
        z.piece_positive z.whole_count lt in
    rw index (
      ground (arith, start, z.count_fits, z.piece_fits),
      ground (arith, start, z.piece_positive),
      ground (arith, start),
      ground arith,
    )

pub IsComplete : PieceData → Type 0
IsComplete p = p.complete ≡ true

-- What the loop finds from a piece on: no more than the content has from there, and nothing exactly if
-- all of these pieces are complete.
record IsRemainder (ps : PieceSet) (index : ℕ) (states : List PieceData) : Type 0 where
  sum : ℕ
  summed : sum_left ps index states ≡ ok sum
  bounded : (sum ≡ 0) ⊎ (index * nat_of ps.info.piece_length + sum ≤ nat_of ps.info.len)
  zero_iff : (sum ≡ 0) ↔ All IsComplete states

sum_left-IsRemainder :
    (ps : PieceSet) (index : ℕ) (states : List PieceData)
    → IsSized ps.info (length ps.states)
    → index + length states ≡ length ps.states
    → IsRemainder ps index states
unfolding sum_left IsComplete
sum_left-IsRemainder ps index [] z e = record {
  sum = 0;
  summed = refl;
  bounded = inl refl;
  zero_iff = ((λ h. tt), λ h. refl);
}
sum_left-IsRemainder ps index (p ∷ states) z e =
    let rest = sum_left-IsRemainder ps (index + 1) states z (omega (arith, e)) in
    let (size, positive, fits, at_most) = piece_length-Sized ps index z (omega (arith, e)) in
    let next : (index + 1) * nat_of ps.info.piece_length
        ≡ index * nat_of ps.info.piece_length + nat_of ps.info.piece_length =
      grind arith in
    elim (Bool-cases p.complete) [
      | inl whole ↦ record {
        sum = rest.sum;
        summed = ground (arith, whole, rest.summed);
        bounded = ground (arith, rest.bounded, next);
        zero_iff = ((λ h. (whole, rest.zero_iff.0 h)), λ h. rest.zero_iff.1 (h.1));
      }
      | inr partial ↦
          let bound : index * nat_of ps.info.piece_length + (length_at ps index + rest.sum)
              ≤ nat_of ps.info.len =
            elim rest.bounded [
              | inl none_left ↦ omega (arith, none_left, fits)
              | inr more ↦ omega (arith, more, next, at_most)
            ] in
          record {
            sum = length_at ps index + rest.sum;
            summed = ground (arith, partial, size, rest.summed, bound, z.total_fits);
            bounded = inr bound;
            zero_iff = ((λ h. absurd (omega (arith, h, positive))), λ h. cc (partial, h.0));
          }
    ]

-- The bytes that are left: there is no panic, they are no more than the content, and there are none
-- exactly if every piece is complete.
pub bytes_left-IsSized :
    (ps : PieceSet)
    → IsSized ps.info (length ps.states)
    → (left : ℕ) × (bytes_left ps ≡ ok left)
      × (left ≤ nat_of ps.info.len)
      × ((left ≡ 0) ↔ All IsComplete ps.states)
unfolding bytes_left
bytes_left-IsSized ps z =
    let s = sum_left-IsRemainder ps 0 ps.states z (omega arith) in
    (
      s.sum,
      s.summed,
      elim s.bounded [
        | inl none_left ↦ omega (arith, none_left)
        | inr within ↦ omega (arith, within)
      ],
      s.zero_iff,
    )

pub IsSized-same :
    {info info' : Info} {count count' : ℕ}
    → IsSized info count
    → info' ≡ info
    → count' ≡ count
    → IsSized info' count'
IsSized-same {info} {info'} {count} {count'} z same_info same_count =
    subst (λ i. IsSized i count') (sym same_info) (subst (λ n. IsSized info n) (sym same_count) z)
