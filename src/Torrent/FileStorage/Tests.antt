-- ===== src/Torrent/FileStorage/Tests.antt =====
-- torrent/file.go at small inputs: a file of three bytes in pieces of two.
use mole_swarm.Base.{
  true, ℕ, zero, suc, ◌+◌, ◌-◌, ◌≤◌, ◌≡◌, refl, ap, sym, ◌∙◌, none, some, [], ◌∷◌, ◌++◌, arith,
  length, take, drop, replicate, drop-drop, write_at, ok,
}
use mole_swarm.Base.Bytes.{Bytes}
use mole_swarm.Base.Int.{pos}
use mole_swarm.Protocol.Message.{BlockRequest}
use mole_swarm.Protocol.Bencode.{bytes_eq}
use mole_swarm.Protocol.Metainfo.{verify_piece, Info}
use mole_swarm.Torrent.Piece.{assembled, complete, missing, finalizing, request_length_for}
use mole_swarm.Torrent.FileStorage.Finalize.{verify_and_write_piece-eq-none}
use mole_swarm.Torrent.FileStorage.Settled.{Applies, apply_finalize_result-Applies}
use mole_swarm.Torrent.FileStorage.{
  apply_finalize_result, FinalizeJob, FinalizeResult, Disk, FileStorage, piece_length,
  block_request,
}
use mole_swarm.Torrent.FileStorage.Content.{verify_and_write_piece, new_file_storage, read_block}
use mole_swarm.Torrent.FileStorage.Layout.{
  IsPieceRange, IsBlock, piece_length-IsPieceRange, block_request-IsBlock,
}
use mole_swarm.Torrent.FileStorage.Verified.{IsVerified, new_file_storage-IsVerified}
use mole_swarm.Torrent.FileStorage.Served.{DiskLaws, IsServed, read_block-IsServed}

-- A file whose reads and writes never fail.
abbrev memory : Disk
memory = record {
  File = Bytes;
  size = λ f. some (length f);
  read_at = λ f offset n. some (take n (drop offset f));
  write_at_file = λ f bytes offset. (
    write_at (f ++ replicate (offset + length bytes - length f) 0) offset bytes,
    some (length bytes),
  );
}

take-drop-take :
    (b n len : ℕ) (xs : Bytes) → b + n ≤ len → take n (drop b xs) ≡ take n (drop b (take len xs))
take-drop-take b zero len xs h = refl
take-drop-take zero (suc n) (suc len) [] h = refl
take-drop-take zero (suc n) (suc len) (x ∷ xs) h =
    ap (λ l. x ∷ l) (take-drop-take 0 n len xs (omega arith))
take-drop-take zero (suc n) zero xs h = absurd (omega arith)
take-drop-take (suc b) (suc n) zero xs h = absurd (omega arith)
take-drop-take (suc b) (suc n) (suc len) [] h = refl
take-drop-take (suc b) (suc n) (suc len) (x ∷ xs) h = take-drop-take b (suc n) len xs (omega arith)

memory-DiskLaws : DiskLaws memory
memory-DiskLaws = record {
  read_part = λ file offset len begin n content e size fits.
      let whole : take len (drop offset file) ≡ content = cc (e) in
      ap some (
        ap (take n) (sym (drop-drop begin offset file))
        ∙ take-drop-take begin n len (drop offset file) fits
        ∙ ap (λ l. take n (drop begin l)) whole);
}

-- A checksum of one byte.
abbrev checksum : Bytes → Bytes
checksum bytes = length bytes ∷ take 1 bytes

abbrev info : Info
info = record {
  name = [];
  len = pos 3;
  piece_length = pos 2;
  piece_hashes = (2 ∷ 7 ∷ []) ∷ (1 ∷ 4 ∷ []) ∷ [];
}

-- The second piece of the file has another byte than its hash says.
abbrev storage : FileStorage memory
storage = record {
  file = 7 ∷ 8 ∷ 9 ∷ [];
  info = info;
  block_length = 1;
  pieces =
      (record { state = complete; generation = 0; buffer = none; received_blocks = [] })
      ∷ (record { state = missing; generation = 0; buffer = none; received_blocks = [] })
      ∷ [];
}

opened : new_file_storage checksum {disk = memory} (some (7 ∷ 8 ∷ 9 ∷ [])) info 1 ≡ ok storage
unfolding new_file_storage bytes_eq
opened = refl

new_file_storage-IsVerified_example : IsVerified checksum storage
new_file_storage-IsVerified_example =
    new_file_storage-IsVerified checksum (some (7 ∷ 8 ∷ 9 ∷ [])) info 1 storage (omega arith) opened

abbrev second_block : BlockRequest
second_block = record { piece_index = 0; begin = 1; len = 1 }

made : block_request storage 0 1 ≡ ok second_block
unfolding block_request request_length_for
made = refl

block_request-IsBlock_example : IsBlock storage 0 1 second_block
block_request-IsBlock_example = block_request-IsBlock storage 0 1 second_block made

last_length : piece_length storage 1 ≡ ok 1
unfolding piece_length
last_length = refl

piece_length-IsPieceRange_example : IsPieceRange storage 1 1
piece_length-IsPieceRange_example =
    piece_length-IsPieceRange storage 1 1 (omega arith) (omega arith) last_length

served_block : read_block storage second_block ≡ ok (8 ∷ [])
unfolding read_block request_length_for
served_block = refl

read_block-IsServed_example : IsServed checksum storage second_block (8 ∷ [])
read_block-IsServed_example =
    read_block-IsServed checksum storage second_block (8 ∷ []) memory-DiskLaws
      new_file_storage-IsVerified_example served_block

abbrev last_job : FinalizeJob
last_job = record { piece_index = 1; generation = 1; buffer = 4 ∷ [] }

abbrev last_result : FinalizeResult
last_result = record { piece_index = 1; generation = 1; buffer = none; failure = none }

finalized : verify_and_write_piece checksum storage last_job ≡ (last_result, 7 ∷ 8 ∷ 4 ∷ [])
unfolding verify_and_write_piece bytes_eq write_at
finalized = refl

verify_and_write_piece-eq-none_example :
    (verify_piece checksum (4 ∷ []) (1 ∷ 4 ∷ []) ≡ true)
    × (memory.write_at_file (7 ∷ 8 ∷ 9 ∷ []) (4 ∷ []) 2 ≡ (7 ∷ 8 ∷ 4 ∷ [], some 1))
verify_and_write_piece-eq-none_example =
    verify_and_write_piece-eq-none checksum storage last_job last_result (7 ∷ 8 ∷ 4 ∷ []) finalized
      refl

-- The second piece is being finalized.
abbrev finalizing_storage : FileStorage memory
finalizing_storage = record {
  file = 7 ∷ 8 ∷ 4 ∷ [];
  info = info;
  block_length = 1;
  pieces =
      (record { state = complete; generation = 0; buffer = none; received_blocks = [] })
      ∷ (record { state = finalizing; generation = 1; buffer = none; received_blocks = [] })
      ∷ [];
}

apply_finalize_result-Applies_example :
    Applies finalizing_storage last_result
      (apply_finalize_result finalizing_storage last_result).0
      (apply_finalize_result finalizing_storage last_result).1
apply_finalize_result-Applies_example =
    apply_finalize_result-Applies finalizing_storage last_result (omega arith) (omega arith)

abbrev block_of_last : BlockRequest
block_of_last = record { piece_index = 1; begin = 0; len = 1 }

abbrev after_block : FileStorage memory
after_block = record {
  file = 7 ∷ 8 ∷ 9 ∷ [];
  info = info;
  block_length = 1;
  pieces =
      (record { state = complete; generation = 0; buffer = none; received_blocks = [] })
      ∷ (record { state = assembled; generation = 1; buffer = some (4 ∷ []); received_blocks = [] })
      ∷ [];
}
