-- ===== src/Torrent/FileStorage/Finalize.antt =====
-- torrent/file.go: what a worker reports of a piece that it has verified and written.
use mole_swarm.Base.{
  ◌*◌, ◌≡◌, true, none, some, arith, length, get_elem?, Option-cases, Result-cases, inl, inr,
}
use mole_swarm.Base.Bytes.{Bytes}
use mole_swarm.Protocol.Metainfo.{verify_piece}
use mole_swarm.Torrent.Piece.{bytes_of}
use mole_swarm.Torrent.FileStorage.{
  Disk, FileStorage, FinalizeJob, FinalizeResult, nat_of, piece_offset, piece_length,
}
use mole_swarm.Torrent.FileStorage.Content.{verify_and_write_piece}
use mole_swarm.Torrent.FileStorage.Verified.{piece_offset-eq-ok}

module _ (sha1 : Bytes → Bytes) {disk : Disk} where
  -- A job that ends without a failure has a buffer with the hash that the metainfo lists for its piece,
  -- and the file reports that the whole buffer was written at the piece's offset.
  pub verify_and_write_piece-eq-none :
      (fs : FileStorage disk) (job : FinalizeJob) (result : FinalizeResult) (file : disk.File)
      → verify_and_write_piece sha1 fs job ≡ (result, file)
      → result.failure ≡ none
      → (verify_piece sha1 job.buffer (bytes_of (get_elem? fs.info.piece_hashes job.piece_index))
          ≡ true)
        × (disk.write_at_file fs.file job.buffer (job.piece_index * nat_of fs.info.piece_length)
            ≡ (file, some (length job.buffer)))
  unfolding verify_and_write_piece
  verify_and_write_piece-eq-none fs job result file e done =
      elim (Result-cases (piece_length fs job.piece_index)) [
        | inr (x, bad) ↦ absurd (ground (arith, bad))
        | inl (len, size) ↦ elim (Result-cases (piece_offset fs job.piece_index)) [
          | inr (x, bad) ↦ absurd (ground (arith, bad, size))
          | inl (offset, place) ↦
              let start = piece_offset-eq-ok sha1 fs job.piece_index offset place in
              let done_write = disk.write_at_file fs.file job.buffer offset in
              elim (Option-cases done_write.1) [
                | inl broken ↦ absurd (ground (arith, size, place, broken))
                | inr (n, count) ↦
                    let hash : verify_piece sha1 job.buffer
                          (bytes_of (get_elem? fs.info.piece_hashes job.piece_index))
                        ≡ true =
                      ground (arith, size, place, count) in
                    let whole : n ≡ length job.buffer = ground (arith, size, place, count) in
                    let after : done_write.0 ≡ file = ground (arith, size, place, count) in
                    (hash, cc (start, after, count, whole))
              ]
        ]
      ]
