-- ===== src/Torrent/FileStorage/Served.antt =====
-- torrent/file.go: a block that is served is cut from a content with the listed hash.
use mole_swarm.Base.{
  ℕ, ◌+◌, ◌*◌, ◌≤◌, ◌≡◌, sym, subst, ◌∙◌, true, false, not, Option, some, arith, ◌==◌, length,
  get_elem?, take, drop, ok, ◌>>◌, fail_if, ok-injective, Ensures-ok, Ensures-intro, Ensures-bind,
  Ensures-fail_if,
}
use mole_swarm.Base.Bytes.{Bytes}
use mole_swarm.Protocol.Message.{BlockRequest}
use mole_swarm.Protocol.Metainfo.{verify_piece}
use mole_swarm.Torrent.Piece.{
  Piece, is_complete, invalid_block, invalid_piece, read_failed, unexpected_eof, bytes_of,
}
use mole_swarm.Torrent.FileStorage.{
  Disk, FileStorage, nat_of, same_request, or_fail, piece_at, piece_offset, block_request,
}
use mole_swarm.Torrent.FileStorage.Layout.{IsBlock, block_request-IsBlock}
use mole_swarm.Torrent.FileStorage.Content.{read_block}
use mole_swarm.Torrent.FileStorage.Verified.{
  IsAvailable, IsVerified, piece_length-eq-ok, piece_offset-eq-ok,
}

-- A part of what one read returns is what a read of that part returns.
pub record DiskLaws (disk : Disk) : Type 0 where
  pub read_part :
      (file : disk.File) (offset len begin n : ℕ) (content : Bytes)
      → disk.read_at file offset len ≡ some content
      → length content ≡ len
      → begin + n ≤ len
      → disk.read_at file (offset + begin) n ≡ some (take n (drop begin content))

-- What is served: the requested part of bytes that have the listed hash.
pub record IsServed (sha1 : Bytes → Bytes) {disk : Disk} (fs : FileStorage disk) (r : BlockRequest)
    (bytes : Bytes) : Type 0 where
  pub content : Bytes
  pub hash_checked :
      verify_piece sha1 content (bytes_of (get_elem? fs.info.piece_hashes r.piece_index)) ≡ true
  pub in_content : r.begin + r.len ≤ length content
  pub part : bytes ≡ take r.len (drop r.begin content)

piece_at-get_elem? :
    {disk : Disk} (fs : FileStorage disk) (i : ℕ) (p : Piece)
    → or_fail (piece_at fs i) invalid_piece ≡ ok p
    → get_elem? fs.pieces i ≡ some p
unfolding piece_at
piece_at-get_elem? fs i p e = ground arith

read_out :
    (o : Option Bytes) (got out : Bytes) (n : ℕ)
    → or_fail o read_failed ≡ ok got
    → (fail_if (not (length got == n)) unexpected_eof >> ok got) ≡ ok out
    → o ≡ some out
read_out o got out n e h = ground arith

served :
    (sha1 : Bytes → Bytes) {disk : Disk} (fs : FileStorage disk) (r expected : BlockRequest)
    (bytes : Bytes)
    → DiskLaws disk
    → IsAvailable sha1 disk fs.file fs.info r.piece_index
    → IsBlock fs r.piece_index r.begin expected
    → not (same_request r expected) ≡ false
    → disk.read_at fs.file (r.piece_index * nat_of fs.info.piece_length + r.begin) r.len
      ≡ some bytes
    → IsServed sha1 fs r bytes
served sha1 {disk} fs r expected bytes laws av block same found =
    let length_here = piece_length-eq-ok sha1 fs r.piece_index block.piece_len block.piece_size in
    let one_length : block.piece_len ≡ av.len = ok-injective (sym length_here ∙ av.has_length) in
    let len : r.len ≡ expected.len = ground arith in
    let fits : r.begin + r.len ≤ av.len =
      omega (arith, len, one_length, block.range.within_piece) in
    record {
      content = av.content;
      hash_checked = av.has_hash;
      in_content = omega (arith, av.full, fits);
      part = cc (
        found,
        laws.read_part fs.file (r.piece_index * nat_of fs.info.piece_length) av.len r.begin r.len
            av.content av.stored av.full fits,
      );
    }

-- If every piece that is complete is verified, and reading a part of what the file has yields that
-- part, a block that is served is the requested part of a content that has the hash that the
-- metainfo lists for the piece.
pub read_block-IsServed :
    (sha1 : Bytes → Bytes) {disk : Disk} (fs : FileStorage disk) (r : BlockRequest) (bytes : Bytes)
    → DiskLaws disk
    → IsVerified sha1 fs
    → read_block fs r ≡ ok bytes
    → IsServed sha1 fs r bytes
unfolding read_block
read_block-IsServed sha1 {disk} fs r bytes laws verified e =
    Ensures-ok {P = IsServed sha1 fs r}
      (Ensures-bind
        (Ensures-intro (or_fail (piece_at fs r.piece_index) invalid_piece) (λ p found. found))
        λ p found. Ensures-bind (Ensures-fail_if (not (is_complete p)) invalid_piece) λ u done.
          Ensures-bind (Ensures-intro (block_request fs r.piece_index r.begin) (λ x made. made))
            λ expected made.
              Ensures-bind (Ensures-fail_if (not (same_request r expected)) invalid_block) λ u same.
                Ensures-bind (Ensures-intro (piece_offset fs r.piece_index) (λ o at_o. at_o))
                  λ offset at_offset.
                    Ensures-bind
                      (Ensures-intro
                        (or_fail (disk.read_at fs.file (offset + r.begin) r.len) read_failed)
                        (λ b h. h))
                      λ got read. Ensures-intro _ λ out passed.
                        served sha1 fs r expected out laws
                          (verified r.piece_index p (piece_at-get_elem? fs r.piece_index p found)
                            (ground arith))
                          (block_request-IsBlock fs r.piece_index r.begin expected made) same
                          (subst (λ o. disk.read_at fs.file (o + r.begin) r.len ≡ some out)
                            (piece_offset-eq-ok sha1 fs r.piece_index offset at_offset)
                            (read_out (disk.read_at fs.file (offset + r.begin) r.len) got out r.len
                              read passed)))
      e
