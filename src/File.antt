-- ===== src/File.antt =====
-- Reading a file: `read` and `read_sectors` of src/libxfuse/file.rs and `get_extent` of
-- src/libxfuse/file_extent_list.rs and src/libxfuse/file_btree.rs.
pub mod Contents
pub mod Sectors
pub mod Read
pub mod Listed
pub mod Objects
use xfuse.Base.{
  ℕ, zero, suc, ◌+◌, ◌-◌, ◌*◌, ◌/◌, ◌%◌, ◌^◌, List, [], ◌++◌, Option, none, some, ltb, leb, ◌==◌,
  if◌then◌else◌, replicate, add64, sub64, shl64, Outcome, ok, err, panic, ◌>>=◌, ◌>>◌, assert,
  unwrap,
}
use xfuse.Codec.{Bytes}
use xfuse.Sb.{Sb, fsb_to_offset}
use xfuse.Bmbt.{Bmx, get_extent}
use xfuse.BlockReader.{
  BlockReader, IoError, unexpected_eof, einval, start, seek, read_exact, resize,
}

-- `FileExtentList::get_extent`; `size` is the file's size.
unfoldable pub list_extent : Sb → Bmx → ℕ → ℕ → Outcome ℕ (Option ℕ × ℕ)
list_extent sb bmx size block = do
  (first, len) ← get_extent bmx block
  ok (
    first,
    elim len [ some n ↦ n | none ↦ sub64 ((size + sb.sb_blocksize - 1) / sb.sb_blocksize) block ],
  )

-- `FileBtree::get_extent`, over the results of the tree's `map_block`.
unfoldable pub tree_extent :
    Sb → (ℕ → Outcome ℕ (Option ℕ × Option ℕ)) → ℕ → ℕ → Outcome ℕ (Option ℕ × ℕ)
tree_extent sb map_block size block = do
  (first, len) ← unwrap (map_block block)
  ok (
    first,
    elim len [ some n ↦ n | none ↦ sub64 ((size + sb.sb_blocksize - 1) / sb.sb_blocksize) block ],
  )

-- `map_err(|e| e.raw_os_error().unwrap())`: the end of the file has no number.
abbrev pub os_error : {A : Type 0} → Outcome IoError A → Outcome ℕ A
os_error (ok a) = ok a
os_error (err unexpected_eof) = panic
os_error (err einval) = err 22
os_error panic = panic

module _ (sb : Sb) (extent : ℕ → Outcome ℕ (Option ℕ × ℕ)) where
  -- The body of the loop from `data.resize` on: the bytes of one extent. A hole reads as zeros.
  unfoldable pub read_run : BlockReader → Option ℕ → ℕ → Outcome ℕ (Bytes × BlockReader)
  read_run r none z = ok (replicate z 0, r)
  read_run r (some blk) z = do
    (pos, r1) ← os_error (seek r (start (fsb_to_offset sb blk)))
    os_error (read_exact r1 z)

  -- The loop of `read_sectors`; `block_offset` is 0 throughout. Out of fuel is a panic.
  unfoldable pub read_loop : ℕ → BlockReader → ℕ → ℕ → Outcome ℕ (Bytes × BlockReader)
  unfolding read_run
  read_loop zero r logical_block size = if size == 0 then ok ([], r) else panic
  read_loop (suc fuel) r logical_block size = if size == 0 then ok ([], r) else (do
    (blk, blocks) ← extent logical_block
    let room = shl64 blocks sb.sb_blocklog
    let z = if leb size room then size else room
    (bytes, r1) ← read_run r blk z
    (rest, r2) ← read_loop fuel r1 (add64 logical_block blocks) (size - z)
    ok (bytes ++ rest, r2))

  -- `read_sectors`: each round takes a byte at least, so that fuel of the size is enough.
  unfoldable pub read_sectors : BlockReader → ℕ → ℕ → Outcome ℕ (Bytes × BlockReader)
  unfolding read_loop
  read_sectors r offset size = read_loop size r (offset / 2 ^ sb.sb_blocklog) size

  -- `read` of `size` bytes from `offset` on, in a file of `fsize` bytes: the bytes, and how many of them
  -- come before the offset. Both numbers are signed, as their bit patterns. When less than nothing is left
  -- `u32::try_from` panics, and a block number below 0 makes `read_sectors` panic.
  unfoldable pub read : ℕ → BlockReader → ℕ → ℕ → Outcome ℕ ((Bytes × ℕ) × BlockReader)
  read fsize r offset size = do
    let left = sub64 fsize offset
    assert (ltb left (2 ^ 63))
    let wanted = if leb size left then size else left
    let block_offset = offset % 2 ^ sb.sb_blocklog
    let size_with_leader = wanted + block_offset
    let size_remainder = size_with_leader % 2 ^ sb.sb_blocklog
    let actual_size =
        if ltb 0 size_remainder
        then size_with_leader + sb.sb_blocksize - size_remainder
        else size_with_leader
    assert (ltb (offset - block_offset) (2 ^ 63))
    (v, r1) ← read_sectors r (offset - block_offset) actual_size
    ok ((resize v size_with_leader, block_offset), r1)
