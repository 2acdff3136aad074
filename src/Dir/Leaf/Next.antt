-- ===== src/Dir/Leaf/Next.antt =====
-- `next` of src/libxfuse/dir3_lf.rs: the records of a directory's data blocks, block by block.
use xfuse.Base.{
  ℕ, zero, suc, ◌-◌, ◌%◌, ◌^◌, Bool, true, ltb, leb, ◌==◌, ◌||◌, if◌then◌else◌, ◌⊎◌, inl, inr,
  length, drop, add64, shl64, Outcome, ok, err, panic, ◌>>=◌, ◌>>◌, assert,
}
use xfuse.Codec.{Bytes, Bincode, decode}
use xfuse.Sb.{Sb, get_dir3_leaf_offset}
use xfuse.FileType.{enoent}
use xfuse.Bmbt.{seek_data, errno_enxio}
use xfuse.Dir.{dir2_data_hdr_size, dir3_data_hdr_size, get_length, get_data_entry, get_data_unused}
use xfuse.Dir.Sf.{Dirent, kind_of}
use xfuse.Dir.Block.{dir2_block_magic, dir3_block_magic}
use xfuse.Dir.Leaf.{Dfork, Blocks, dfork_lseek, dblksize, dblock_of, read_dblock}

abbrev pub dir2_data_magic : ℕ
dir2_data_magic = 0x58443244

abbrev pub dir3_data_magic : ℕ
dir3_data_magic = 0x58444433

module _ (bc : Bincode) (sb : Sb) where
  -- The match on the magic number: where the records of a data block begin.
  unfoldable pub header_size : Bytes → Outcome ℕ ℕ
  header_size raw = do
    magic ← decode (bc.uint 4) raw
    if magic == dir2_block_magic || magic == dir2_data_magic
        then ok dir2_data_hdr_size
        else if magic == dir3_block_magic || magic == dir3_data_magic
        then ok dir3_data_hdr_size
        else panic

  -- The inner loop: an entry, or the offset and the flag `next` at the end of the block. A round passes
  -- over a byte at least; out of fuel is a panic.
  unfoldable pub in_block : ℕ → Bytes → ℕ → Bool → ℕ → ℕ → Outcome ℕ (Dirent ⊎ (ℕ × Bool))
  in_block zero raw doffset next offset blk_offset =
      if ltb blk_offset (length raw) then panic else ok (inr (offset, next))
  in_block (suc fuel) raw doffset next offset blk_offset =
      if ltb blk_offset (length raw)
      then (do
        freetag ← decode (bc.uint 2) (drop blk_offset raw)
        if freetag == 0xffff
            then (do
              len ← decode (get_data_unused bc) (drop blk_offset raw)
              in_block fuel raw doffset next (add64 offset len) (add64 blk_offset len))
            else if next
            then (do
              entry ← decode (get_data_entry bc sb) (drop blk_offset raw)
              kind ← kind_of entry.ftype
              ok (
                  inl (record {
                    ino = entry.inumber;
                    offset = add64 doffset entry.tag;
                    kind = kind;
                    name = entry.name;
                  })))
            else (do
              len ← get_length bc sb (drop blk_offset raw)
              in_block fuel raw doffset true (add64 offset len) (add64 blk_offset len)))
      else ok (inr (offset, next))

  module _ (device : Bytes) (dfork : Dfork) where
    -- What the outer loop does once it stands at data: read the block and walk through it.
    unfoldable pub visit : Blocks → Bool → ℕ → Outcome ℕ ((Dirent ⊎ (ℕ × Bool)) × Blocks)
    unfolding header_size in_block
    visit blocks next offset = do
      let dir_block_offset = offset % dblksize sb
      assert (ltb (dblock_of sb offset) (2 ^ 32))
      (raw, blocks1) ← read_dblock bc sb device dfork blocks (dblock_of sb offset)
      blk_offset ← (if ltb 0 dir_block_offset then ok dir_block_offset else header_size raw)
      r ← in_block (length raw) raw (offset - dir_block_offset) next offset blk_offset
      ok (r, blocks1)

    -- The outer loop, over the blocks; out of fuel is a panic.
    unfoldable pub next_loop : ℕ → Blocks → Bool → ℕ → Outcome ℕ (Dirent × Blocks)
    unfolding visit
    next_loop zero blocks next offset = panic
    next_loop (suc fuel) blocks next offset = elim (dfork_lseek sb dfork offset seek_data) [
      | panic ↦ panic
      | err e ↦ err (if e == errno_enxio then enoent else e)
      | ok newoffset ↦
          let rest =
            λ (off : ℕ) (flag : Bool) (blocks1 : Blocks). next_loop fuel blocks1 flag off in
          if leb (shl64 (get_dir3_leaf_offset sb) sb.sb_blocklog) newoffset
          then err enoent
          else visit blocks next newoffset >>= λ found. elim found.0 [
            | inl d ↦ ok (d, found.1)
            | inr (off, flag) ↦ rest off flag found.1
          ]
    ]

    -- `next`; the cursor is the bit pattern of an i64.
    unfoldable pub leaf_next : ℕ → Blocks → ℕ → Outcome ℕ (Dirent × Blocks)
    unfolding next_loop
    leaf_next fuel blocks offset = do
      assert (ltb offset (2 ^ 63))
      next_loop fuel blocks (offset == 0) offset
