-- ===== src/Inode/Dinode.antt =====
-- The inodes of src/libxfuse/dinode.rs: the forks in their formats, and how they are decoded.
pub mod Address
pub mod Open
use xfuse.Base.{
  ℕ, ◌+◌, ◌*◌, ◌%◌, ◌^◌, List, [], ◌∷◌, Option, none, some, ltb, leb, ◌==◌, if◌then◌else◌, length,
  take, drop, mul64, add64, shl64, shr64, Outcome, ok, err, panic, unwrap, not, ◌>>=◌, ◌>>◌, assert,
}
use xfuse.Codec.{Bytes, Get, Bincode, decode, slice_from}
use xfuse.Sb.{Sb}
use xfuse.FileType.{format_bits}
use xfuse.Bmbt.{BmbtRec}
use xfuse.Inode.{DinodeCore, literal_area_offset}
use xfuse.Inode.Decode.{get_dinode_core}
use xfuse.Dir.Directory.{Directory}
use xfuse.Attr.Fork.{Attributes}
use xfuse.Inode.Forks.{DiU, DiA, get_di_u, get_di_a}

-- An inode, with its caches of the directory object and the attribute object.
pub record Dinode : Type 0 where
  pub di_core : DinodeCore
  pub di_u : DiU
  pub di_a : Option DiA
  pub directory : Option Directory
  pub attributes : Option Attributes

-- The place of an inode on the device; an inode of a group that is not there is a panic.
unfoldable pub inode_offset : Sb → ℕ → Outcome ℕ ℕ
inode_offset sb inode_number = do
  let ag_no = shr64 inode_number ((sb.sb_agblklog + sb.sb_inopblog) % 256)
  assert (ltb ag_no sb.sb_agcount)
  let ag_blk = shr64 inode_number sb.sb_inopblog % 2 ^ (sb.sb_agblklog % 64)
  let blk_ino = inode_number % 2 ^ (sb.sb_inopblog % 64)
  ok (
      add64
        (add64 (shl64 (mul64 ag_no sb.sb_agblocks) sb.sb_blocklog) (shl64 ag_blk sb.sb_blocklog))
        (shl64 blk_ino sb.sb_inodelog))

module _ (bc : Bincode) (sb : Sb) where
  -- The attribute fork, where there is one.
  unfoldable pub attr_fork_of : DinodeCore → Bytes → Outcome ℕ (Option DiA)
  unfolding get_di_a literal_area_offset
  attr_fork_of core raw = if core.di_forkoff == 0 then ok none else (do
    lit ← literal_area_offset core
    fork ← slice_from raw (lit + core.di_forkoff * 8)
    di_a ← decode (get_di_a bc sb core core.di_aformat) fork
    ok (some di_a))

  -- `Dinode::from`, on a device: the inode's bytes, the core and the data fork behind it, and the
  -- attribute fork.
  unfoldable pub dinode_from : Bytes → ℕ → Outcome ℕ Dinode
  unfolding inode_offset get_dinode_core get_di_u attr_fork_of
  dinode_from device inode_number = do
    off ← inode_offset sb inode_number
    assert (leb (off + sb.sb_inodesize) (length device))
    let raw = take sb.sb_inodesize (drop off device)
    (core, behind) ← unwrap (get_dinode_core bc raw)
    di_u ← decode (get_di_u bc sb core inode_number) behind
    di_a ← attr_fork_of core raw
    ok (record { di_core = core; di_u = di_u; di_a = di_a; directory = none; attributes = none })
