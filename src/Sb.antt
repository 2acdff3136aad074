-- ===== src/Sb.antt =====
-- src/libxfuse/sb.rs: the superblock, how it is read and checked, and the addresses computed from it.
pub mod Address
pub mod Read
pub mod Layout
pub mod Mount
use xfuse.Base.{
  ℕ, ◌+◌, ◌-◌, ◌*◌, ◌/◌, ◌%◌, ◌^◌, Bool, true, false, not, ◌&&◌, ◌||◌, Option, none, some, List, [],
  ◌∷◌, ltb, ◌==◌, if◌then◌else◌, length, take, drop, add64, mul64, shl64, shr64, replicate, ◌++◌,
}
use xfuse.Base.{Outcome, ok, panic, unwrap}
use xfuse.Codec.{Bytes, Get, ◌>>=◌, ◌>>◌, pure, crash, assert, Bincode}
use mathlib.Core.List.{reverse}

pub record Sb : Type 0 where
  pub sb_blocksize : ℕ
  pub sb_dblocks : ℕ
  pub sb_uuid : ℕ
  pub sb_rootino : ℕ
  pub sb_agblocks : ℕ
  pub sb_agcount : ℕ
  pub sb_logblocks : ℕ
  pub sb_versionnum : ℕ
  pub sb_inodesize : ℕ
  pub sb_blocklog : ℕ
  pub sb_inodelog : ℕ
  pub sb_inopblog : ℕ
  pub sb_agblklog : ℕ
  pub sb_icount : ℕ
  pub sb_ifree : ℕ
  pub sb_fdblocks : ℕ
  pub sb_dirblklog : ℕ
  pub sb_features2 : ℕ
  pub sb_features_incompat : ℕ

-- `contains` of a flag that is bit `k`.
abbrev pub has_bit : ℕ → ℕ → Bool
has_bit bits k = bits / 2 ^ k % 2 == 1

-- `SbFeatures2` and `SbFeaturesIncompat`.
abbrev pub attr2 : ℕ → Bool
attr2 features2 = has_bit features2 3

abbrev pub crc : ℕ → Bool
crc features2 = has_bit features2 8

abbrev pub ftype2 : ℕ → Bool
ftype2 features2 = has_bit features2 9

abbrev pub ftype_incompat : ℕ → Bool
ftype_incompat incompat = has_bit incompat 0

abbrev pub meta_uuid : ℕ → Bool
meta_uuid incompat = has_bit incompat 2

abbrev pub needs_repair : ℕ → Bool
needs_repair incompat = has_bit incompat 4

abbrev pub large_extent_counters : ℕ → Bool
large_extent_counters incompat = has_bit incompat 5

module _ (sb : Sb) where
  -- `1 << (35 - self.sb_blocklog)`, a u32: the subtraction is of u8.
  unfoldable pub get_dir3_leaf_offset : ℕ
  get_dir3_leaf_offset = 2 ^ ((35 + 256 - sb.sb_blocklog) % 256 % 32)

  unfoldable pub fsb_to_daddr : ℕ → ℕ
  fsb_to_daddr fsbno =
      let blkbb_log = (sb.sb_blocklog + 256 - 9) % 256 in
      let agno = shr64 fsbno sb.sb_agblklog in
      let agbno = fsbno % 2 ^ (sb.sb_agblklog % 64) in
      shl64 (add64 (mul64 agno sb.sb_agblocks) agbno) blkbb_log

  unfoldable pub fsb_to_offset : ℕ → ℕ
  unfolding fsb_to_daddr
  fsb_to_offset fsbno = shl64 (fsb_to_daddr fsbno) 9

  unfoldable pub has_ftype : Bool
  has_ftype = ftype2 sb.sb_features2 || ftype_incompat sb.sb_features_incompat

  unfoldable pub version : ℕ
  version = sb.sb_versionnum % 16
