-- ===== src/Inode/Forks.antt =====
-- The data fork and the attribute fork of an inode in src/libxfuse/dinode.rs.
use xfuse.Base.{◌-◌, ◌^◌, ltb, ℕ, List, ◌==◌, if◌then◌else◌, Outcome, ok, err, panic}
use xfuse.Codec.{Bytes, Get, Bincode, ◌>>=◌, pure, crash, repeat}
use xfuse.Sb.{Sb}
use xfuse.FileType.{format_bits}
use xfuse.Bmbt.{BmbtRec}
use xfuse.Btree.Header.{get_record}
use xfuse.Dir.Sf.{Dir2Sf, get_dir2_sf, set_ino}
use xfuse.Attr.{AttrShortform}
use xfuse.Attr.ShortformDecode.{get_shortform}
use xfuse.Inode.{
  DinodeCore, XfsDinodeFmt, local, extents, btree, dfork_btree_ptr_gap, afork_btree_ptr_gap,
}

-- The root of a B+tree of extents: its level, keys and pointers.
pub record Bmdr : Type 0 where
  pub bb_level : ℕ
  pub keys : List ℕ
  pub pointers : List ℕ

pub data DiU : Type 0 where
  blk chr fifo socket : DiU
  bmbt : Bmdr → DiU
  bmx : List BmbtRec → DiU
  dir2_sf : Dir2Sf → DiU
  symlink : Bytes → DiU

pub data DiA : Type 0 where
  attrsf : AttrShortform → DiA
  abmx : List BmbtRec → DiA
  abmbt : Bmdr → DiA

-- A result of the inode core among the decoders; every error is unwrapped.
abbrev lift : {A : Type 0} → Outcome ℕ A → Get A
lift (ok a) = pure a
lift (err e) = crash
lift panic = crash

-- The rounds of `for _i in 0..n` for a signed `n` of the width, as its bit pattern: none below 0.
abbrev pub rounds_of : (width n : ℕ) → ℕ
rounds_of width n = if ltb n (2 ^ (width - 1)) then n else 0

module _ (bc : Bincode) where
  unfoldable pub get_extents : ℕ → Get (List BmbtRec)
  unfolding get_record repeat
  get_extents n = repeat n (get_record bc)

  -- `BmdrBlock`, the keys, the gap that the argument gives for their number, and the pointers.
  unfoldable pub get_root : (ℕ → Outcome ℕ ℕ) → Get Bmdr
  unfolding repeat
  get_root gap_of = do
    level ← bc.uint 2
    numrecs ← bc.uint 2
    keys ← repeat numrecs (bc.uint 8)
    gap ← lift (gap_of numrecs)
    _ ← bc.consume gap
    pointers ← repeat numrecs (bc.uint 8)
    pure (record { bb_level = level; keys = keys; pointers = pointers })

  module _ (sb : Sb) (core : DinodeCore) where
    -- The two formats that regular files and directories share, and otherwise the argument.
    unfoldable pub get_mapped : XfsDinodeFmt → Get DiU → Get DiU
    unfolding get_extents get_root
    get_mapped extents other = do
      recs ← get_extents (rounds_of 32 core.di_nextents)
      pure (bmx recs)
    get_mapped btree other = do
      root ← get_root (dfork_btree_ptr_gap core sb.sb_inodesize)
      pure (bmbt root)
    get_mapped _ other = other

    unfoldable pub get_directory : ℕ → XfsDinodeFmt → Get DiU
    unfolding get_mapped get_dir2_sf
    get_directory inode_number local = do
      dir_sf ← get_dir2_sf bc sb
      dir ← lift (set_ino dir_sf inode_number)
      pure (dir2_sf dir)
    get_directory inode_number fmt = get_mapped fmt crash

    unfoldable pub get_symlink : XfsDinodeFmt → Get DiU
    unfolding get_extents
    get_symlink local = do target ← bc.read core.di_size; pure (symlink target)
    get_symlink extents = do recs ← get_extents (rounds_of 32 core.di_nextents); pure (bmx recs)
    get_symlink _ = crash

    -- The match on the file type of the mode.
    unfoldable pub get_di_u : ℕ → Get DiU
    unfolding get_mapped get_directory get_symlink
    get_di_u inode_number =
        let m = format_bits core.di_mode in
        if m == 0o100000
        then get_mapped core.di_format crash
        else if m == 0o040000
        then get_directory inode_number core.di_format
        else if m == 0o120000
        then get_symlink core.di_format
        else if m == 0o060000
        then pure blk
        else if m == 0o020000
        then pure chr
        else if m == 0o010000
        then pure fifo
        else if m == 0o140000
        then pure socket
        else crash

    -- The match on the format of the attribute fork.
    unfoldable pub get_di_a : XfsDinodeFmt → Get DiA
    unfolding get_extents get_root get_shortform
    get_di_a local = do a ← get_shortform bc; pure (attrsf a)
    get_di_a extents = do recs ← get_extents (rounds_of 16 core.di_anextents); pure (abmx recs)
    get_di_a btree = do
      root ← get_root (afork_btree_ptr_gap core sb.sb_inodesize)
      pure (abmbt root)
    get_di_a _ = crash
