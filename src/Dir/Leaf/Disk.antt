-- ===== src/Dir/Leaf/Disk.antt =====
-- The leaf blocks of src/libxfuse/dir3_lf.rs on disk.
use xfuse.Base.{ℕ, List, ◌||◌, ◌==◌, if◌then◌else◌}
use xfuse.Codec.{Get, ◌>>=◌, pure, crash, Bincode, repeat}
use xfuse.Sb.{Sb}
use xfuse.Dir.{Dir2LeafEntry, get_leaf_entry}
use xfuse.DaBtree.Node.{Intnode, get_blkinfo, get_blkinfo3, peek_magic}

abbrev pub leaf1_magic : ℕ
leaf1_magic = 0xd2f1

abbrev pub leafn_magic : ℕ
leafn_magic = 0xd2ff

abbrev pub leaf1_magic3 : ℕ
leaf1_magic3 = 0x3df1

abbrev pub leafn_magic3 : ℕ
leafn_magic3 = 0x3dff

-- `Dir2LeafHdr` and `Dir3LeafHdr`.
pub record LeafHdr : Type 0 where
  pub count : ℕ
  pub forw : ℕ

-- `Dir2LeafNDisk`.
pub record LeafNDisk : Type 0 where
  pub forw : ℕ
  pub ents : List Dir2LeafEntry

pub data Leaf : Type 0 where
  leafn : LeafNDisk → Leaf
  btree : Intnode → Leaf

module _ (bc : Bincode) (sb : Sb) where
  unfoldable pub get_leaf_hdr : Get LeafHdr
  unfolding get_blkinfo
  get_leaf_hdr = do
    info ← get_blkinfo bc sb
    count ← bc.uint 2
    _ ← bc.uint 2
    pure (record { count = count; forw = info.forw })

  unfoldable pub get_leaf_hdr3 : Get LeafHdr
  unfolding get_blkinfo3
  get_leaf_hdr3 = do
    info ← get_blkinfo3 bc sb
    count ← bc.uint 2
    _ ← bc.uint 2
    _ ← bc.uint 4
    pure (record { count = count; forw = info.forw })

  -- `Decode for Dir2LeafNDisk`.
  unfoldable pub get_leafn : Get LeafNDisk
  unfolding peek_magic get_leaf_hdr get_leaf_hdr3 repeat
  get_leafn = do
    magic ← peek_magic bc sb
    hdr ←
        (if magic == leaf1_magic || magic == leafn_magic
          then get_leaf_hdr
          else if magic == leaf1_magic3 || magic == leafn_magic3
          then get_leaf_hdr3
          else crash)
    ents ← repeat hdr.count (get_leaf_entry bc)
    pure (record { forw = hdr.forw; ents = ents })
