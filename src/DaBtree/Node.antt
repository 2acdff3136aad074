-- ===== src/DaBtree/Node.antt =====
-- The nodes of the B+tree of src/libxfuse/da_btree.rs, and how they are decoded.
use xfuse.Base.{
  ℕ, List, leb, ◌==◌, if◌then◌else◌, length, take, drop, Outcome, ok, err, panic, unwrap, map_ok,
}
use xfuse.Codec.{Bytes, Get, ◌>>=◌, ◌>>◌, pure, fail, crash, assert, Bincode, bad_magic, repeat}
use xfuse.Sb.{Sb}

abbrev pub da_node_magic : ℕ
da_node_magic = 0xfebe

abbrev pub da3_node_magic : ℕ
da3_node_magic = 0x3ebe

-- `XfsDaBlkinfo` and `XfsDa3Blkinfo`; `magic` is read of the latter only.
pub record Blkinfo : Type 0 where
  pub forw : ℕ
  pub magic : ℕ

pub record NodeHdr : Type 0 where
  pub count : ℕ
  pub level : ℕ

pub record NodeEntry : Type 0 where
  pub hashval : ℕ
  pub before : ℕ

-- `XfsDa3Intnode` with its cache of children, by block.
mutual
  pub data Intnode : Type 0 where
    intnode : (magic level : ℕ) → List NodeEntry → Children → Intnode

  pub data Children : Type 0 where
    nothing : Children
    cached : ℕ → Intnode → Children → Children

abbrev pub magic_of : Intnode → ℕ
magic_of (intnode magic level entries children) = magic

module _ (bc : Bincode) (sb : Sb) where
  unfoldable pub get_blkinfo : Get Blkinfo
  get_blkinfo = do
    forw ← bc.uint 4
    _ ← bc.uint 4
    magic ← bc.uint 2
    _ ← bc.uint 2
    pure (record { forw = forw; magic = magic })

  -- The volume's superblock stands for the global `SUPERBLOCK`.
  unfoldable pub get_blkinfo3 : Get Blkinfo
  get_blkinfo3 = do
    forw ← bc.uint 4
    _ ← bc.uint 4
    magic ← bc.uint 2
    _ ← bc.uint 2
    _ ← bc.uint 4
    _ ← bc.uint 8
    _ ← bc.uint 8
    uuid ← bc.uint 16
    _ ← bc.uint 8
    assert (uuid == sb.sb_uuid)
    pure (record { forw = forw; magic = magic })

  unfoldable pub get_node_hdr : Get NodeHdr
  unfolding get_blkinfo
  get_node_hdr = do
    _ ← get_blkinfo
    count ← bc.uint 2
    level ← bc.uint 2
    pure (record { count = count; level = level })

  unfoldable pub get_node_hdr3 : Get NodeHdr
  unfolding get_blkinfo3
  get_node_hdr3 = do
    info ← get_blkinfo3
    if info.magic == da3_node_magic
        then (do
          count ← bc.uint 2
          level ← bc.uint 2
          _ ← bc.uint 4
          pure (record { count = count; level = level }))
        else fail bad_magic

  unfoldable pub get_node_entry : Get NodeEntry
  get_node_entry = do
    hashval ← bc.uint 4
    before ← bc.uint 4
    pure (record { hashval = hashval; before = before })

  -- `peek_read(10).unwrap()[8..]`, decoded as the magic number; the input is left as it is.
  unfoldable pub peek_magic : Get ℕ
  peek_magic bs =
      if leb 10 (length bs)
      then elim (bc.uint 2 (drop 8 (take 10 bs))) [
        | ok (magic, rest) ↦ ok (magic, bs)
        | err e ↦ err e
        | panic ↦ panic
      ]
      else panic

  -- `Decode for XfsDa3Intnode`.
  unfoldable pub get_intnode : Get Intnode
  unfolding peek_magic get_node_hdr get_node_hdr3 get_node_entry repeat
  get_intnode = do
    magic ← peek_magic
    hdr ←
        (if magic == da_node_magic
          then get_node_hdr
          else if magic == da3_node_magic
          then get_node_hdr3
          else crash)
    btree ← repeat hdr.count get_node_entry
    pure (intnode magic hdr.level btree nothing)

  -- `XfsDa3Intnode::from`: the same reads, each unwrapped.
  unfoldable pub from : Bytes → Outcome ℕ Intnode
  unfolding get_intnode
  from bs = map_ok (λ (r : Intnode × Bytes). r.0) (unwrap (get_intnode bs))
