-- ===== src/Attr/Leafblock.antt =====
-- The leaf blocks of an attribute fork in src/libxfuse/attr.rs: their parts, and how these are decoded.
pub mod Decode
pub mod Header
pub mod Value
pub mod Operations
pub mod Listing
pub mod Stored
pub mod Lookup
use xfuse.Base.{ℕ, ◌+◌, List, [], ◌==◌, if◌then◌else◌}
use xfuse.Codec.{Bytes, Get, ◌>>=◌, pure, crash, Bincode, repeat}
use xfuse.Sb.{Sb}
use xfuse.DaBtree.Node.{get_blkinfo, get_blkinfo3, peek_magic}

abbrev pub attr_leaf_magic : ℕ
attr_leaf_magic = 0xfbee

abbrev pub attr3_leaf_magic : ℕ
attr3_leaf_magic = 0x3bee

pub record AttrLeafHdr : Type 0 where
  pub forw : ℕ
  pub count : ℕ

pub record AttrLeafEntry : Type 0 where
  pub hashval : ℕ
  pub nameidx : ℕ
  pub flags : ℕ

pub record AttrLeafNameLocal : Type 0 where
  pub namelen : ℕ
  pub nameval : Bytes

-- `value` is the value as far as it has been read.
pub record AttrLeafNameRemote : Type 0 where
  pub valueblk : ℕ
  pub valuelen : ℕ
  pub namelen : ℕ
  pub name : Bytes
  pub value : Bytes

pub data AttrLeafName : Type 0 where
  local : AttrLeafNameLocal → AttrLeafName
  remote : AttrLeafNameRemote → AttrLeafName

pub record AttrLeafblock : Type 0 where
  pub hdr : AttrLeafHdr
  pub entries : List AttrLeafEntry
  pub names : List AttrLeafName

module _ (bc : Bincode) (sb : Sb) where
  -- The free map is three pairs of u16.
  unfoldable pub get_attr_leaf_hdr : Get AttrLeafHdr
  unfolding peek_magic get_blkinfo get_blkinfo3 repeat
  get_attr_leaf_hdr = do
    magic ← peek_magic bc sb
    info ←
        (if magic == attr_leaf_magic
          then get_blkinfo bc sb
          else if magic == attr3_leaf_magic
          then get_blkinfo3 bc sb
          else crash)
    count ← bc.uint 2
    _ ← bc.uint 2
    _ ← bc.uint 2
    _ ← bc.uint 1
    _ ← bc.uint 1
    _ ← repeat 6 (bc.uint 2)
    _ ← (if magic == attr3_leaf_magic then bc.uint 4 else pure 0)
    pure (record { forw = info.forw; count = count })

module _ (bc : Bincode) where
  unfoldable pub get_attr_leaf_entry : Get AttrLeafEntry
  get_attr_leaf_entry = do
    hashval ← bc.uint 4
    nameidx ← bc.uint 2
    flags ← bc.uint 1
    _ ← bc.uint 1
    pure (record { hashval = hashval; nameidx = nameidx; flags = flags })

  unfoldable pub get_local : Get AttrLeafNameLocal
  get_local = do
    valuelen ← bc.uint 2
    namelen ← bc.uint 1
    nameval ← bc.read (namelen + valuelen)
    pure (record { namelen = namelen; nameval = nameval })

  unfoldable pub get_remote : Get AttrLeafNameRemote
  get_remote = do
    valueblk ← bc.uint 4
    valuelen ← bc.uint 4
    namelen ← bc.uint 1
    name ← bc.read namelen
    pure (record {
      valueblk = valueblk;
      valuelen = valuelen;
      namelen = namelen;
      name = name;
      value = [];
    })
