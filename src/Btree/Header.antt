-- ===== src/Btree/Header.antt =====
-- The headers, keys and records in the blocks of a B+tree of extents, src/libxfuse/btree.rs.
use xfuse.Base.{ℕ, ◌==◌, if◌then◌else◌}
use xfuse.Codec.{Get, Bincode, ◌>>=◌, ◌>>◌, pure, crash, assert}
use xfuse.Sb.{Sb}
use xfuse.Bmbt.{BmbtRec, of_u128}

abbrev pub bmap_magic : ℕ
bmap_magic = 0x424d4150

abbrev pub bmap_crc_magic : ℕ
bmap_crc_magic = 0x424d4133

pub record BtreeBlockHdr : Type 0 where
  pub bb_magic : ℕ
  pub bb_level : ℕ
  pub bb_numrecs : ℕ

-- `Decode for BmbtRec`: a 128-bit word.
unfoldable pub get_record : Bincode → Get BmbtRec
unfolding of_u128
get_record bc = do w ← bc.uint 16; pure (of_u128 w)

-- `Decode for BtreeBlockHdr<u64>`.
unfoldable pub get_btree_hdr : Bincode → Sb → Get BtreeBlockHdr
get_btree_hdr bc sb = do
  magic ← bc.uint 4
  level ← bc.uint 2
  numrecs ← bc.uint 2
  _ ← bc.uint 8
  _ ← bc.uint 8
  _ ←
      (if magic == bmap_magic
        then pure tt
        else if magic == bmap_crc_magic
        then (do
          _ ← bc.uint 8
          _ ← bc.uint 8
          uuid ← bc.uint 16
          assert (uuid == sb.sb_uuid)
          _ ← bc.uint 8
          _ ← bc.uint 4
          _ ← bc.uint 4
          pure tt)
        else crash)
  pure (record { bb_magic = magic; bb_level = level; bb_numrecs = numrecs })
