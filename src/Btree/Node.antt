-- ===== src/Btree/Node.antt =====
-- The nodes of a B+tree of extents in src/libxfuse/btree.rs, with their caches, and how they are decoded.
use xfuse.Base.{
  ℕ, ◌+◌, ◌/◌, List, [], ltb, leb, ◌==◌, if◌then◌else◌, length, drop, Outcome, ok, err, panic,
  ◌>>=◌, ◌>>◌, assert,
}
use xfuse.Codec.{Bytes, Get, DecodeError, Bincode, repeat}
use xfuse.Sb.{Sb}
use xfuse.Bmbt.{Bmx, new}
use xfuse.Btree.Header.{bmap_magic, get_btree_hdr, get_record}

-- `BtreeRoot` and `BtreeIntermediate`: the level, the keys, the pointers and the cache of blocks below.
mutual
  pub data Btree : Type 0 where
    btree : (level : ℕ) → (keys ptrs : List ℕ) → BlockCache → Btree

  pub data BlockCache : Type 0 where
    intermediate : Subtrees → BlockCache
    leaf : List (ℕ × Bmx) → BlockCache

  pub data Subtrees : Type 0 where
    empty : Subtrees
    subtree : ℕ → Btree → Subtrees → Subtrees

-- `BlockCache::new` and `BtreeRoot::new`.
unfoldable pub cache_new : ℕ → BlockCache
cache_new level = if ltb 1 level then intermediate empty else leaf []

unfoldable pub btree_new : ℕ → List ℕ → List ℕ → Btree
unfolding cache_new
btree_new level keys ptrs = btree level keys ptrs (cache_new level)

module _ (bc : Bincode) (sb : Sb) where
  -- `Decode for BtreeIntermediate`, on the bytes of its block: the keys follow the header, and the
  -- pointers begin in the middle of the block.
  unfoldable pub intermediate_of : Bytes → Outcome DecodeError Btree
  unfolding get_btree_hdr btree_new repeat
  intermediate_of raw = do
    (hdr, behind) ← get_btree_hdr bc sb raw
    assert (ltb 0 hdr.bb_level)
    (keys, _) ← repeat hdr.bb_numrecs (bc.uint 8) behind
    let ofs = sb.sb_blocksize / 2 + (if hdr.bb_magic == bmap_magic then 8 else 32)
    assert (leb ofs (length raw))
    (ptrs, _) ← repeat hdr.bb_numrecs (bc.uint 8) (drop ofs raw)
    ok (btree_new hdr.bb_level keys ptrs)

  unfoldable pub get_intermediate : Get Btree
  unfolding intermediate_of
  get_intermediate bs = do
    (raw, rest) ← bc.read sb.sb_blocksize bs
    t ← intermediate_of raw
    ok (t, rest)

  -- `Decode for BtreeLeaf`: a record that cannot be decoded is a panic.
  unfoldable pub get_leaf : Get Bmx
  unfolding get_btree_hdr get_record repeat
  get_leaf bs = do
    (hdr, behind) ← get_btree_hdr bc sb bs
    assert (hdr.bb_level == 0)
    elim (repeat hdr.bb_numrecs (get_record bc) behind) [
      | ok (recs, rest) ↦ ok (new recs, rest)
      | err e ↦ panic
      | panic ↦ panic
    ]
