-- ===== src/Dir/Leaf.antt =====
-- src/libxfuse/dir3_lf.rs: leaf, node and B+tree directories, whose records and hash index stand in
-- blocks of the directory's own address space. The reader is given by its device.
pub mod Disk
pub mod Cache
pub mod Addresses
pub mod Rounds
pub mod Order
pub mod Level
pub mod Search
pub mod Lookup
pub mod Next
pub mod InBlock
pub mod Visit
pub mod Listing
use xfuse.Base.{
  ℕ, zero, suc, ◌+◌, ◌-◌, ◌*◌, ◌/◌, ◌%◌, ◌^◌, Option, none, some, List, [], ◌∷◌, Bool, true, false,
  ◌||◌, ltb, leb, ◌==◌, if◌then◌else◌, length, get_elem?, take, drop, add64, shl64, shr64, Outcome,
  ok, err, panic, ◌>>=◌, ◌>>◌, assert, unwrap, map_err, ok_or,
}
use xfuse.Codec.{Bytes, Bincode, slice_from, decode}
use xfuse.Codec.Encode.{bytes_eq}
use xfuse.Sb.{Sb, fsb_to_offset, get_dir3_leaf_offset}
use xfuse.FileType.{enoent}
use xfuse.Bmbt.{Bmx, lseek, map_dblock, seek_data, errno_enxio}
use xfuse.Btree.{tree_lseek}
use xfuse.DaBtree.{node_lookup}
use xfuse.DaBtree.Hash.{hashname}
use xfuse.Dir.{
  Dir2DataEntry, Dir2LeafEntry, dir2_data_hdr_size, dir3_data_hdr_size, get_length, get_data_entry,
  get_data_unused,
}
use xfuse.Dir.Sf.{Dirent, kind_of}
use xfuse.Dir.Index.{get_address_range, byte_address}
use xfuse.Dir.Leaf.Disk.{
  LeafNDisk, Leaf, leafn, btree, get_leafn, leaf1_magic, leafn_magic, leaf1_magic3, leafn_magic3,
}
use xfuse.DaBtree.Node.{get_intnode, magic_of, da_node_magic, da3_node_magic}

-- `Dfork`; a B+tree of extents is given by its `map_block`.
pub data Dfork : Type 0 where
  extents : Bmx → Dfork
  tree : (ℕ → Outcome ℕ (Option ℕ × Option ℕ)) → Dfork

-- The cache `blocks`, by block of the directory.
abbrev pub Blocks : Type 0
Blocks = List (ℕ × Bytes)

abbrev pub find_block : Blocks → ℕ → Option Bytes
find_block [] dblock = none
find_block ((d, raw) ∷ rest) dblock = if d == dblock then some raw else find_block rest dblock

-- `NodeLikeAddressIterator`: the leaf, and what is left of the range in it.
pub record AddressIterator : Type 0 where
  pub leaf : LeafNDisk
  pub start : ℕ
  pub stop : ℕ

-- `Dfork::lseek` and `Dfork::map_dblock`.
unfoldable pub dfork_lseek : Sb → Dfork → ℕ → ℕ → Outcome ℕ ℕ
dfork_lseek sb (extents bmx) offset whence = lseek bmx sb.sb_blocklog offset whence
dfork_lseek sb (tree map_block) offset whence = tree_lseek map_block sb.sb_blocklog offset whence

unfoldable pub dfork_map_dblock : Dfork → ℕ → Outcome ℕ ℕ
dfork_map_dblock (extents bmx) dblock = map_dblock bmx dblock >>= λ found. ok_or found enoent
dfork_map_dblock (tree map_block) dblock = map_block dblock >>= λ found. ok_or found.0 enoent

abbrev pub iterate : LeafNDisk → ℕ → AddressIterator
iterate leaf hash =
    let (i, j) = get_address_range leaf.ents hash in record { leaf = leaf; start = i; stop = j }

-- `self.leaf.ents.last().map(|e| e.hashval == self.hash).unwrap_or(false)`.
abbrev pub ends_with : List Dir2LeafEntry → ℕ → Bool
ends_with [] hash = false
ends_with (e ∷ []) hash = e.hashval == hash
ends_with (e ∷ f ∷ es) hash = ends_with (f ∷ es) hash

-- `1 << (sb_blocklog + sb_dirblklog)`: the size of a directory block, for a sum below 32.
abbrev pub dblksize : Sb → ℕ
dblksize sb = 2 ^ ((sb.sb_blocklog + sb.sb_dirblklog) % 256 % 64)

-- The number of the directory block that a byte offset lies in:
-- `(offset >> sb_blocklog) & !((1 << sb_dirblklog) - 1)`.
abbrev pub dblock_of : Sb → ℕ → ℕ
dblock_of sb offset =
    shr64 offset sb.sb_blocklog / 2 ^ (sb.sb_dirblklog % 32) * 2 ^ (sb.sb_dirblklog % 32)

module _ (bc : Bincode) (sb : Sb) (device : Bytes) (dfork : Dfork) where
  -- `read_fsblock`.
  unfoldable pub read_fsblock : ℕ → Outcome ℕ Bytes
  read_fsblock fsblock = do
    assert (leb (fsb_to_offset sb fsblock + dblksize sb) (length device))
    ok (take (dblksize sb) (drop (fsb_to_offset sb fsblock) device))

  -- What `read_dblock` reads when the block is not cached.
  unfoldable pub load_dblock : ℕ → Outcome ℕ Bytes
  unfolding dfork_map_dblock read_fsblock
  load_dblock dblock = dfork_map_dblock dfork dblock >>= λ fsblock. read_fsblock fsblock

  -- `read_dblock`: the block, and the cache with it.
  unfoldable pub read_dblock : Blocks → ℕ → Outcome ℕ (Bytes × Blocks)
  unfolding load_dblock
  read_dblock blocks dblock = elim (find_block blocks dblock) [
    | some raw ↦ ok (raw, blocks)
    | none ↦ (do raw ← load_dblock dblock; ok (raw, (dblock, raw) ∷ blocks))
  ]

  -- `Leaf::open`.
  unfoldable pub open_leaf : Bytes → Outcome ℕ Leaf
  open_leaf raw = do
    at_magic ← slice_from raw 8
    magic ← decode (bc.uint 2) at_magic
    if magic == da_node_magic || magic == da3_node_magic
        then (do
          node ← decode (get_intnode bc sb) raw
          assert (magic_of node == da3_node_magic || magic_of node == da_node_magic)
          ok (btree node))
        else if magic == leafn_magic
            || (magic == leafn_magic3 || (magic == leaf1_magic || magic == leaf1_magic3))
        then (do leaf ← decode (get_leafn bc sb) raw; ok (leafn leaf))
        else panic

  -- Loops and the descent in the B+tree run on fuel; out of fuel is a panic.
  module _ (fuel : ℕ) where
    -- `Leaf::lookup_leaf_blk`.
    unfoldable pub lookup_leaf_blk : Blocks → Leaf → ℕ → Outcome ℕ (LeafNDisk × Blocks)
    unfolding read_dblock
    lookup_leaf_blk blocks (leafn leaf) hash = ok (leaf, blocks)
    lookup_leaf_blk blocks (btree node) hash = do
      (dablk, node1) ←
          node_lookup bc sb device (λ block. unwrap (dfork_map_dblock dfork block)) fuel node hash
      (raw, blocks1) ← read_dblock blocks dablk
      leaf ← decode (get_leafn bc sb) raw
      ok (leaf, blocks1)

    -- `NodeLikeAddressIterator::new`.
    unfoldable pub addresses_new : Blocks → ℕ → Outcome ℕ (AddressIterator × Blocks)
    unfolding open_leaf lookup_leaf_blk
    addresses_new blocks hash = do
      (raw, blocks1) ← read_dblock blocks (get_dir3_leaf_offset sb)
      root ← open_leaf raw
      (leaf, blocks2) ← lookup_leaf_blk blocks1 root hash
      ok (iterate leaf hash, blocks2)

  -- `NodeLikeAddressIterator::next`, with the iterator that is left. A leaf that cannot be read ends
  -- the iteration.
  unfoldable pub addresses_next :
      ℕ → ℕ → Blocks → AddressIterator → Outcome ℕ (Option (ℕ × AddressIterator) × Blocks)
  unfolding read_dblock
  addresses_next zero hash blocks it = panic
  addresses_next (suc fuel) hash blocks it =
      if ltb it.start it.stop
      then elim (get_elem? it.leaf.ents it.start) [
        | none ↦ panic
        | some ent ↦ ok (some (byte_address ent, record it { start = it.start + 1 }), blocks)
      ]
      else if ends_with it.leaf.ents hash
      then elim (read_dblock blocks it.leaf.forw) [
        | panic ↦ panic
        | err e ↦ ok (none, blocks)
        | ok (raw, blocks1) ↦ (do
          leaf ← decode (get_leafn bc sb) raw
          addresses_next fuel hash blocks1 (iterate leaf hash))
      ]
      else ok (none, blocks)

  -- The loop of `lookup`, a round for each address.
  unfoldable pub lookup_rounds : ℕ → ℕ → Bytes → Blocks → AddressIterator → Outcome ℕ (ℕ × Blocks)
  unfolding addresses_next
  lookup_rounds zero hash name blocks it = panic
  lookup_rounds (suc fuel) hash name blocks it = do
    (found, blocks1) ← addresses_next (suc fuel) hash blocks it
    elim found [
      | none ↦ err enoent
      | some (address, it1) ↦ do
        (raw, blocks2) ← read_dblock blocks1 (dblock_of sb address)
        record_bytes ← slice_from raw (address % dblksize sb)
        entry ← decode (get_data_entry bc sb) record_bytes
        let rest = lookup_rounds fuel hash name blocks2 it1
        if bytes_eq entry.name name then ok (entry.inumber, blocks2) else rest
    ]

  -- `lookup`. When the leaf cannot be found there is no address.
  unfoldable pub leaf_lookup : ℕ → Blocks → Bytes → Outcome ℕ (ℕ × Blocks)
  unfolding addresses_new lookup_rounds
  leaf_lookup fuel blocks name = elim (addresses_new fuel blocks (hashname name)) [
    | panic ↦ panic
    | err e ↦ err enoent
    | ok (it, blocks1) ↦ lookup_rounds fuel (hashname name) name blocks1 it
  ]
