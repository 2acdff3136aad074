-- ===== src/Attr/Bptree.antt =====
-- An attribute fork in a B+tree of extents: src/libxfuse/attr_bptree.rs. `total_size` is `none` for -1.
pub mod Listing
use xfuse.Base.{
  ℕ, List, [], ◌∷◌, Option, none, some, ◌==◌, ◌||◌, if◌then◌else◌, drop, length, ltb, Outcome, ok,
  err, panic, ◌>>=◌, ◌>>◌, assert, map_err, map_ok, unwrap, expect_some, ok_or,
}
use xfuse.Codec.{Bytes, Bincode, decode}
use xfuse.Sb.{Sb, fsb_to_offset}
use xfuse.FileType.{enoent}
use xfuse.DaBtree.{first_block, node_lookup}
use xfuse.DaBtree.Hash.{hashname}
use xfuse.DaBtree.Node.{Intnode, from, peek_magic, da_node_magic, da3_node_magic}
use xfuse.Attr.Leafblock.{AttrLeafblock, attr_leaf_magic, attr3_leaf_magic}
use xfuse.Attr.Leafblock.Operations.{leaf_get}
use xfuse.Attr.Leaves.{Leaves, read_leaf, loop_leaves, add_size, add_names}

pub data AttrBtreeBlock0 : Type 0 where
  node : Intnode → AttrBtreeBlock0
  leaf : AttrBtreeBlock0

-- `AttrBtreeBlock0::new`, at the bytes that the reader stands in front of.
unfoldable pub block0_new : Bincode → Sb → Bytes → Outcome ℕ AttrBtreeBlock0
unfolding from
block0_new bc sb bytes = do
  magic ← decode (peek_magic bc sb) bytes
  if magic == da_node_magic || magic == da3_node_magic
      then map_ok node (from bc sb bytes)
      else if magic == attr_leaf_magic || magic == attr3_leaf_magic
      then ok leaf
      else panic

-- The answers of the fork's B+tree of extents are `map_block`.
pub record AttrBtree : Type 0 where
  pub map_block : ℕ → Outcome ℕ (Option ℕ × Option ℕ)
  pub total_size : Option ℕ
  pub block0 : AttrBtreeBlock0
  pub leaves : Leaves

-- `AttrBtree::map_dblock`, and the closure that unwraps it.
unfoldable pub tree_map_dblock : ℕ → (ℕ → Outcome ℕ (Option ℕ × Option ℕ)) → ℕ → Outcome ℕ ℕ
tree_map_dblock enoattr map_block block = map_block block >>= λ found. ok_or found.0 enoattr

module _ (bc : Bincode) (sb : Sb) (device : Bytes) where
  -- `AttrBtree::new`.
  unfoldable pub attr_btree_new : (ℕ → Outcome ℕ (Option ℕ × Option ℕ)) → Outcome ℕ AttrBtree
  unfolding block0_new
  attr_btree_new map_block = do
    (start, len) ← unwrap (map_block 0)
    fsblk ← expect_some start
    assert (ltb (fsb_to_offset sb fsblk) (length device))
    b ← block0_new bc sb (drop (fsb_to_offset sb fsblk) device)
    ok (record { map_block = map_block; total_size = none; block0 = b; leaves = [] })

  module _ (fuel enoattr : ℕ) where
    -- `AttrBtreeBlock0::first_block` and `lookup`, with what the node caches.
    unfoldable pub block0_first :
        (ℕ → Outcome ℕ ℕ) → AttrBtreeBlock0 → Outcome ℕ (ℕ × AttrBtreeBlock0)
    block0_first map_dblock (node n) =
        map_ok (λ (r : ℕ × Intnode). (r.0, node r.1)) (first_block bc sb device map_dblock fuel n)
    block0_first map_dblock leaf = ok (0, leaf)

    unfoldable pub block0_lookup :
        (ℕ → Outcome ℕ ℕ) → AttrBtreeBlock0 → ℕ → Outcome ℕ (ℕ × AttrBtreeBlock0)
    block0_lookup map_dblock (node n) hash =
        map_ok (λ (r : ℕ × Intnode). (r.0, node r.1))
          (node_lookup bc sb device map_dblock fuel n hash)
    block0_lookup map_dblock leaf hash = ok (0, leaf)

    -- `get_total_size`, on the size that is kept.
    unfoldable pub tree_total_or : Option ℕ → AttrBtree → Outcome ℕ (ℕ × AttrBtree)
    unfolding tree_map_dblock block0_first add_size
    tree_total_or (some n) a = ok (n, a)
    tree_total_or none a = do
      let map_dblock = tree_map_dblock enoattr a.map_block
      (dablk, b) ← block0_first (λ d. unwrap (map_dblock d)) a.block0
      (total, leaves1) ← loop_leaves bc sb device map_dblock add_size fuel a.leaves dablk 0
      ok (total, record a { block0 = b; total_size = some total; leaves = leaves1 })

    unfoldable pub tree_total_size : AttrBtree → Outcome ℕ (ℕ × AttrBtree)
    unfolding tree_total_or
    tree_total_size a = tree_total_or a.total_size a

    unfoldable pub tree_list : AttrBtree → Outcome ℕ (Bytes × AttrBtree)
    unfolding tree_total_size add_names
    tree_list a = do
      (size, a1) ← tree_total_size a
      let map_dblock = tree_map_dblock enoattr a1.map_block
      (dablk, b) ← block0_first (λ d. unwrap (map_dblock d)) a1.block0
      (list, leaves1) ← loop_leaves bc sb device map_dblock add_names fuel a1.leaves dablk []
      ok (list, record a1 { block0 = b; leaves = leaves1 })

    -- `AttrBtree::read_leaf`.
    unfoldable pub tree_read_leaf : AttrBtree → ℕ → Outcome ℕ (AttrLeafblock × Leaves)
    tree_read_leaf a dblock =
        read_leaf bc sb device (tree_map_dblock enoattr a.map_block) a.leaves dblock

    -- `get`; the leaf that keeps a value takes its place in the cache.
    unfoldable pub tree_get :
        (List ℕ → ℕ → Option ℕ) → AttrBtree → Bytes → Outcome ℕ (Bytes × AttrBtree)
    unfolding block0_lookup tree_read_leaf
    tree_get search a name = do
      let hash = hashname name
      let map_dblock = tree_map_dblock enoattr a.map_block
      (dablk, b) ←
          map_err (λ e. if e == enoent then enoattr else e)
            (block0_lookup (λ d. unwrap (map_dblock d)) a.block0 hash)
      (l, leaves1) ← tree_read_leaf a dablk
      (value, l1) ← leaf_get search enoattr bc sb device (λ d. unwrap (map_dblock d)) fuel l hash
      ok (value, record a { block0 = b; leaves = (dablk, l1) ∷ leaves1 })
