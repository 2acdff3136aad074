-- ===== src/Attr/Node.antt =====
-- An attribute fork with a B+tree over its leaves, in an extent list: src/libxfuse/attr_node.rs. `total_size`
-- is `none` for -1.
pub mod Listing
use xfuse.Base.{
  ℕ, List, [], ◌∷◌, Option, none, some, ◌==◌, if◌then◌else◌, Outcome, ok, err, panic, ◌>>=◌,
  map_err,
}
use xfuse.Codec.{Bytes, Bincode}
use xfuse.Sb.{Sb}
use xfuse.FileType.{enoent}
use xfuse.Bmbt.{Bmx}
use xfuse.DaBtree.{first_block, node_lookup}
use xfuse.DaBtree.Hash.{hashname}
use xfuse.DaBtree.Node.{Intnode}
use xfuse.Attr.Leaf.{attr_map_dblock}
use xfuse.Attr.Leafblock.Operations.{leaf_get}
use xfuse.Attr.Leaves.{Leaves, read_leaf, while_leaves, add_size, add_names}

pub record AttrNode : Type 0 where
  pub bmx : Bmx
  pub node : Intnode
  pub total_size : Option ℕ
  pub leaves : Leaves

-- `AttrNode::new`.
unfoldable pub attr_node_new : Bmx → Intnode → AttrNode
attr_node_new bmx node = record { bmx = bmx; node = node; total_size = none; leaves = [] }

-- On a device; the loops and the descent run on fuel.
module _ (bc : Bincode) (sb : Sb) (device : Bytes) (fuel : ℕ) where
  -- `get_total_size`, on the size that is kept.
  unfoldable pub node_total_or : Option ℕ → AttrNode → Outcome ℕ (ℕ × AttrNode)
  unfolding attr_map_dblock add_size
  node_total_or (some n) a = ok (n, a)
  node_total_or none a = do
    (dablk, node1) ← first_block bc sb device (attr_map_dblock a.bmx) fuel a.node
    (total, leaves1) ←
        while_leaves bc sb device (attr_map_dblock a.bmx) add_size fuel a.leaves dablk 0
    ok (total, record a { node = node1; total_size = some total; leaves = leaves1 })

  unfoldable pub node_total_size : AttrNode → Outcome ℕ (ℕ × AttrNode)
  unfolding node_total_or
  node_total_size a = node_total_or a.total_size a

  unfoldable pub node_list : AttrNode → Outcome ℕ (Bytes × AttrNode)
  unfolding node_total_size add_names
  node_list a = do
    (size, a1) ← node_total_size a
    (dablk, node1) ← first_block bc sb device (attr_map_dblock a1.bmx) fuel a1.node
    (list, leaves1) ←
        while_leaves bc sb device (attr_map_dblock a1.bmx) add_names fuel a1.leaves dablk []
    ok (list, record a1 { node = node1; leaves = leaves1 })

  -- `get`; the leaf that keeps a value takes its place in the cache.
  unfoldable pub node_get :
      (List ℕ → ℕ → Option ℕ) → ℕ → AttrNode → Bytes → Outcome ℕ (Bytes × AttrNode)
  node_get search enoattr a name = do
    let hash = hashname name
    let map_dblock = attr_map_dblock a.bmx
    (dablk, node1) ←
        map_err (λ e. if e == enoent then enoattr else e)
          (node_lookup bc sb device map_dblock fuel a.node hash)
    (leaf, leaves1) ← read_leaf bc sb device map_dblock a.leaves dablk
    (value, leaf1) ← leaf_get search enoattr bc sb device map_dblock fuel leaf hash
    ok (value, record a { node = node1; leaves = (dablk, leaf1) ∷ leaves1 })
