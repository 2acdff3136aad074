-- ===== src/Attr/Fork.antt =====
-- `open` and the enum `Attributes` of src/libxfuse/attr.rs: an attribute fork in any of its four formats.
pub mod Replies
use xfuse.Base.{
  ℕ, ◌+◌, List, Option, none, some, leb, ◌==◌, ◌||◌, if◌then◌else◌, length, take, drop, get_elem?,
  Outcome, ok, panic, ◌>>=◌, ◌>>◌, assert, map_ok,
}
use xfuse.Codec.{Bytes, Bincode, decode, slice_from}
use xfuse.Sb.{Sb, fsb_to_offset}
use xfuse.Bmbt.{Bmx}
use xfuse.DaBtree.Node.{get_intnode, da_node_magic, da3_node_magic}
use xfuse.Attr.{AttrShortform, list_from, get_from}
use xfuse.Attr.Leafblock.{attr_leaf_magic, attr3_leaf_magic}
use xfuse.Attr.Leafblock.Decode.{get_attr_leafblock}
use xfuse.Attr.Leaf.{AttrLeaf, fork_total_size, fork_list, fork_get}
use xfuse.Attr.Node.{AttrNode, attr_node_new, node_total_size, node_list, node_get}
use xfuse.Attr.Bptree.{AttrBtree, tree_total_size, tree_list, tree_get}

pub data Attributes : Type 0 where
  sf : AttrShortform → Attributes
  leaf : AttrLeaf → Attributes
  node : AttrNode → Attributes
  btree : AttrBtree → Attributes

module _ (bc : Bincode) (sb : Sb) (device : Bytes) where
  unfoldable pub open_attributes : Bmx → Outcome ℕ Attributes
  unfolding attr_node_new
  open_attributes bmx = elim (get_elem? bmx 0) [
    | none ↦ panic
    | some first ↦ do
      let ofs = fsb_to_offset sb first.br_startblock
      assert (leb (ofs + sb.sb_blocksize) (length device))
      let raw = take sb.sb_blocksize (drop ofs device)
      at_magic ← slice_from raw 8
      magic ← decode (bc.uint 2) at_magic
      if magic == attr_leaf_magic || magic == attr3_leaf_magic
          then (do
            block ← decode (get_attr_leafblock bc sb) raw
            ok (leaf (record { bmx = bmx; leaf = block; total_size = none })))
          else if magic == da_node_magic || magic == da3_node_magic
          then (do n ← decode (get_intnode bc sb) raw; ok (node (attr_node_new bmx n)))
          else panic
  ]

  -- The trait's operations; the loops and the descents run on fuel.
  module _ (fuel enoattr : ℕ) where
    unfoldable pub get_total_size : Attributes → Outcome ℕ (ℕ × Attributes)
    get_total_size (sf a) = ok (a.total_size, sf a)
    get_total_size (leaf a) = ok ((fork_total_size a).0, leaf (fork_total_size a).1)
    get_total_size (node a) =
        map_ok (λ (r : ℕ × AttrNode). (r.0, node r.1)) (node_total_size bc sb device fuel a)
    get_total_size (btree a) =
        map_ok (λ (r : ℕ × AttrBtree). (r.0, btree r.1))
          (tree_total_size bc sb device fuel enoattr a)

    unfoldable pub list : Attributes → Outcome ℕ (Bytes × Attributes)
    list (sf a) = map_ok (λ (names : Bytes). (names, sf a)) (list_from a.list)
    list (leaf a) = map_ok (λ (r : Bytes × AttrLeaf). (r.0, leaf r.1)) (fork_list a)
    list (node a) =
        map_ok (λ (r : Bytes × AttrNode). (r.0, node r.1)) (node_list bc sb device fuel a)
    list (btree a) =
        map_ok (λ (r : Bytes × AttrBtree). (r.0, btree r.1)) (tree_list bc sb device fuel enoattr a)

    unfoldable pub get :
        (List ℕ → ℕ → Option ℕ) → Attributes → Bytes → Outcome ℕ (Bytes × Attributes)
    get search (sf a) name = map_ok (λ (v : Bytes). (v, sf a)) (get_from enoattr a.list name)
    get search (leaf a) name =
        map_ok (λ (r : Bytes × AttrLeaf). (r.0, leaf r.1))
          (fork_get search enoattr bc sb device fuel a name)
    get search (node a) name =
        map_ok (λ (r : Bytes × AttrNode). (r.0, node r.1))
          (node_get bc sb device fuel search enoattr a name)
    get search (btree a) name =
        map_ok (λ (r : Bytes × AttrBtree). (r.0, btree r.1))
          (tree_get bc sb device fuel enoattr search a name)
