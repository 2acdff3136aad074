-- ===== src/Attr/Leaf.antt =====
-- An attribute fork that is one leaf block, src/libxfuse/attr_leaf.rs. `total_size` is `none` for the -1
-- that stands for a size not yet added up.
use xfuse.Base.{ℕ, List, [], Option, none, some, Outcome, ok, ◌>>=◌, expect_some, map_ok}
use xfuse.Codec.{Bytes, Bincode}
use xfuse.Sb.{Sb}
use xfuse.Bmbt.{Bmx, map_dblock}
use xfuse.DaBtree.Hash.{hashname}
use xfuse.Attr.Leafblock.{AttrLeafblock}
use xfuse.Attr.Leafblock.Operations.{leaf_total_size, leaf_list, leaf_get}

pub record AttrLeaf : Type 0 where
  pub bmx : Bmx
  pub leaf : AttrLeafblock
  pub total_size : Option ℕ

-- `map_dblock(block).expect(..)`.
unfoldable pub attr_map_dblock : Bmx → ℕ → Outcome ℕ ℕ
attr_map_dblock bmx block = map_dblock bmx block >>= expect_some

unfoldable pub fork_total_size : AttrLeaf → ℕ × AttrLeaf
fork_total_size a = elim a.total_size [
  | some n ↦ (n, a)
  | none ↦ (leaf_total_size a.leaf, record a { total_size = some (leaf_total_size a.leaf) })
]

unfoldable pub fork_list : AttrLeaf → Outcome ℕ (Bytes × AttrLeaf)
unfolding fork_total_size
fork_list a =
    map_ok (λ (list : Bytes). (list, (fork_total_size a).1))
      (leaf_list (fork_total_size a).1.leaf [])

-- `get`, on a device.
unfoldable pub fork_get :
    (List ℕ → ℕ → Option ℕ)
    → ℕ
    → Bincode
    → Sb
    → Bytes
    → ℕ
    → AttrLeaf
    → Bytes
    → Outcome ℕ (Bytes × AttrLeaf)
unfolding attr_map_dblock
fork_get search enoattr bc sb device fuel a name = do
  (value, leaf1) ←
      leaf_get search enoattr bc sb device (attr_map_dblock a.bmx) fuel a.leaf (hashname name)
  ok (value, record a { leaf = leaf1 })
