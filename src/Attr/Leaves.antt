-- ===== src/Attr/Leaves.antt =====
-- The leaf blocks of the attribute forks of src/libxfuse/attr_node.rs and src/libxfuse/attr_bptree.rs, with
-- their cache, and the loops over them. `map_dblock` is what maps the blocks of the fork.
pub mod Chain
pub mod Listed
use xfuse.Base.{
  ℕ, zero, suc, List, [], ◌∷◌, Option, none, some, ltb, ◌==◌, if◌then◌else◌, length, drop, Outcome,
  ok, err, panic, unwrap, ◌>>=◌, ◌>>◌, assert,
}
use xfuse.Codec.{Bytes, Bincode, decode}
use xfuse.Sb.{Sb, fsb_to_offset}
use xfuse.Attr.{add32}
use xfuse.Attr.Leafblock.{AttrLeafblock}
use xfuse.Attr.Leafblock.Decode.{get_attr_leafblock}
use xfuse.Attr.Leafblock.Operations.{leaf_total_size, leaf_list}

-- The cache `leaves`.
abbrev pub Leaves : Type 0
Leaves = List (ℕ × AttrLeafblock)

abbrev pub find_leaf : Leaves → ℕ → Option AttrLeafblock
find_leaf [] dblock = none
find_leaf ((d, leaf) ∷ rest) dblock = if d == dblock then some leaf else find_leaf rest dblock

-- What the loops of `get_total_size` and `list` do with a leaf.
unfoldable pub add_size : AttrLeafblock → ℕ → Outcome ℕ ℕ
add_size leaf total = ok (add32 total (leaf_total_size leaf))

unfoldable pub add_names : AttrLeafblock → Bytes → Outcome ℕ Bytes
add_names leaf list = leaf_list leaf list

module _ (bc : Bincode) (sb : Sb) (device : Bytes) (map_dblock : ℕ → Outcome ℕ ℕ) where
  -- What `read_leaf` reads of a block that is not cached.
  unfoldable pub load_leaf : ℕ → Outcome ℕ AttrLeafblock
  unfolding get_attr_leafblock
  load_leaf dblock = do
    fsblock ← map_dblock dblock
    let leaf_offset = fsb_to_offset sb fsblock
    assert (ltb leaf_offset (length device))
    decode (get_attr_leafblock bc sb) (drop leaf_offset device)

  -- `read_leaf`: the leaf, and the cache with it.
  unfoldable pub read_leaf : Leaves → ℕ → Outcome ℕ (AttrLeafblock × Leaves)
  unfolding load_leaf
  read_leaf leaves dblock = elim (find_leaf leaves dblock) [
    | some leaf ↦ ok (leaf, leaves)
    | none ↦ (do leaf ← load_leaf dblock; ok (leaf, (dblock, leaf) ∷ leaves))
  ]

  module _ {S : Type 0} (visit : AttrLeafblock → S → Outcome ℕ S) where
    -- The loop of AttrNode, `while dablk != 0`; out of fuel is a panic.
    unfoldable pub while_leaves : ℕ → Leaves → ℕ → S → Outcome ℕ (S × Leaves)
    unfolding read_leaf
    while_leaves zero leaves dablk s = panic
    while_leaves (suc fuel) leaves dablk s =
        let more = (do
          (leaf, leaves1) ← unwrap (read_leaf leaves dablk)
          s1 ← visit leaf s
          while_leaves fuel leaves1 leaf.hdr.forw s1) in
        if dablk == 0 then ok (s, leaves) else more

    -- The loop of AttrBtree, which tests `forw` behind the leaf.
    unfoldable pub loop_leaves : ℕ → Leaves → ℕ → S → Outcome ℕ (S × Leaves)
    unfolding read_leaf
    loop_leaves zero leaves dablk s = panic
    loop_leaves (suc fuel) leaves dablk s = do
      (leaf, leaves1) ← unwrap (read_leaf leaves dablk)
      s1 ← visit leaf s
      let more = loop_leaves fuel leaves1 leaf.hdr.forw s1
      if leaf.hdr.forw == 0 then ok (s1, leaves1) else more
