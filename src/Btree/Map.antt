-- ===== src/Btree/Map.antt =====
-- `map_block` of src/libxfuse/btree.rs: the search from the root, which keeps the blocks that it reads.
use xfuse.Base.{
  ℕ, zero, suc, ◌-◌, List, [], ◌∷◌, Option, none, some, ltb, leb, ◌==◌, if◌then◌else◌, length, drop,
  partition_point, Outcome, ok, panic, ◌>>=◌, ◌>>◌, assert, index, map_ok, map_err,
}
use xfuse.Codec.{Bytes, Bincode, Get}
use xfuse.Sb.{Sb, fsb_to_offset}
use xfuse.Bmbt.{Bmx, get_extent}
use xfuse.Btree.Node.{
  Btree, btree, intermediate, leaf, Subtrees, empty, subtree, get_intermediate, get_leaf,
}

abbrev pub find_subtree : Subtrees → ℕ → Option Btree
find_subtree empty idx = none
find_subtree (subtree i t rest) idx = if i == idx then some t else find_subtree rest idx

abbrev pub find_leaf : List (ℕ × Bmx) → ℕ → Option Bmx
find_leaf [] idx = none
find_leaf ((i, bmx) ∷ rest) idx = if i == idx then some bmx else find_leaf rest idx

-- The child to descend into: the last whose key is not behind the block, or the first.
abbrev pub child_of : List ℕ → ℕ → ℕ
child_of keys logical_block = partition_point (λ (k : ℕ). leb k logical_block) keys - 1

-- On a device; `edestaddrreq` is libc's EDESTADDRREQ, whose number is the platform's.
module _ (bc : Bincode) (sb : Sb) (device : Bytes) (edestaddrreq : ℕ) where
  -- A block, at a seek and from there on.
  unfoldable pub load_block : {A : Type 0} → Get A → ℕ → Outcome ℕ A
  load_block {A} g ptr = do
    let offset = fsb_to_offset sb ptr
    assert (ltb offset (length device))
    map_err (λ e. edestaddrreq) (map_ok (λ (r : A × Bytes). r.0) (g (drop offset device)))

  -- The child at an index, and the cache with it.
  unfoldable pub read_subtree : Subtrees → List ℕ → ℕ → Outcome ℕ (Btree × Subtrees)
  unfolding load_block get_intermediate
  read_subtree kids ptrs idx = elim (find_subtree kids idx) [
    | some t ↦ ok (t, kids)
    | none ↦ do
      ptr ← index ptrs idx
      t ← load_block (get_intermediate bc sb) ptr
      ok (t, subtree idx t kids)
  ]

  unfoldable pub read_extents : List (ℕ × Bmx) → List ℕ → ℕ → Outcome ℕ (Bmx × List (ℕ × Bmx))
  unfolding load_block get_leaf
  read_extents leaves ptrs idx = elim (find_leaf leaves idx) [
    | some bmx ↦ ok (bmx, leaves)
    | none ↦ do
      ptr ← index ptrs idx
      bmx ← load_block (get_leaf bc sb) ptr
      ok (bmx, (idx, bmx) ∷ leaves)
  ]

  -- `map_block`, with the tree and what it has kept; out of fuel is a panic.
  unfoldable pub map_block : ℕ → Btree → ℕ → Outcome ℕ ((Option ℕ × Option ℕ) × Btree)
  unfolding read_subtree read_extents
  map_block zero t logical_block = panic
  map_block (suc fuel) (btree level keys ptrs (intermediate kids)) logical_block = do
    let idx = child_of keys logical_block
    assert (ltb 1 level)
    (child, kids1) ← read_subtree kids ptrs idx
    (found, child1) ← map_block fuel child logical_block
    ok (found, btree level keys ptrs (intermediate (subtree idx child1 kids1)))
  map_block (suc fuel) (btree level keys ptrs (leaf leaves)) logical_block = do
    let idx = child_of keys logical_block
    assert (leb level 1)
    (bmx, leaves1) ← read_extents leaves ptrs idx
    found ← get_extent bmx logical_block
    ok (found, btree level keys ptrs (leaf leaves1))
