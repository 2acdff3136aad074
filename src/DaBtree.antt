-- ===== src/DaBtree.antt =====
-- src/libxfuse/da_btree.rs: the B+tree that maps the hash of a name to a block of a directory or of an
-- attribute fork. The reader is given by its device: a seek and the reads behind it take the bytes from
-- that offset on.
pub mod Hash
pub mod Node
pub mod Forest
pub mod Search
pub mod Layout
use xfuse.Base.{
  ℕ, zero, suc, Option, none, some, ltb, ◌==◌, if◌then◌else◌, length, drop, get_elem?,
  partition_point, Outcome, ok, err, panic, ◌>>=◌, ◌>>◌, assert, expect_some,
}
use xfuse.Codec.{Bytes, Bincode}
use xfuse.Sb.{Sb, fsb_to_offset}
use xfuse.FileType.{enoent}
use xfuse.DaBtree.Node.{NodeEntry, Intnode, Children, intnode, nothing, cached, from}

abbrev pub find_child : Children → ℕ → Option Intnode
find_child nothing dblock = none
find_child (cached d node rest) dblock = if d == dblock then some node else find_child rest dblock

-- The tree, on a device, in a fork that maps its blocks; `map_dblock` is the caller's closure.
module _ (bc : Bincode) (sb : Sb) (device : Bytes) (map_dblock : ℕ → Outcome ℕ ℕ) where
  -- The block that `read_child` reads when it is not cached: seek, fill the buffer, decode.
  unfoldable pub load : ℕ → Outcome ℕ Intnode
  unfolding from
  load dblock = do
    fsblock ← map_dblock dblock
    let offset = fsb_to_offset sb fsblock
    assert (ltb offset (length device))
    from bc sb (drop offset device)

  -- The child, and the cache with it.
  unfoldable pub read_child : Children → ℕ → Outcome ℕ (Intnode × Children)
  unfolding load
  read_child children dblock = elim (find_child children dblock) [
    | some node ↦ ok (node, children)
    | none ↦ (do node ← load dblock; ok (node, cached dblock node children))
  ]

  -- The `else` of `lookup` and `first_block`: `go` is the call on the child. What it caches below the
  -- child shadows the child in the cache.
  abbrev pub in_child : Intnode → ℕ → (Intnode → Outcome ℕ (ℕ × Intnode)) → Outcome ℕ (ℕ × Intnode)
  in_child (intnode magic level btree children) dblock go = do
    (child, children1) ← read_child children dblock
    (found, child1) ← go child
    ok (found, intnode magic level btree (cached dblock child1 children1))

  -- `lookup`; the node is returned with what was cached on the way. Out of fuel is a panic.
  unfoldable pub node_lookup : ℕ → Intnode → ℕ → Outcome ℕ (ℕ × Intnode)
  unfolding read_child
  node_lookup zero node hash = panic
  node_lookup (suc fuel) (intnode magic level btree children) hash =
      let self = intnode magic level btree children in
      elim (get_elem? btree (partition_point (λ (k : NodeEntry). ltb k.hashval hash) btree)) [
        | none ↦ err enoent
        | some entry ↦
            let deeper = in_child self entry.before (λ child. node_lookup fuel child hash) in
            if level == 1 then ok (entry.before, self) else (assert (ltb 1 level) >> deeper)
      ]

  -- `first_block`.
  unfoldable pub first_block : ℕ → Intnode → Outcome ℕ (ℕ × Intnode)
  unfolding read_child
  first_block zero node = panic
  first_block (suc fuel) (intnode magic level btree children) = do
    let self = intnode magic level btree children
    entry ← expect_some (get_elem? btree 0)
    let deeper = in_child self entry.before (λ child. first_block fuel child)
    if level == 1 then ok (entry.before, self) else deeper
