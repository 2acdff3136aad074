-- ===== src/Dir/Leaf/Lookup.antt =====
-- `lookup` in a leaf, node or B+tree directory (src/libxfuse/dir3_lf.rs) against a plain search.
use xfuse.Base.{ℕ, suc, ◌+◌, ◌<◌, ◌≡◌, subst, List, length, ok}
use xfuse.Codec.{Bytes, Bincode}
use xfuse.Sb.{Sb, get_dir3_leaf_offset}
use xfuse.Dir.{Dir2DataEntry}
use xfuse.Dir.Index.Range.{IsIndex}
use xfuse.Dir.Index.Names.{by_name, IsIndexOf, by_name-keep}
use xfuse.Dir.Leaf.{Dfork, Blocks, open_leaf, leaf_lookup}
use xfuse.Dir.Leaf.Disk.{LeafNDisk, Leaf, leafn, btree}
use xfuse.Dir.Leaf.Cache.{Holds, IsBlocks, read_dblock_lem}
use xfuse.Dir.Leaf.Rounds.{PointsTo, Answers}
use xfuse.Dir.Leaf.Order.{ents_of}
use xfuse.DaBtree.Node.{intnode}
use xfuse.DaBtree.Hash.{hashname}
use xfuse.Dir.Leaf.Search.{IsRoot, in_single, in_node}

-- The index of a leaf, node or B+tree directory is one leaf, or a B+tree over a row of leaves in which
-- each is linked to the next. When the index is sorted by hash and gives, for each of the directory's
-- entries, its record and the hash of its name, then `lookup` returns what a search through all entries
-- by name returns: the inode number of the entry, and ENOENT when no entry has the name. This is for a
-- name whose hash is not the greatest of the directory, whether or not it collides with others and
-- whatever the leaves they stand in, and for any cache that holds what the device holds, as it does
-- afterwards. The lookup ends, with a round for each entry and each leaf.
pub leaf_lookup-by_name :
    (bc : Bincode) (sb : Sb) (device : Bytes) (dfork : Dfork) (fuel : ℕ) (name raw : Bytes)
    (root : Leaf) (ls : List LeafNDisk) (es : List Dir2DataEntry) (blocks : Blocks)
    → Holds bc sb device dfork (get_dir3_leaf_offset sb) raw
    → open_leaf bc sb device dfork raw ≡ ok root
    → IsRoot bc sb device dfork fuel (hashname name) ls root
    → IsIndex (ents_of ls)
    → IsIndexOf (PointsTo bc sb device dfork) (ents_of ls) es
    → IsBlocks bc sb device dfork blocks
    → length (ents_of ls) + length ls < fuel
    → Answers bc sb device dfork (by_name name es) (leaf_lookup bc sb device dfork fuel blocks name)
leaf_lookup-by_name bc sb device dfork fuel name raw (leafn l) ls es blocks h opened single s idx b
      size =
    let (kept, idx', q) =
      by_name-keep (PointsTo bc sb device dfork) (λ ent e p. p.hashed) (ents_of ls) es name idx in
    let (blocks0, read0, b0) =
      read_dblock_lem bc sb device dfork blocks (get_dir3_leaf_offset sb) raw h b in
    subst (λ z. Answers bc sb device dfork z (leaf_lookup bc sb device dfork fuel blocks name)) q
      (in_single bc sb device dfork fuel name l ls raw blocks blocks0 kept read0 b0 opened single
        idx' size)
leaf_lookup-by_name bc sb device dfork fuel name raw (btree (intnode magic level b kids)) ls es
      blocks h opened (n, es_index, lv, none_cached, lt, tree, v, free) s idx b0 size =
    let (kept, idx', q) =
      by_name-keep (PointsTo bc sb device dfork) (λ ent e p. p.hashed) (ents_of ls) es name idx in
    let (blocks0, read0, b1) =
      read_dblock_lem bc sb device dfork blocks (get_dir3_leaf_offset sb) raw h b0 in
    let opened' =
      subst (λ z. open_leaf bc sb device dfork raw ≡ ok (btree (intnode magic z b kids))) lv
        opened in
    let opened'' =
      subst (λ z. open_leaf bc sb device dfork raw ≡ ok (btree (intnode magic (suc n) b z)))
        none_cached opened' in
    subst (λ z. Answers bc sb device dfork z (leaf_lookup bc sb device dfork fuel blocks name)) q
      (in_node bc sb device dfork fuel name magic n b raw blocks blocks0 read0 opened'' es_index ls
        kept b1 lt tree v free s idx' size)
