-- ===== src/Dir/Leaf/Search.antt =====
-- Where `lookup` of src/libxfuse/dir3_lf.rs finds the leaf of a hash, and what it finds from there.
use xfuse.Base.{
  ℕ, suc, ◌+◌, ◌≤◌, ◌<◌, ◌≡◌, ap, sym, ◌∙◌, subst, List, [], ◌∷◌, Bool-cases, inl, inr, arith,
  false, length, keep, Outcome, ok, err, unwrap,
}
use xfuse.Codec.{Bytes, Bincode, decode}
use xfuse.Sb.{Sb, get_dir3_leaf_offset}
use xfuse.FileType.{enoent}
use xfuse.Dir.{Dir2DataEntry, Dir2LeafEntry}
use xfuse.Dir.Index.Range.{IsIndex, has_hash}
use xfuse.Dir.Index.Names.{by_name, IsIndexOf}
use xfuse.Dir.Leaf.{
  Dfork, Blocks, dfork_map_dblock, ends_with, iterate, read_dblock, open_leaf, lookup_leaf_blk,
  addresses_new, leaf_lookup,
}
use xfuse.Dir.Leaf.Disk.{LeafNDisk, Leaf, leafn, btree, get_leafn}
use xfuse.Dir.Leaf.Cache.{IsBlocks, read_dblock_lem}
use xfuse.Dir.Leaf.Addresses.{pending, onward, IsChain, iterate-IsState}
use xfuse.Dir.Leaf.Rounds.{PointsTo, Answers, lookup_rounds-Answers}
use xfuse.Dir.Leaf.Order.{ents_of, IsIndex-back, keep_below}
use xfuse.Dir.Leaf.Level.{IsLevel, IsNotTop, IsFirst, onward_all, IsLevel-IsChain, locate}
use xfuse.DaBtree.Node.{NodeEntry, Intnode, intnode, nothing}
use xfuse.DaBtree.{node_lookup}
use xfuse.DaBtree.Forest.{first_from}
use xfuse.DaBtree.Search as Search
use xfuse.DaBtree.Search.{IsTree, node_lookup-Answers}
use xfuse.DaBtree.Hash.{hashname}
use mathlib.Core.List.{append-nil}

length-keep : (hash : ℕ) (es : List Dir2LeafEntry) → length (keep (has_hash hash) es) ≤ length es
length-keep hash [] = omega arith
length-keep hash (e ∷ es) = elim (Bool-cases (has_hash hash e)) [
  | inl t ↦ rw t (omega (arith, length-keep hash es))
  | inr f ↦ rw f (omega (arith, length-keep hash es))
]

module _ (bc : Bincode) (sb : Sb) (device : Bytes) (dfork : Dfork) where
  -- The closure that `lookup_leaf_blk` gives to the B+tree.
  abbrev pub mapping : ℕ → Outcome ℕ ℕ
  mapping block = unwrap (dfork_map_dblock dfork block)

  -- What the first leaf block of the directory opens as: the one leaf, or the root of a B+tree over the
  -- leaves. No leaf block is the last of a chain and ends with the hash.
  abbrev pub IsRoot : ℕ → ℕ → List LeafNDisk → Leaf → Type 0
  IsRoot fuel hash ls (leafn l) = (ls ≡ l ∷ []) × IsIndex l.ents × (ends_with l.ents hash ≡ false)
  IsRoot fuel hash ls (btree (intnode magic level b children)) =
      (n : ℕ) × (es : List NodeEntry) × (level ≡ suc n)
      × (children ≡ nothing)
      × (n < fuel)
      × IsTree bc sb device mapping n b es
      × IsLevel bc sb device dfork es ls
      × IsNotTop bc sb device dfork hash es

  module _ (fuel : ℕ) (name : Bytes) where
    abbrev hash : ℕ
    hash = hashname name

    -- The search goes on from the leaf that it begins with.
    from_leaf :
        (blocks blocks1 : Blocks) (l : LeafNDisk) (ls : List LeafNDisk) (ents : List Dir2LeafEntry)
        (es : List Dir2DataEntry)
        → addresses_new bc sb device dfork fuel blocks hash ≡ ok (iterate l hash, blocks1)
        → pending hash l (keep (has_hash hash) l.ents) ls ≡ ents
        → IsIndex l.ents
        → IsChain bc sb device dfork hash l ls
        → IsIndexOf (PointsTo bc sb device dfork) ents es
        → IsBlocks bc sb device dfork blocks1
        → length ents + length ls < fuel
        → Answers bc sb device dfork
            (by_name name es)
            (leaf_lookup bc sb device dfork fuel blocks name)
    unfolding leaf_lookup
    from_leaf blocks blocks1 l ls ents es e p s c idx b lt =
        rw (e, leaf_lookup)
          (lookup_rounds-Answers bc sb device dfork hash name fuel ents es (iterate l hash)
            (keep (has_hash hash) l.ents) ls blocks1 p
            (iterate-IsState bc sb device dfork hash l ls s c) idx b lt)

    pub in_single :
        (l : LeafNDisk) (ls : List LeafNDisk) (raw : Bytes) (blocks blocks0 : Blocks)
        (es : List Dir2DataEntry)
        → read_dblock bc sb device dfork blocks (get_dir3_leaf_offset sb) ≡ ok (raw, blocks0)
        → IsBlocks bc sb device dfork blocks0
        → open_leaf bc sb device dfork raw ≡ ok (leafn l)
        → IsRoot fuel hash ls (leafn l)
        → IsIndexOf (PointsTo bc sb device dfork) (keep (has_hash hash) (ents_of ls)) es
        → length (ents_of ls) + length ls < fuel
        → Answers bc sb device dfork
            (by_name name es)
            (leaf_lookup bc sb device dfork fuel blocks name)
    unfolding addresses_new lookup_leaf_blk
    in_single l ls raw blocks blocks0 es read0 b0 opened (one, s, free) idx size =
        from_leaf blocks blocks0 l [] (keep (has_hash hash) (ents_of ls)) es
          (rw (read0, opened, addresses_new))
          (rw free (append-nil (keep (has_hash hash) l.ents))
            ∙ ap (keep (has_hash hash)) (sym (append-nil l.ents) ∙ ap ents_of (sym one)))
          s free idx b0 (omega (arith, length-keep hash (ents_of ls)))

    -- What a search of the tree in the directory returns.
    abbrev searched : ℕ → ℕ → List NodeEntry → Outcome ℕ (ℕ × Intnode)
    searched magic n b =
        node_lookup bc sb device mapping fuel (intnode magic (suc n) b nothing) hash

    module _ (magic n : ℕ) (b : List NodeEntry) (raw : Bytes) (blocks blocks0 : Blocks)
        (read0 : read_dblock bc sb device dfork blocks (get_dir3_leaf_offset sb)
          ≡ ok (raw, blocks0))
        (opened : open_leaf bc sb device dfork raw
          ≡ ok (btree (intnode magic (suc n) b nothing))) where
      no_leaf :
          (es : List Dir2DataEntry)
          → searched magic n b ≡ err enoent
          → IsIndexOf (PointsTo bc sb device dfork) [] es
          → Answers bc sb device dfork
              (by_name name es)
              (leaf_lookup bc sb device dfork fuel blocks name)
      unfolding addresses_new lookup_leaf_blk leaf_lookup
      no_leaf [] e idx = rw (read0, opened, e, leaf_lookup)
      no_leaf (x ∷ es) e idx = absurd idx

      at_leaf :
          (node1 : Intnode) (before : ℕ) (raw1 : Bytes) (blocks1 : Blocks) (l : LeafNDisk)
          → searched magic n b ≡ ok (before, node1)
          → read_dblock bc sb device dfork blocks0 before ≡ ok (raw1, blocks1)
          → decode (get_leafn bc sb) raw1 ≡ ok l
          → addresses_new bc sb device dfork fuel blocks hash ≡ ok (iterate l hash, blocks1)
      unfolding addresses_new lookup_leaf_blk
      at_leaf node1 before raw1 blocks1 l e r d = rw (read0, opened, e, r, d, addresses_new)

      pub in_node :
          (es_index : List NodeEntry) (ls : List LeafNDisk) (es : List Dir2DataEntry)
          → IsBlocks bc sb device dfork blocks0
          → n < fuel
          → IsTree bc sb device mapping n b es_index
          → IsLevel bc sb device dfork es_index ls
          → IsNotTop bc sb device dfork hash es_index
          → IsIndex (ents_of ls)
          → IsIndexOf (PointsTo bc sb device dfork) (keep (has_hash hash) (ents_of ls)) es
          → length (ents_of ls) + length ls < fuel
          → Answers bc sb device dfork
              (by_name name es)
              (leaf_lookup bc sb device dfork fuel blocks name)
      in_node es_index ls es b0 lt tree level free s idx size =
          let answer =
            node_lookup-Answers bc sb device mapping n fuel magic b es_index nothing hash tree tt
              lt in
          elim (locate bc sb device dfork hash es_index ls level free) [
            | inl (missing, low) ↦
                let gone : keep (has_hash hash) (ents_of ls) ≡ [] =
                  sym (ap (keep (has_hash hash)) (append-nil (ents_of ls)))
                  ∙ keep_below hash (ents_of ls) [] low in
                no_leaf es
                  (subst
                    (λ z.
                      Search.Answers bc sb device mapping magic (suc n) b z (searched magic n b))
                    missing answer)
                  (subst (λ z. IsIndexOf (PointsTo bc sb device dfork) z es) gone idx)
            | inr (e, r) ↦ found_leaf e r answer
          ]
        where
          found_leaf :
              (e : NodeEntry)
              → IsFirst bc sb device dfork hash es_index ls e
              → Search.Answers bc sb device mapping magic
                  (suc n)
                  b
                  (first_from hash es_index)
                  (searched magic n b)
              → Answers bc sb device dfork
                  (by_name name es)
                  (leaf_lookup bc sb device dfork fuel blocks name)
          found_leaf e r answer =
              let p = r.level.0 in
              let (kids, search, kept) =
                subst
                  (λ z. Search.Answers bc sb device mapping magic (suc n) b z (searched magic n b))
                  r.found answer in
              let (blocks1, read1, b1) =
                read_dblock_lem bc sb device dfork blocks0 e.before p.raw p.holds b0 in
              let rest =
                IsIndex-back r.before (ents_of (r.leaf ∷ r.ls_behind)) (subst IsIndex r.split s) in
              let all : onward hash (r.leaf ∷ r.ls_behind) ≡ keep (has_hash hash) (ents_of ls) =
                sym (
                  onward_all bc sb device dfork hash (e ∷ r.es_behind) (r.leaf ∷ r.ls_behind)
                    r.level rest r.reaches)
                ∙ sym (keep_below hash r.before (ents_of (r.leaf ∷ r.ls_behind)) r.low)
                ∙ ap (keep (has_hash hash)) (sym r.split) in
              from_leaf blocks blocks1 r.leaf r.ls_behind (keep (has_hash hash) (ents_of ls)) es
                (at_leaf (intnode magic (suc n) b kids) e.before p.raw blocks1 r.leaf search read1
                  p.read_back)
                all p.sorted
                (IsLevel-IsChain bc sb device dfork hash r.es_behind e r.leaf r.ls_behind r.level
                  r.not_top)
                idx b1 (omega (arith, length-keep hash (ents_of ls), r.fewer))
