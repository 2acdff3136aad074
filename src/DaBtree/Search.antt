-- ===== src/DaBtree/Search.antt =====
-- `lookup` and `first_block` of src/libxfuse/da_btree.rs against the leaf level of the tree.
use xfuse.Base.{
  ℕ, zero, suc, ◌<◌, ◌≡◌, refl, sym, ap, ◌∙◌, subst, Option, none, some, List, [], ◌∷◌, ltb, lt→ltb,
  true, false, ◌==◌, ==_iff, arith, Outcome, ok, err, panic, inl, inr, Bool-cases, Option-cases,
}
use xfuse.Codec.{Bytes, Bincode}
use xfuse.Sb.{Sb}
use xfuse.FileType.{enoent}
use xfuse.DaBtree.Node.{NodeEntry, Intnode, Children, intnode, nothing, cached}
use xfuse.DaBtree.{find_child, load, read_child, node_lookup, first_block, in_child}
use xfuse.DaBtree.Forest.{
  first_from, get_elem?-partition_point, IsSorted, Tops, IsForest, forest, Tops-head,
}

not_bottom : (n : ℕ) → (suc (suc n) == 1) ≡ false
not_bottom n = ground arith

above_bottom : (n : ℕ) → ltb 1 (suc (suc n)) ≡ true
above_bottom n = lt→ltb _ _ (omega arith)

module _ (bc : Bincode) (sb : Sb) (device : Bytes) (map_dblock : ℕ → Outcome ℕ ℕ) where
  abbrev loads : ℕ → Outcome ℕ Intnode
  loads dblock = load bc sb device map_dblock dblock

  -- A tree on the device: `btree` are the entries of a node of level `n + 1`, and `es` those of the
  -- leaf level below it, from left to right. A child is one level lower, and its hashes end with the
  -- hash that the parent has for it.
  abbrev pub IsTree : ℕ → List NodeEntry → List NodeEntry → Type 0
  IsTree zero btree es = (btree ≡ es) × IsSorted btree
  IsTree (suc n) btree es =
      IsForest
        (λ e seg.
          (magic : ℕ) × (b : List NodeEntry) × (loads e.before
            ≡ ok (intnode magic (suc n) b nothing))
          × IsTree n b seg
          × Tops e.hashval seg)
        btree es
      × IsSorted btree

  -- What is cached is what a read of the block returns, but for what is cached below it.
  abbrev pub IsCache : Children → Type 0
  IsCache nothing = Unit
  IsCache (cached d (intnode magic level btree below) rest) =
      (loads d ≡ ok (intnode magic level btree nothing)) × IsCache below × IsCache rest

  abbrev graft : Outcome ℕ Intnode → Children → Intnode
  graft (ok (intnode magic level btree _)) below = intnode magic level btree below
  graft (err e) below = intnode 0 0 [] below
  graft panic below = intnode 0 0 [] below

  found_child :
      (kids : Children) (d magic level : ℕ) (btree : List NodeEntry) (node : Intnode)
      → loads d ≡ ok (intnode magic level btree nothing)
      → IsCache kids
      → find_child kids d ≡ some node
      → (below : Children) × (node ≡ intnode magic level btree below) × IsCache below
  found_child nothing d magic level btree node l c e = cc
  found_child (cached d' (intnode m' l' b' below) rest) d magic level btree node l (l2, c, cs) e =
      elim (Bool-cases (d' == d)) [
        | inl t ↦
            let same =
              subst (λ z. loads z ≡ ok (intnode m' l' b' nothing)) ((==_iff d' d).0 t) l2 in
            let this : some (intnode m' l' b' below) ≡ some node = (rw t at e) in
            (
              below,
              sym (ap (λ o. elim o [ some x ↦ x | none ↦ node ]) this)
                  ∙ ap (λ o. graft o below) (sym same ∙ l),
              c,
            )
        | inr f ↦ found_child rest d magic level btree node l cs (rw f at e)
      ]

  read_child_lem :
      (kids : Children) (d magic level : ℕ) (btree : List NodeEntry)
      → loads d ≡ ok (intnode magic level btree nothing)
      → IsCache kids
      → (below : Children) × (kids1 : Children) × (read_child bc sb device map_dblock kids d
          ≡ ok (intnode magic level btree below, kids1))
        × IsCache below
        × IsCache kids1
  unfolding read_child
  read_child_lem kids d magic level btree l c = elim (Option-cases (find_child kids d)) [
    | inl e ↦ (
      nothing,
      cached d (intnode magic level btree nothing) kids,
      rw (e, l, read_child),
      tt,
      (l, tt, c),
    )
    | inr (node, e) ↦
        let (below, same, c') = found_child kids d magic level btree node l c e in
        (below, kids, rw (e, read_child) (ap (λ z. ok (z, kids)) same), c', c)
  ]

  -- What a search returns: the block of the entry, and the node with a cache that agrees with the
  -- device.
  abbrev pub Answers : ℕ → ℕ → List NodeEntry → Option NodeEntry → Outcome ℕ (ℕ × Intnode) → Type 0
  Answers magic level btree none o = o ≡ err enoent
  Answers magic level btree (some e) o =
      (kids : Children) × (o ≡ ok (e.before, intnode magic level btree kids)) × IsCache kids

  below_lem :
      (magic level d magic' level' : ℕ) (btree b : List NodeEntry) (kids : Children)
      (go : Intnode → Outcome ℕ (ℕ × Intnode)) (target : Option NodeEntry)
      → loads d ≡ ok (intnode magic' level' b nothing)
      → IsCache kids
      → ((below : Children)
          → IsCache below
          → Answers magic' level' b target (go (intnode magic' level' b below)))
      → Answers magic level btree target
          (in_child bc sb device map_dblock (intnode magic level btree kids) d go)
  below_lem magic level d magic' level' btree b kids go none l c answer =
      let (below, kids1, e, cb, ck) = read_child_lem kids d magic' level' b l c in
      rw (e, answer below cb)
  below_lem magic level d magic' level' btree b kids go (some x) l c answer =
      let (below, kids1, e, cb, ck) = read_child_lem kids d magic' level' b l c in
      let (below', e', cb') = answer below cb in
      (cached d (intnode magic' level' b below') kids1, rw (e, e'), (l, cb', ck))

  -- In a tree of any height on the device, `lookup` finds the first block of the leaf level whose
  -- hashes reach the hash, and fails with ENOENT when there is none. It ends, with a call for each
  -- level, and what it caches agrees with the device, so that the next lookup finds the same.
  pub node_lookup-Answers :
      (n fuel magic : ℕ) (btree es : List NodeEntry) (kids : Children) (hash : ℕ)
      → IsTree n btree es
      → IsCache kids
      → n < fuel
      → Answers magic
          (suc n)
          btree
          (first_from hash es)
          (node_lookup bc sb device map_dblock fuel (intnode magic (suc n) btree kids) hash)
  unfolding node_lookup
  node_lookup-Answers n zero magic btree es kids hash t c lt = absurd (omega arith)
  node_lookup-Answers zero (suc fuel) magic btree es kids hash (t, s) c lt =
      rw (get_elem?-partition_point hash btree, node_lookup)
        (subst
          (λ z. Answers magic 1 btree (first_from hash z) (elim (first_from hash btree) [
            | none ↦ err enoent
            | some entry ↦ ok (entry.before, intnode magic 1 btree kids)
          ]))
          t
          (elim (Option-cases (first_from hash btree)) [
            | inl e ↦ rw e
            | inr (x, e) ↦ rw e (kids, refl, c)
          ]))
  node_lookup-Answers (suc n) (suc fuel) magic btree es kids hash (t, s) c lt =
      rw (get_elem?-partition_point hash btree, node_lookup)
        (elim (forest hash _ btree es (λ e seg h. h.4) t) [
          | inl (p, q) ↦ rw (p, q)
          | inr (e, seg, p, (m, b, l, tree, top), q) ↦
              rw (p, q, not_bottom n, above_bottom n)
                (below_lem magic (suc (suc n)) e.before m (suc n) btree b kids
                  (λ child. node_lookup bc sb device map_dblock fuel child hash)
                  (first_from hash seg) l c
                  (λ below cb. node_lookup-Answers n fuel m b seg below hash tree cb (omega arith)))
        ])

  -- On the same trees `first_block` returns the first block of the leaf level, which has one at least.
  pub first_block-Answers :
      (n fuel magic : ℕ) (btree es : List NodeEntry) (e : NodeEntry) (kids : Children)
      → IsTree n btree (e ∷ es)
      → IsCache kids
      → n < fuel
      → Answers magic
          (suc n)
          btree
          (some e)
          (first_block bc sb device map_dblock fuel (intnode magic (suc n) btree kids))
  unfolding first_block
  first_block-Answers n zero magic btree es e kids t c lt = absurd (omega arith)
  first_block-Answers zero (suc fuel) magic btree es e kids (t, s) c lt =
      subst
        (λ z.
          Answers magic 1 z (some e)
            (first_block bc sb device map_dblock (suc fuel) (intnode magic 1 z kids)))
        (sym t) (kids, refl, c)
  first_block-Answers (suc n) (suc fuel) magic [] es e kids (t, s) c lt = cc
  first_block-Answers (suc n) (suc fuel) magic (x ∷ rest) es e kids
        ((seg, more, split, (m, b, l, tree, top), f), s) c lt =
      let (seg', same) = Tops-head x.hashval seg top more (e ∷ es) split e es refl in
      rw (not_bottom n) (
        below_lem magic (suc (suc n)) x.before m (suc n) (x ∷ rest) b kids
          (λ child. first_block bc sb device map_dblock fuel child) (some e) l c
          (λ below cb.
            first_block-Answers n fuel m b seg' e below (subst (IsTree n b) same tree) cb
              (omega arith)))
