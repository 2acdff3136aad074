-- ===== src/Btree/Search.antt =====
-- `map_block` of src/libxfuse/btree.rs finds what the extents of the whole tree map, and what it keeps
-- does not change an answer.
use xfuse.Base.{
  ℕ, zero, suc, ◌<◌, ◌≡◌, refl, sym, ap, ◌∙◌, subst, Option, none, some, List, [], ◌∷◌, arith,
  get_elem?, lt→ltb, ◌==◌, ==_iff, Bool-cases, Option-cases, inl, inr, index, Outcome, ok, err,
  panic,
}
use xfuse.Codec.{Bytes, Bincode}
use xfuse.Sb.{Sb}
use xfuse.Bmbt.{Bmx}
use xfuse.Bmbt.Extents.{IsBmx}
use xfuse.Bmbt.Lookup.{Describes, get_extent-Describes}
use xfuse.Btree.Node.{
  Btree, btree, BlockCache, intermediate, leaf, Subtrees, empty, subtree, get_intermediate,
  get_leaf,
}
use xfuse.Btree.Map.{
  find_subtree, find_leaf, child_of, load_block, read_subtree, read_extents, map_block,
}
use xfuse.Btree.Cover.{IsForest, Within, child_of-Within, Tells, Describes-Within, Within-trans}

-- The cache of a block that has just been read, `n` levels above the leaves.
abbrev pub fresh : ℕ → BlockCache
fresh zero = leaf []
fresh (suc n) = intermediate empty

abbrev with_cache : BlockCache → Btree → Btree
with_cache cache (btree level keys ptrs old) = btree level keys ptrs cache

module _ (bc : Bincode) (sb : Sb) (device : Bytes) (edestaddrreq : ℕ) where
  abbrev pub loads_leaf : ℕ → Outcome ℕ Bmx
  loads_leaf p = load_block bc sb device edestaddrreq (get_leaf bc sb) p

  abbrev pub loads_node : ℕ → Outcome ℕ Btree
  loads_node p = load_block bc sb device edestaddrreq (get_intermediate bc sb) p

  -- The device holds a tree over these extents, with `n` levels of nodes between the one that has these
  -- keys and pointers and the leaves.
  abbrev pub IsTree : ℕ → List ℕ → List ℕ → Bmx → Type 0
  IsTree zero keys ptrs rs = IsForest (λ p seg. (loads_leaf p ≡ ok seg) × IsBmx seg) keys ptrs rs
  IsTree (suc n) keys ptrs rs =
      IsForest
        (λ p seg.
          (k : ℕ) × (ks : List ℕ) × (ps : List ℕ) × (loads_node p
            ≡ ok (btree (suc n) (k ∷ ks) ps (fresh n)))
          × IsTree n (k ∷ ks) ps seg)
        keys ptrs rs

  abbrev AreLeaves : List ℕ → List (ℕ × Bmx) → Type 0
  AreLeaves ptrs [] = Unit
  AreLeaves ptrs ((i, bmx) ∷ rest) =
      ((p : ℕ) × (get_elem? ptrs i ≡ some p) × (loads_leaf p ≡ ok bmx)) × AreLeaves ptrs rest

  abbrev AreSubtrees : (List ℕ → BlockCache → Type 0) → BlockCache → List ℕ → Subtrees → Type 0
  AreSubtrees C new ptrs empty = Unit
  AreSubtrees C new ptrs (subtree i (btree level keys ps cache) rest) =
      ((p : ℕ) × (get_elem? ptrs i ≡ some p)
        × (loads_node p ≡ ok (btree level keys ps new))
        × C ps cache)
      × AreSubtrees C new ptrs rest

  -- What is kept is what the device holds.
  abbrev pub IsCache : ℕ → List ℕ → BlockCache → Type 0
  IsCache zero ptrs (leaf leaves) = AreLeaves ptrs leaves
  IsCache zero ptrs (intermediate kids) = ⊥
  IsCache (suc n) ptrs (intermediate kids) = AreSubtrees (IsCache n) (fresh n) ptrs kids
  IsCache (suc n) ptrs (leaf leaves) = ⊥

  fresh-IsCache : (n : ℕ) (ptrs : List ℕ) → IsCache n ptrs (fresh n)
  fresh-IsCache zero ptrs = tt
  fresh-IsCache (suc n) ptrs = tt

  abbrev give : {A : Type 0} → A → Outcome ℕ A
  give a = ok a

  same_value : {A : Type 0} (a b : A) → give a ≡ give b → a ≡ b
  same_value a b e = ap (λ o. elim o [ ok x ↦ x | err _ ↦ a | panic ↦ a ]) e

  same_ptr :
      (ptrs : List ℕ) (i j p q : ℕ)
      → i ≡ j
      → get_elem? ptrs i ≡ some p
      → get_elem? ptrs j ≡ some q
      → p ≡ q
  same_ptr ptrs i j p q e at at' = some_value (sym at ∙ ap (get_elem? ptrs) e ∙ at')
    where
      some_value : some p ≡ some q → p ≡ q
      some_value f = cc

  indexed : (ptrs : List ℕ) (i p : ℕ) → get_elem? ptrs i ≡ some p → index {E = ℕ} ptrs i ≡ ok p
  indexed ptrs i p e = ap (λ o. elim o as (λ x. Outcome ℕ ℕ) [ none ↦ panic | some a ↦ ok a ]) e

  found_leaf :
      (leaves : List (ℕ × Bmx)) (ptrs : List ℕ) (idx p : ℕ) (bmx kept : Bmx)
      → get_elem? ptrs idx ≡ some p
      → loads_leaf p ≡ ok bmx
      → AreLeaves ptrs leaves
      → find_leaf leaves idx ≡ some kept
      → kept ≡ bmx
  found_leaf [] ptrs idx p bmx kept at l c e = cc
  found_leaf ((i, b) ∷ rest) ptrs idx p bmx kept at l ((q, at', l'), c) e =
      elim (Bool-cases (i == idx)) [
        | inl t ↦
            let this : some b ≡ some kept = (rw t at e) in
            let one = same_ptr ptrs i idx q p ((==_iff i idx).0 t) at' at in
            sym (ap (λ o. elim o [ some x ↦ x | none ↦ b ]) this)
            ∙ same_value b bmx (sym l' ∙ ap loads_leaf one ∙ l)
        | inr f ↦ found_leaf rest ptrs idx p bmx kept at l c (rw f at e)
      ]

  read_extents_lem :
      (leaves : List (ℕ × Bmx)) (ptrs : List ℕ) (idx p : ℕ) (bmx : Bmx)
      → get_elem? ptrs idx ≡ some p
      → loads_leaf p ≡ ok bmx
      → AreLeaves ptrs leaves
      → (leaves' : List (ℕ × Bmx)) × (read_extents bc sb device edestaddrreq leaves ptrs idx
          ≡ ok (bmx, leaves'))
        × AreLeaves ptrs leaves'
  unfolding read_extents
  read_extents_lem leaves ptrs idx p bmx at l c = elim (Option-cases (find_leaf leaves idx)) [
    | inl e ↦
        ((idx, bmx) ∷ leaves, rw (e, indexed ptrs idx p at, l, read_extents) refl, ((p, at, l), c))
    | inr (kept, e) ↦ (
      leaves,
      rw (e, read_extents)
          (ap (λ b. ok (b, leaves)) (found_leaf leaves ptrs idx p bmx kept at l c e)),
      c,
    )
  ]

  module _ (C : List ℕ → BlockCache → Type 0) (new : BlockCache) where
    found_subtree :
        (kids : Subtrees) (ptrs : List ℕ) (idx p level : ℕ) (keys ps : List ℕ) (kept : Btree)
        → get_elem? ptrs idx ≡ some p
        → loads_node p ≡ ok (btree level keys ps new)
        → AreSubtrees C new ptrs kids
        → find_subtree kids idx ≡ some kept
        → (cache : BlockCache) × (kept ≡ btree level keys ps cache) × C ps cache
    found_subtree empty ptrs idx p level keys ps kept at l c e = cc
    found_subtree (subtree i (btree level' keys' ps' cache) rest) ptrs idx p level keys ps kept at l
          ((q, at', l', own), c) e =
        elim (Bool-cases (i == idx)) [
          | inl t ↦
              let this : some (btree level' keys' ps' cache) ≡ some kept = (rw t at e) in
              let one = same_ptr ptrs i idx q p ((==_iff i idx).0 t) at' at in
              let same =
                same_value (btree level' keys' ps' new) (btree level keys ps new)
                  (sym l' ∙ ap loads_node one ∙ l) in
              (
                cache,
                sym (ap (λ o. elim o [ some x ↦ x | none ↦ btree level' keys' ps' cache ]) this)
                    ∙ ap (with_cache cache) same,
                subst (λ z. C z cache) (ap ptrs_of same) own,
              )
          | inr f ↦ found_subtree rest ptrs idx p level keys ps kept at l c (rw f at e)
        ]
      where
        ptrs_of : Btree → List ℕ
        ptrs_of (btree l k p c) = p

    read_subtree_lem :
        (kids : Subtrees) (ptrs : List ℕ) (idx p level : ℕ) (keys ps : List ℕ)
        → get_elem? ptrs idx ≡ some p
        → loads_node p ≡ ok (btree level keys ps new)
        → AreSubtrees C new ptrs kids
        → C ps new
        → (cache : BlockCache) × (kids' : Subtrees) × (read_subtree bc sb device edestaddrreq kids
              ptrs idx
            ≡ ok (btree level keys ps cache, kids'))
          × C ps cache
          × AreSubtrees C new ptrs kids'
    unfolding read_subtree
    read_subtree_lem kids ptrs idx p level keys ps at l c fresh_c =
        elim (Option-cases (find_subtree kids idx)) [
          | inl e ↦ (
            new,
            subtree idx (btree level keys ps new) kids,
            rw (e, indexed ptrs idx p at, l, read_subtree) refl,
            fresh_c,
            ((p, at, l, fresh_c), c),
          )
          | inr (kept, e) ↦
              let (cache, same, own) = found_subtree kids ptrs idx p level keys ps kept at l c e in
              (cache, kids, rw (e, read_subtree) (ap (λ t. ok (t, kids)) same), own, c)
        ]

  -- An answer that tells what the extents map, with a cache that holds what the device holds.
  abbrev pub Answers :
      ℕ → List ℕ → List ℕ → Bmx → ℕ → Outcome ℕ ((Option ℕ × Option ℕ) × Btree) → Type 0
  Answers n keys ptrs rs d o =
      (a : Option ℕ × Option ℕ) × (cache : BlockCache) × (o ≡ ok (a, btree (suc n) keys ptrs cache))
      × Tells rs d a
      × IsCache n ptrs cache

  -- The same, by the extents of the leaf that answers.
  abbrev Reached :
      ℕ → List ℕ → List ℕ → Bmx → ℕ → Outcome ℕ ((Option ℕ × Option ℕ) × Btree) → Type 0
  Reached n keys ptrs rs d o =
      (seg : Bmx) × (a : Option ℕ × Option ℕ) × (cache : BlockCache) × (o
        ≡ ok (a, btree (suc n) keys ptrs cache))
      × Describes seg d a
      × Within rs seg d
      × IsCache n ptrs cache

  reached :
      (n fuel : ℕ) (k : ℕ) (ks ptrs : List ℕ) (rs : Bmx) (cache : BlockCache) (d : ℕ)
      → IsTree n (k ∷ ks) ptrs rs
      → IsCache n ptrs cache
      → n < fuel
      → Reached n
          (k ∷ ks)
          ptrs
          rs
          d
          (map_block bc sb device edestaddrreq fuel (btree (suc n) (k ∷ ks) ptrs cache) d)
  unfolding map_block
  reached n zero k ks ptrs rs cache d t c lt = absurd (omega arith)
  reached zero (suc fuel) k ks ptrs rs (intermediate kids) d t c lt = elim c [ ]
  reached zero (suc fuel) k ks ptrs rs (leaf leaves) d t c lt =
      let (p, seg, at, (l, bmx), w) =
        child_of-Within (λ p seg. (loads_leaf p ≡ ok seg) × IsBmx seg) k ks ptrs rs d t in
      let (leaves', e, c') = read_extents_lem leaves ptrs (child_of (k ∷ ks) d) p seg at l c in
      let (a, found, says) = get_extent-Describes seg d bmx in
      (seg, a, leaf leaves', rw (e, found, map_block) refl, says, w, c')
  reached (suc n) (suc fuel) k ks ptrs rs (leaf leaves) d t c lt = elim c [ ]
  reached (suc n) (suc fuel) k ks ptrs rs (intermediate kids) d t c lt =
      let (p, seg, at, (k', ks', ps, l, below), w) =
        child_of-Within
          (λ p seg.
            (k : ℕ) × (ks : List ℕ) × (ps : List ℕ) × (loads_node p
              ≡ ok (btree (suc n) (k ∷ ks) ps (fresh n)))
            × IsTree n (k ∷ ks) ps seg)
          k ks ptrs rs d t in
      let (kept, kids1, e, own, c1) =
        read_subtree_lem (IsCache n) (fresh n) kids ptrs (child_of (k ∷ ks) d) p (suc n) (k' ∷ ks')
          ps at l c (fresh-IsCache n ps) in
      let (part, a, kept', e', says, w', own') =
        reached n fuel k' ks' ps seg kept d below own (omega arith) in
      (
        part,
        a,
        intermediate (subtree (child_of (k ∷ ks) d) (btree (suc n) (k' ∷ ks') ps kept') kids1),
        rw (lt→ltb 1 (suc (suc n)) (omega arith), e, e', map_block) refl,
        says,
        Within-trans rs seg part d w w',
        ((p, at, l, own'), c1),
      )

  -- In a tree of any height on the device `map_block` answers at every block, with a call for each level,
  -- and its answer tells what all extents of the tree map from that block on: a mapped run that starts at
  -- the block, or a hole and its exact length. The one exception is a hole behind the extents of a leaf:
  -- that answer has no length and tells of the block itself only. What the search keeps is what the device
  -- holds, so that the next answer is the same with it as without.
  pub map_block-Answers :
      (n fuel : ℕ) (k : ℕ) (ks ptrs : List ℕ) (rs : Bmx) (cache : BlockCache) (d : ℕ)
      → IsTree n (k ∷ ks) ptrs rs
      → IsCache n ptrs cache
      → n < fuel
      → Answers n
          (k ∷ ks)
          ptrs
          rs
          d
          (map_block bc sb device edestaddrreq fuel (btree (suc n) (k ∷ ks) ptrs cache) d)
  map_block-Answers n fuel k ks ptrs rs cache d t c lt =
      let (seg, a, cache', e, says, w, c') = reached n fuel k ks ptrs rs cache d t c lt in
      (a, cache', e, Describes-Within rs seg d a w says, c')
