-- ===== src/Attr/Bptree/Listing.antt =====
-- `get_total_size` and `list` of src/libxfuse/attr_bptree.rs.
use xfuse.Base.{
  ℕ, ◌^◌, ◌<◌, ◌≡◌, refl, sym, ap, ◌∙◌, subst, List, [], ◌∷◌, none, some, ◌⊎◌, inl, inr, arith,
  length, Outcome, ok, unwrap,
}
use xfuse.Codec.{Bytes, Bincode}
use xfuse.Sb.{Sb}
use xfuse.Attr.Leafblock.{AttrLeafblock}
use xfuse.Attr.Leaves.{load_leaf, loop_leaves, add_size, add_names}
use xfuse.Attr.Leaves.Chain.{IsLeaves, IsChain, Visits, loop_leaves-Visits}
use xfuse.Attr.Leaves.Listed.{
  all_names, AllNamed, add_size-blank, add_names-blank, sizes_lem, names_lem, IsRoot,
  first_block-IsRoot,
}
use xfuse.Attr.Bptree.{
  AttrBtree, AttrBtreeBlock0, node, leaf, tree_map_dblock, block0_first, tree_total_or,
  tree_total_size, tree_list,
}

module _ (bc : Bincode) (sb : Sb) (device : Bytes) (fuel enoattr : ℕ) where
  abbrev maps : AttrBtree → ℕ → Outcome ℕ ℕ
  maps a = tree_map_dblock enoattr a.map_block

  abbrev unwraps : AttrBtree → ℕ → Outcome ℕ ℕ
  unwraps a d = unwrap (maps a d)

  -- The leaves begin with block `d`: the root is that of a tree over them, or block 0 is a leaf.
  abbrev pub Begins : AttrBtree → AttrBtreeBlock0 → ℕ → Type 0
  Begins a (node n) d = IsRoot bc sb device (unwraps a) fuel n d
  Begins a leaf d = d ≡ 0

  first_lem :
      (a : AttrBtree) (b : AttrBtreeBlock0) (d : ℕ)
      → Begins a b d
      → (b' : AttrBtreeBlock0) × (block0_first bc sb device fuel enoattr (unwraps a) b ≡ ok (d, b'))
        × Begins a b' d
  unfolding block0_first
  first_lem a (node n) d h =
      let (n', e, h') = first_block-IsRoot bc sb device (unwraps a) fuel n d h in
      (node n', rw e refl, h')
  first_lem a leaf d h = (leaf, ap (λ z. ok (z, leaf)) (sym h), h)

  module _ (l : AttrLeafblock) (ls : List AttrLeafblock) where
    -- The fork's leaves are `l` and `ls`, linked in this order, and the caches hold what the device holds.
    -- The size, where it has been added up, is that of the names.
    pub record IsTreeFork (a : AttrBtree) : Type 0 where
      pub start : ℕ
      pub root : Begins a a.block0 start
      pub first : load_leaf bc sb device (maps a) start ≡ ok l
      pub chain : IsChain bc sb device (maps a) l.hdr.forw ls
      pub enough : length ls < fuel
      pub kept : IsLeaves bc sb device (maps a) a.leaves
      pub sized : (a.total_size ≡ none) ⊎ (a.total_size ≡ some (length (all_names (l ∷ ls))))

    module _ (named : AllNamed (l ∷ ls)) (small : length (all_names (l ∷ ls)) < 2 ^ 32) where
      sizes_walk :
          (a : AttrBtree) (h : IsTreeFork a)
          → Visits bc sb device
              (maps a)
              add_size
              add_size-blank
              (ok (length (all_names (l ∷ ls))))
              (loop_leaves bc sb device (maps a) add_size fuel a.leaves h.start 0)
      sizes_walk a h =
          subst
            (λ o.
              Visits bc sb device (maps a) add_size add_size-blank o
                (loop_leaves bc sb device (maps a) add_size fuel a.leaves h.start 0))
            (sizes_lem (l ∷ ls) 0 named (omega (arith, small)) ∙ ap ok (omega arith))
            (loop_leaves-Visits bc sb device (maps a) add_size add_size-blank ls l fuel a.leaves
              h.start 0 h.enough h.first h.chain h.kept)

      total_lem :
          (a : AttrBtree)
          → IsTreeFork a
          → (a' : AttrBtree) × (tree_total_size bc sb device fuel enoattr a
              ≡ ok (length (all_names (l ∷ ls)), a'))
            × IsTreeFork a'
      unfolding tree_total_size tree_total_or
      total_lem a h = elim h.sized [
        | inr e ↦ (a, ap (λ o. tree_total_or bc sb device fuel enoattr o a) e, h)
        | inl e ↦
            let (b', e0, root') = first_lem a a.block0 h.start h.root in
            let (leaves', walk, kept') = sizes_walk a h in
            (
              record a {
                block0 = b';
                total_size = some (length (all_names (l ∷ ls)));
                leaves = leaves';
              },
              ap (λ o. tree_total_or bc sb device fuel enoattr o a) e
                  ∙ rw (e0, walk, tree_total_or) refl,
              record {
                start = h.start;
                root = root';
                first = h.first;
                chain = h.chain;
                enough = h.enough;
                kept = kept';
                sized = inr refl;
              },
            )
      ]

      names_walk :
          (a : AttrBtree) (h : IsTreeFork a)
          → Visits bc sb device
              (maps a)
              add_names
              add_names-blank
              (ok (all_names (l ∷ ls)))
              (loop_leaves bc sb device (maps a) add_names fuel a.leaves h.start [])
      names_walk a h =
          subst
            (λ o.
              Visits bc sb device (maps a) add_names add_names-blank o
                (loop_leaves bc sb device (maps a) add_names fuel a.leaves h.start []))
            (names_lem (l ∷ ls) [] named)
            (loop_leaves-Visits bc sb device (maps a) add_names add_names-blank ls l fuel a.leaves
              h.start [] h.enough h.first h.chain h.kept)

      list_lem :
          (a : AttrBtree)
          → IsTreeFork a
          → (a' : AttrBtree) × (tree_list bc sb device fuel enoattr a ≡ ok (all_names (l ∷ ls), a'))
            × IsTreeFork a'
      unfolding tree_list
      list_lem a h =
          let (a1, sized, h1) = total_lem a h in
          let (b', e0, root') = first_lem a1 a1.block0 h1.start h1.root in
          let (leaves', walk, kept') = names_walk a1 h1 in
          (
            record a1 { block0 = b'; leaves = leaves' },
            rw (sized, e0, walk, tree_list) refl,
            record {
              start = h1.start;
              root = root';
              first = h1.first;
              chain = h1.chain;
              enough = h1.enough;
              kept = kept';
              sized = h1.sized;
            },
          )

      -- `get_total_size` returns the size of what `list` returns, whichever is called first and how often:
      -- the names of all leaves, each behind its name space and closed by a NUL. This is for leaves whose
      -- names are as long as they say and take less than 2^32 bytes, and with more rounds than leaves and
      -- levels. What the calls cache is what the device holds.
      pub tree_list-IsTreeFork :
          (a : AttrBtree)
          → IsTreeFork a
          → ((a' : AttrBtree) × (tree_total_size bc sb device fuel enoattr a
                ≡ ok (length (all_names (l ∷ ls)), a'))
              × IsTreeFork a')
            × ((a' : AttrBtree) × (tree_list bc sb device fuel enoattr a
                  ≡ ok (all_names (l ∷ ls), a'))
                × IsTreeFork a')
      tree_list-IsTreeFork a h = (total_lem a h, list_lem a h)
