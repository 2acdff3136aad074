-- ===== src/Attr/Node/Listing.antt =====
-- `get_total_size` and `list` of src/libxfuse/attr_node.rs.
use xfuse.Base.{
  ℕ, ◌^◌, ◌<◌, ◌≡◌, refl, ap, ◌∙◌, subst, List, [], none, some, ◌⊎◌, inl, inr, arith, length, ok,
}
use xfuse.Codec.{Bytes, Bincode}
use xfuse.Sb.{Sb}
use xfuse.Attr.Leaf.{attr_map_dblock}
use xfuse.Attr.Leafblock.{AttrLeafblock}
use xfuse.Attr.Leaves.{while_leaves, add_size, add_names}
use xfuse.Attr.Leaves.Chain.{IsLeaves, IsChain, Visits, while_leaves-Visits}
use xfuse.Attr.Leaves.Listed.{
  all_names, AllNamed, add_size-blank, add_names-blank, sizes_lem, names_lem, IsRoot,
  first_block-IsRoot,
}
use xfuse.Attr.Node.{AttrNode, node_total_or, node_total_size, node_list}

module _ (bc : Bincode) (sb : Sb) (device : Bytes) (fuel : ℕ) (ls : List AttrLeafblock) where
  -- The fork's leaves are `ls`: the root is that of a tree over their chain, and the caches hold what the
  -- device holds. The size, where it has been added up, is that of the names.
  pub record IsNodeFork (a : AttrNode) : Type 0 where
    pub start : ℕ
    pub root : IsRoot bc sb device (attr_map_dblock a.bmx) fuel a.node start
    pub chain : IsChain bc sb device (attr_map_dblock a.bmx) start ls
    pub enough : length ls < fuel
    pub kept : IsLeaves bc sb device (attr_map_dblock a.bmx) a.leaves
    pub sized : (a.total_size ≡ none) ⊎ (a.total_size ≡ some (length (all_names ls)))

  module _ (named : AllNamed ls) (small : length (all_names ls) < 2 ^ 32) where
    sizes_walk :
        (a : AttrNode) (h : IsNodeFork a)
        → Visits bc sb device
            (attr_map_dblock a.bmx)
            add_size
            add_size-blank
            (ok (length (all_names ls)))
            (while_leaves bc sb device (attr_map_dblock a.bmx) add_size fuel a.leaves h.start 0)
    sizes_walk a h =
        subst
          (λ o.
            Visits bc sb device (attr_map_dblock a.bmx) add_size add_size-blank o
              (while_leaves bc sb device (attr_map_dblock a.bmx) add_size fuel a.leaves h.start 0))
          (sizes_lem ls 0 named (omega (arith, small)) ∙ ap ok (omega arith))
          (while_leaves-Visits bc sb device (attr_map_dblock a.bmx) add_size add_size-blank ls fuel
            a.leaves h.start 0 h.enough h.chain h.kept)

    total_lem :
        (a : AttrNode)
        → IsNodeFork a
        → (a' : AttrNode) × (node_total_size bc sb device fuel a ≡ ok (length (all_names ls), a'))
          × IsNodeFork a'
    unfolding node_total_size node_total_or
    total_lem a h = elim h.sized [
      | inr e ↦ (a, ap (λ o. node_total_or bc sb device fuel o a) e, h)
      | inl e ↦
          let (node', first, root') =
            first_block-IsRoot bc sb device (attr_map_dblock a.bmx) fuel a.node h.start h.root in
          let (leaves', walk, kept') = sizes_walk a h in
          (
            record a { node = node'; total_size = some (length (all_names ls)); leaves = leaves' },
            ap (λ o. node_total_or bc sb device fuel o a) e ∙ rw (first, walk, node_total_or) refl,
            record {
              start = h.start;
              root = root';
              chain = h.chain;
              enough = h.enough;
              kept = kept';
              sized = inr refl;
            },
          )
    ]

    names_walk :
        (a : AttrNode) (h : IsNodeFork a)
        → Visits bc sb device
            (attr_map_dblock a.bmx)
            add_names
            add_names-blank
            (ok (all_names ls))
            (while_leaves bc sb device (attr_map_dblock a.bmx) add_names fuel a.leaves h.start [])
    names_walk a h =
        subst
          (λ o.
            Visits bc sb device (attr_map_dblock a.bmx) add_names add_names-blank o (
              while_leaves bc sb device (attr_map_dblock a.bmx) add_names fuel a.leaves h.start []))
          (names_lem ls [] named)
          (while_leaves-Visits bc sb device (attr_map_dblock a.bmx) add_names add_names-blank ls
            fuel a.leaves h.start [] h.enough h.chain h.kept)

    list_lem :
        (a : AttrNode)
        → IsNodeFork a
        → (a' : AttrNode) × (node_list bc sb device fuel a ≡ ok (all_names ls, a')) × IsNodeFork a'
    unfolding node_list
    list_lem a h =
        let (a1, sized, h1) = total_lem a h in
        let (node', first, root') =
          first_block-IsRoot bc sb device (attr_map_dblock a1.bmx) fuel a1.node h1.start h1.root in
        let (leaves', walk, kept') = names_walk a1 h1 in
        (
          record a1 { node = node'; leaves = leaves' },
          rw (sized, first, walk, node_list) refl,
          record {
            start = h1.start;
            root = root';
            chain = h1.chain;
            enough = h1.enough;
            kept = kept';
            sized = h1.sized;
          },
        )

    -- `get_total_size` returns the size of what `list` returns, whichever is called first and how often:
    -- the names of all leaves, each behind its name space and closed by a NUL. This is for leaves whose
    -- names are as long as they say and take less than 2^32 bytes, and with more rounds than leaves and
    -- levels. What the calls cache is what the device holds.
    pub node_list-IsNodeFork :
        (a : AttrNode)
        → IsNodeFork a
        → ((a' : AttrNode) × (node_total_size bc sb device fuel a ≡ ok (length (all_names ls), a'))
            × IsNodeFork a')
          × ((a' : AttrNode) × (node_list bc sb device fuel a ≡ ok (all_names ls, a'))
              × IsNodeFork a')
    node_list-IsNodeFork a h = (total_lem a h, list_lem a h)
