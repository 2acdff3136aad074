-- ===== src/Attr/Leaves/Listed.antt =====
-- What the loops of src/libxfuse/attr_node.rs and src/libxfuse/attr_bptree.rs add up over the leaves of a
-- fork, and the block that they begin with.
use xfuse.Base.{
  ℕ, suc, ◌+◌, ◌^◌, ◌<◌, ◌≡◌, refl, sym, ap, ◌∙◌, List, [], ◌∷◌, ◌++◌, arith, length, length-append,
  Outcome, ok,
}
use xfuse.Codec.{Bytes, Bincode}
use xfuse.Sb.{Sb}
use xfuse.Attr.{add32}
use xfuse.Attr.Leafblock.{AttrLeafblock}
use xfuse.Attr.Leafblock.Operations.{leaf_total_size, leaf_list}
use xfuse.Attr.Leafblock.Listing.{
  AreNamed, names_of, list_onto_lem, total_from_lem, blank_block, leaf_list-blank,
  leaf_total_size-blank,
}
use xfuse.Attr.Leaves.{add_size, add_names}
use xfuse.Attr.Leaves.Chain.{visit_all}
use xfuse.DaBtree.{first_block}
use xfuse.DaBtree.Node.{Intnode, intnode, NodeEntry, Children}
use xfuse.DaBtree.Search.{IsTree, IsCache, first_block-Answers}
use mathlib.Core.List.{append_assoc, append-nil}

-- The names of the leaves, one leaf after the other.
abbrev pub all_names : List AttrLeafblock → Bytes
all_names [] = []
all_names (leaf ∷ ls) = names_of leaf.entries leaf.names ++ all_names ls

abbrev pub AllNamed : List AttrLeafblock → Type 0
AllNamed [] = Unit
AllNamed (leaf ∷ ls) = AreNamed leaf.names × AllNamed ls

pub add_size-blank :
    (leaf leaf' : AttrLeafblock) (total : ℕ)
    → blank_block leaf ≡ blank_block leaf'
    → add_size leaf total ≡ add_size leaf' total
unfolding add_size
add_size-blank leaf leaf' total e =
    ap (λ n. ok (add32 total n))
      (sym (leaf_total_size-blank leaf) ∙ ap leaf_total_size e ∙ leaf_total_size-blank leaf')

pub add_names-blank :
    (leaf leaf' : AttrLeafblock) (list : Bytes)
    → blank_block leaf ≡ blank_block leaf'
    → add_names leaf list ≡ add_names leaf' list
unfolding add_names
add_names-blank leaf leaf' list e =
    sym (leaf_list-blank leaf list) ∙ ap (λ l. leaf_list l list) e ∙ leaf_list-blank leaf' list

pub sizes_lem :
    (ls : List AttrLeafblock) (total : ℕ)
    → AllNamed ls
    → total + length (all_names ls) < 2 ^ 32
    → visit_all add_size ls total ≡ ok (total + length (all_names ls))
unfolding add_size leaf_total_size
sizes_lem [] total h lt = ap ok (omega arith)
sizes_lem (leaf ∷ ls) total (h, hs) lt =
    let a = length (names_of leaf.entries leaf.names) in
    let b = length (all_names ls) in
    let both = length-append (names_of leaf.entries leaf.names) (all_names ls) in
    let own : leaf_total_size leaf ≡ a =
      total_from_lem leaf.entries leaf.names 0 h (omega (arith, both, lt)) ∙ omega arith in
    let step : add32 total (leaf_total_size leaf) ≡ total + a = omega (arith, own, both, lt) in
    rw step (sizes_lem ls (total + a) hs (omega (arith, both, lt)) ∙ ap ok (omega (arith, both)))

pub names_lem :
    (ls : List AttrLeafblock) (list : Bytes)
    → AllNamed ls
    → visit_all add_names ls list ≡ ok (list ++ all_names ls)
unfolding add_names leaf_list
names_lem [] list h = ap ok (sym (append-nil list))
names_lem (leaf ∷ ls) list (h, hs) = rw (list_onto_lem leaf.entries leaf.names list h) (
    names_lem ls (list ++ names_of leaf.entries leaf.names) hs
    ∙ ap ok (append_assoc list (names_of leaf.entries leaf.names) (all_names ls)))

module _ (bc : Bincode) (sb : Sb) (device : Bytes) (map_dblock : ℕ → Outcome ℕ ℕ) (fuel : ℕ) where
  -- The node is the root of a tree on the device whose leaf level begins with block `d`.
  pub record IsRoot (node : Intnode) (d : ℕ) : Type 0 where
    pub magic : ℕ
    pub levels : ℕ
    pub btree : List NodeEntry
    pub first : NodeEntry
    pub others : List NodeEntry
    pub kids : Children
    pub is_node : node ≡ intnode magic (suc levels) btree kids
    pub is_tree : IsTree bc sb device map_dblock levels btree (first ∷ others)
    pub is_cache : IsCache bc sb device map_dblock kids
    pub deep : levels < fuel
    pub begins : first.before ≡ d

  pub first_block-IsRoot :
      (node : Intnode) (d : ℕ)
      → IsRoot node d
      → (node' : Intnode) × (first_block bc sb device map_dblock fuel node ≡ ok (d, node'))
        × IsRoot node' d
  first_block-IsRoot node d h =
      let (kids, e, c) =
        first_block-Answers bc sb device map_dblock h.levels fuel h.magic h.btree h.others h.first
          h.kids h.is_tree h.is_cache h.deep in
      let node' = intnode h.magic (suc h.levels) h.btree kids in
      (
        node',
        ap (first_block bc sb device map_dblock fuel) h.is_node
            ∙ e
            ∙ ap (λ z. ok (z, node')) h.begins,
        record {
          magic = h.magic;
          levels = h.levels;
          btree = h.btree;
          first = h.first;
          others = h.others;
          kids = kids;
          is_node = refl;
          is_tree = h.is_tree;
          is_cache = c;
          deep = h.deep;
          begins = h.begins;
        },
      )
