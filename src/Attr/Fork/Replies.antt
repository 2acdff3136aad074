-- ===== src/Attr/Fork/Replies.antt =====
-- `listxattr` of src/libxfuse/volume.rs on the attribute forks of src/libxfuse/attr.rs, in all four formats.
use xfuse.Base.{
  map_ok, ℕ, zero, suc, ◌^◌, ◌<◌, ◌≡◌, refl, sym, ap, ◌∙◌, subst, List, [], ◌∷◌, Option, none, some,
  ◌⊎◌, inl, inr, arith, ltb, Bool-cases, length, All, Outcome, ok,
}
use xfuse.Codec.{Bytes, Bincode}
use xfuse.Sb.{Sb}
use xfuse.Attr.Interface as I
use xfuse.Attr.Interface.{listxattr, listxattr_lem, reply_for, left_by, Reply}
use xfuse.Attr.ShortformLaws.{IsEntry, listing, list_from_lem}
use xfuse.Attr.Leafblock.{AttrLeafblock}
use xfuse.Attr.Leafblock.Operations.{leaf_total_size, leaf_list}
use xfuse.Attr.Leafblock.Listing.{AreNamed, names_of, list_onto_lem, total_from_lem}
use xfuse.Attr.Leaves.Listed.{all_names, AllNamed}
use xfuse.Attr.Leaf.{AttrLeaf, fork_total_size, fork_list}
use xfuse.Attr.Node.Listing.{IsNodeFork, node_list-IsNodeFork}
use xfuse.Attr.Bptree.Listing.{IsTreeFork, tree_list-IsTreeFork}
use xfuse.Attr.Fork.{Attributes, sf, leaf, node, btree, get_total_size, list, get}

module _ (bc : Bincode) (sb : Sb) (device : Bytes) (fuel enoattr : ℕ) where
  -- The enum through the trait.
  abbrev pub operations : (List ℕ → ℕ → Option ℕ) → I.Attributes Attributes
  operations search = record {
    get_total_size = get_total_size bc sb device fuel enoattr;
    list = list bc sb device fuel enoattr;
    get = get bc sb device fuel enoattr search;
  }

  -- The names of a leaf, added up before or not.
  pub record IsLeafFork (a : AttrLeaf) (names : Bytes) : Type 0 where
    pub named : AreNamed a.leaf.names
    pub holds : names ≡ names_of a.leaf.entries a.leaf.names
    pub sized : (a.total_size ≡ none) ⊎ (a.total_size ≡ some (length names))

  -- The fork has the names, each behind its name space and closed by a NUL, in any of the formats.
  abbrev pub Holds : Attributes → Bytes → Type 0
  Holds (sf a) names = All IsEntry a.list × (names ≡ listing a.list) × (a.total_size ≡ length names)
  Holds (leaf a) names = IsLeafFork a names
  Holds (node a) names =
      (ls : List AttrLeafblock) × AllNamed ls
      × (names ≡ all_names ls)
      × IsNodeFork bc sb device fuel ls a
  Holds (btree a) names =
      (l : AttrLeafblock) × (ls : List AttrLeafblock) × AllNamed (l ∷ ls)
      × (names ≡ all_names (l ∷ ls))
      × IsTreeFork bc sb device fuel enoattr l ls a

  abbrev sized_as : Bytes → Attributes → Outcome ℕ (ℕ × Attributes)
  sized_as names f = ok (length names, f)

  abbrev listed_as : Bytes → Attributes → Outcome ℕ (Bytes × Attributes)
  listed_as names f = ok (names, f)

  fork_total_lem :
      (a : AttrLeaf) (names : Bytes)
      → length names < 2 ^ 32
      → IsLeafFork a names
      → (a' : AttrLeaf) × (fork_total_size a ≡ (length names, a')) × IsLeafFork a' names
  unfolding fork_total_size leaf_total_size
  fork_total_lem a names small h = elim h.sized [
    | inr e ↦ (
      a,
      ap
          (λ (o : Option ℕ). elim o as (λ _. ℕ × AttrLeaf) [
            | some n ↦ (n, a)
            | none ↦
                (leaf_total_size a.leaf, record a { total_size = some (leaf_total_size a.leaf) })
          ])
          e,
      h,
    )
    | inl e ↦
        let size = ap (λ (z : Bytes). length z) h.holds in
        let total : leaf_total_size a.leaf ≡ length names =
          total_from_lem a.leaf.entries a.leaf.names 0 h.named (omega (arith, size, small))
          ∙ omega (arith, size) in
        (
          record a { total_size = some (length names) },
          rw (e, fork_total_size) (ap (λ (n : ℕ). (n, record a { total_size = some n })) total),
          record { named = h.named; holds = h.holds; sized = inr refl },
        )
  ]

  fork_list_lem :
      (a : AttrLeaf) (names : Bytes)
      → length names < 2 ^ 32
      → IsLeafFork a names
      → (a' : AttrLeaf) × (fork_list a ≡ ok (names, a')) × IsLeafFork a' names
  unfolding fork_list leaf_list
  fork_list_lem a names small h =
      let (a', e, h') = fork_total_lem a names small h in
      (
        a',
        ap (λ (r : ℕ × AttrLeaf). map_ok (λ (z : Bytes). (z, r.1)) (leaf_list r.1.leaf [])) e
            ∙ ap (λ (o : Outcome ℕ Bytes). map_ok (λ (z : Bytes). (z, a')) o)
                (list_onto_lem a'.leaf.entries a'.leaf.names [] h'.named
                  ∙ ap (λ (z : Bytes). ok z) (sym h'.holds)),
        h',
      )

  sizes :
      (f : Attributes) (names : Bytes)
      → length names < 2 ^ 32
      → Holds f names
      → (f' : Attributes) × (get_total_size bc sb device fuel enoattr f ≡ sized_as names f')
        × Holds f' names
  unfolding get_total_size
  sizes (sf a) names small (ok_entries, e, size) =
      (sf a, ap (λ (n : ℕ). ok (n, sf a)) size, (ok_entries, e, size))
  sizes (leaf a) names small h =
      let (a', e, h') = fork_total_lem a names small h in
      (leaf a', ap (λ (r : ℕ × AttrLeaf). ok (r.0, leaf r.1)) e, h')
  sizes (node a) names small (ls, named, e, h) =
      let small' : length (all_names ls) < 2 ^ 32 = subst (λ z. length z < 2 ^ 32) e small in
      let ((a', got, h'), _) = node_list-IsNodeFork bc sb device fuel ls named small' a h in
      (node a', rw got (ap (λ z. sized_as z (node a')) (sym e)), (ls, named, e, h'))
  sizes (btree a) names small (l, ls, named, e, h) =
      let small' : length (all_names (l ∷ ls)) < 2 ^ 32 = subst (λ z. length z < 2 ^ 32) e small in
      let ((a', got, h'), _) =
        tree_list-IsTreeFork bc sb device fuel enoattr l ls named small' a h in
      (btree a', rw got (ap (λ z. sized_as z (btree a')) (sym e)), (l, ls, named, e, h'))

  lists :
      (f : Attributes) (names : Bytes)
      → length names < 2 ^ 32
      → Holds f names
      → (f' : Attributes) × (list bc sb device fuel enoattr f ≡ listed_as names f') × Holds f' names
  unfolding list
  lists (sf a) names small (ok_entries, e, size) = (
    sf a,
    rw (list_from_lem a.list ok_entries) (ap (λ z. listed_as z (sf a)) (sym e)),
    (ok_entries, e, size),
  )
  lists (leaf a) names small h =
      let (a', e, h') = fork_list_lem a names small h in (leaf a', rw e refl, h')
  lists (node a) names small (ls, named, e, h) =
      let small' : length (all_names ls) < 2 ^ 32 = subst (λ z. length z < 2 ^ 32) e small in
      let (_, (a', got, h')) = node_list-IsNodeFork bc sb device fuel ls named small' a h in
      (node a', rw got (ap (λ z. listed_as z (node a')) (sym e)), (ls, named, e, h'))
  lists (btree a) names small (l, ls, named, e, h) =
      let small' : length (all_names (l ∷ ls)) < 2 ^ 32 = subst (λ z. length z < 2 ^ 32) e small in
      let (_, (a', got, h')) =
        tree_list-IsTreeFork bc sb device fuel enoattr l ls named small' a h in
      (btree a', rw got (ap (λ z. listed_as z (btree a')) (sym e)), (l, ls, named, e, h'))

  left_by-Holds :
      (s1 s2 : Attributes) (names : Bytes) (given : ℕ)
      → Holds s1 names
      → Holds s2 names
      → Holds (left_by s1 s2 names given) names
  left_by-Holds s1 s2 names zero h1 h2 = h1
  left_by-Holds s1 s2 names (suc room) h1 h2 = elim (Bool-cases (ltb (suc room) (length names))) [
    | inl t ↦ rw t h1
    | inr f ↦ rw f h2
  ]

  -- On an attribute fork of any format that holds names of less than 2^32 bytes, `listxattr` replies with
  -- their size when asked for it, with ERANGE when the buffer is too small, and otherwise with the names.
  -- Its assertion on the size never fails, and the fork holds the names behind it too. This is for names
  -- that are as long as they say, caches that hold what the device holds, and more rounds than leaves and
  -- levels.
  pub listxattr-Holds :
      (f : Attributes) (names : Bytes) (given : ℕ) (search : List ℕ → ℕ → Option ℕ)
      → length names < 2 ^ 32
      → Holds f names
      → (f' : Attributes) × (listxattr (operations search) (some f) given
          ≡ ok (reply_for names given, some f'))
        × Holds f' names
  listxattr-Holds f names given search small h =
      let (s1, e1, h1) = sizes f names small h in
      let (s2, e2, h2) = lists s1 names small h1 in
      (
        left_by s1 s2 names given,
        listxattr_lem (operations search) f s1 s2 names given e1 e2,
        left_by-Holds s1 s2 names given h1 h2,
      )
