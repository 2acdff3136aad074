-- ===== src/Attr/Leaves/Chain.antt =====
-- The loops over the leaf blocks of an attribute fork, and its cache, against the device.
use xfuse.Base.{
  ℕ, zero, suc, ◌<◌, ◌≡◌, ◌≢◌, refl, sym, ap, ◌∙◌, subst, List, [], ◌∷◌, Option, none, some, arith,
  length, Bool-cases, Option-cases, inl, inr, ◌==◌, ==_iff, nat_eq-false, Outcome, ok, err, panic,
  ◌>>=◌,
}
use xfuse.Codec.{Bytes, Bincode}
use xfuse.Sb.{Sb}
use xfuse.Attr.Leafblock.{AttrLeafblock}
use xfuse.Attr.Leafblock.Listing.{blank_block}
use xfuse.Attr.Leaves.{Leaves, find_leaf, load_leaf, read_leaf, while_leaves, loop_leaves}

-- One leaf after the other.
abbrev pub visit_all :
    {S : Type 0} → (AttrLeafblock → S → Outcome ℕ S) → List AttrLeafblock → S → Outcome ℕ S
visit_all visit [] s = ok s
visit_all visit (leaf ∷ rest) s = visit leaf s >>= visit_all visit rest

module _ (bc : Bincode) (sb : Sb) (device : Bytes) (map_dblock : ℕ → Outcome ℕ ℕ) where
  -- A leaf is that of the device, but for values read from other blocks.
  abbrev pub IsCopy : ℕ → AttrLeafblock → Type 0
  IsCopy d leaf =
      (leaf0 : AttrLeafblock) × (load_leaf bc sb device map_dblock d ≡ ok leaf0)
      × (blank_block leaf ≡ blank_block leaf0)

  -- The cache holds what the device holds.
  abbrev pub IsLeaves : Leaves → Type 0
  IsLeaves [] = Unit
  IsLeaves ((d, leaf) ∷ rest) = IsCopy d leaf × IsLeaves rest

  -- The leaves of the chain that begins at a block; block 0 ends it.
  abbrev pub IsChain : ℕ → List AttrLeafblock → Type 0
  IsChain d [] = d ≡ 0
  IsChain d (leaf ∷ rest) =
      (d ≢ 0) × (load_leaf bc sb device map_dblock d ≡ ok leaf) × IsChain leaf.hdr.forw rest

  abbrev give : AttrLeafblock → Outcome ℕ AttrLeafblock
  give leaf = ok leaf

  same_value : (a b : AttrLeafblock) → give a ≡ give b → a ≡ b
  same_value a b e =
      ap (λ (o : Outcome ℕ AttrLeafblock). elim o [ ok x ↦ x | err _ ↦ a | panic ↦ a ]) e

  found_lem :
      (leaves : Leaves) (d : ℕ) (leaf leaf' : AttrLeafblock)
      → load_leaf bc sb device map_dblock d ≡ ok leaf
      → IsLeaves leaves
      → find_leaf leaves d ≡ some leaf'
      → blank_block leaf' ≡ blank_block leaf
  found_lem [] d leaf leaf' h c e = cc
  found_lem ((d', l) ∷ rest) d leaf leaf' h ((l0, at, copy), cs) e = elim (Bool-cases (d' == d)) [
    | inl t ↦
        let this : some l ≡ some leaf' = (rw t at e) in
        let here =
          subst (λ z. load_leaf bc sb device map_dblock z ≡ ok l0) ((==_iff d' d).0 t) at in
        ap blank_block
          (sym (ap (λ (o : Option AttrLeafblock). elim o [ some x ↦ x | none ↦ l ]) this))
        ∙ copy
        ∙ ap blank_block (same_value l0 leaf (sym here ∙ h))
    | inr f ↦ found_lem rest d leaf leaf' h cs (rw f at e)
  ]

  -- Cached or not, a leaf is read as it stands on the device, but for values that have been read.
  pub read_leaf_lem :
      (leaves : Leaves) (d : ℕ) (leaf : AttrLeafblock)
      → load_leaf bc sb device map_dblock d ≡ ok leaf
      → IsLeaves leaves
      → (leaf' : AttrLeafblock) × (leaves' : Leaves) × (read_leaf bc sb device map_dblock leaves d
          ≡ ok (leaf', leaves'))
        × (blank_block leaf' ≡ blank_block leaf)
        × IsLeaves leaves'
  unfolding read_leaf
  read_leaf_lem leaves d leaf h c = elim (Option-cases (find_leaf leaves d)) [
    | inl e ↦ (leaf, (d, leaf) ∷ leaves, rw (e, h, read_leaf) refl, refl, ((leaf, h, refl), c))
    | inr (leaf', e) ↦
        (leaf', leaves, rw (e, read_leaf) refl, found_lem leaves d leaf leaf' h c e, c)
  ]

  module _ {S : Type 0} (visit : AttrLeafblock → S → Outcome ℕ S)
      (blind : (leaf leaf' : AttrLeafblock) (s : S)
        → blank_block leaf ≡ blank_block leaf'
        → visit leaf s ≡ visit leaf' s) where
    forw_of :
        (leaf leaf' : AttrLeafblock)
        → blank_block leaf' ≡ blank_block leaf
        → leaf'.hdr.forw ≡ leaf.hdr.forw
    forw_of leaf leaf' e = ap (λ (l : AttrLeafblock). l.hdr.forw) e

    -- The state behind the loop is that behind the leaves of the chain, and the cache stays right.
    abbrev pub Visits : Outcome ℕ S → Outcome ℕ (S × Leaves) → Type 0
    Visits (ok s) o = (leaves' : Leaves) × (o ≡ ok (s, leaves')) × IsLeaves leaves'
    Visits (err e) o = o ≡ err e
    Visits panic o = o ≡ panic

    after :
        (v : Outcome ℕ S) (rest : S → Outcome ℕ S) (k : S → Outcome ℕ (S × Leaves))
        → ((s : S) → Visits (rest s) (k s))
        → Visits (v >>= rest) (v >>= k)
    after (ok s) rest k h = h s
    after (err e) rest k h = refl
    after panic rest k h = refl

    pub while_leaves-Visits :
        (ls : List AttrLeafblock) (fuel : ℕ) (leaves : Leaves) (d : ℕ) (s : S)
        → length ls < fuel
        → IsChain d ls
        → IsLeaves leaves
        → Visits (visit_all visit ls s) (while_leaves bc sb device map_dblock visit fuel leaves d s)
    unfolding while_leaves
    while_leaves-Visits ls zero leaves d s lt ch c = absurd (omega arith)
    while_leaves-Visits [] (suc fuel) leaves d s lt ch c =
        (leaves, rw ((==_iff d 0).1 ch, while_leaves) refl, c)
    while_leaves-Visits (leaf ∷ ls) (suc fuel) leaves d s lt (ne, h, ch) c =
        let (leaf', leaves1, e, same, c1) = read_leaf_lem leaves d leaf h c in
        rw (nat_eq-false d 0 ne, e, blind leaf' leaf s same, forw_of leaf leaf' same, while_leaves)
          (after (visit leaf s) (visit_all visit ls)
            (λ s1. while_leaves bc sb device map_dblock visit fuel leaves1 leaf.hdr.forw s1)
            (λ s1. while_leaves-Visits ls fuel leaves1 leaf.hdr.forw s1 (omega arith) ch c1))

    pub loop_leaves-Visits :
        (ls : List AttrLeafblock) (leaf : AttrLeafblock) (fuel : ℕ) (leaves : Leaves) (d : ℕ)
        (s : S)
        → length ls < fuel
        → load_leaf bc sb device map_dblock d ≡ ok leaf
        → IsChain leaf.hdr.forw ls
        → IsLeaves leaves
        → Visits
            (visit_all visit (leaf ∷ ls) s)
            (loop_leaves bc sb device map_dblock visit fuel leaves d s)
    unfolding loop_leaves
    loop_leaves-Visits ls leaf zero leaves d s lt h ch c = absurd (omega arith)
    loop_leaves-Visits [] leaf (suc fuel) leaves d s lt h ch c =
        let (leaf', leaves1, e, same, c1) = read_leaf_lem leaves d leaf h c in
        rw
          (
            e,
            blind leaf' leaf s same,
            forw_of leaf leaf' same,
            (==_iff leaf.hdr.forw 0).1 ch,
            loop_leaves,
          )
          (after (visit leaf s) (visit_all visit []) (λ s1. ok (s1, leaves1))
            (λ s1. (leaves1, refl, c1)))
    loop_leaves-Visits (next ∷ ls) leaf (suc fuel) leaves d s lt h (ne, h', ch) c =
        let (leaf', leaves1, e, same, c1) = read_leaf_lem leaves d leaf h c in
        rw
          (
            e,
            blind leaf' leaf s same,
            forw_of leaf leaf' same,
            nat_eq-false leaf.hdr.forw 0 ne,
            loop_leaves,
          )
          (after (visit leaf s) (visit_all visit (next ∷ ls))
            (λ s1. loop_leaves bc sb device map_dblock visit fuel leaves1 leaf.hdr.forw s1)
            (λ s1. loop_leaves-Visits ls next fuel leaves1 leaf.hdr.forw s1 (omega arith) h' ch c1))
