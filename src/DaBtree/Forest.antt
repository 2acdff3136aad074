-- ===== src/DaBtree/Forest.antt =====
-- The B+tree of src/libxfuse/da_btree.rs: the entries of a node, and those of its children together.
use xfuse.Base.{
  ℕ, ◌≤◌, ◌<◌, ◌≡◌, refl, sym, ap, ◌∙◌, subst, Option, none, some, List, [], ◌∷◌, ◌++◌, ltb, lt→ltb,
  ltb→lt, le→ltb, ltb→le, if◌then◌else◌, arith, get_elem?, partition_point, All, ◌⊎◌, inl, inr,
  Bool-cases,
}
use xfuse.DaBtree.Node.{NodeEntry}

-- The first entry of the leaf level whose hash is not below `hash`: its block holds the hash.
abbrev pub first_from : ℕ → List NodeEntry → Option NodeEntry
first_from hash [] = none
first_from hash (e ∷ es) = if ltb e.hashval hash then first_from hash es else some e

pub get_elem?-partition_point :
    (hash : ℕ) (es : List NodeEntry)
    → get_elem? es (partition_point (λ (k : NodeEntry). ltb k.hashval hash) es) ≡ first_from hash es
get_elem?-partition_point hash [] = refl
get_elem?-partition_point hash (e ∷ es) = elim (Bool-cases (ltb e.hashval hash)) [
  | inl t ↦ rw t (get_elem?-partition_point hash es)
  | inr f ↦ rw f
]

-- The hashes do not fall.
abbrev pub IsSorted : List NodeEntry → Type 0
IsSorted [] = Unit
IsSorted (e ∷ es) = All (λ (f : NodeEntry). e.hashval ≤ f.hashval) es × IsSorted es

-- `h` is the hash of the last entry, and no other is above it.
abbrev pub Tops : ℕ → List NodeEntry → Type 0
Tops h seg =
    (front : List NodeEntry) × (l : NodeEntry) × (seg ≡ front ++ (l ∷ []))
    × (l.hashval ≡ h)
    × All (λ (e : NodeEntry). e.hashval ≤ h) front

-- The entries of a node's children, one after the other, are `es`; `C` says which entries are those
-- of one child.
abbrev pub IsForest :
    (NodeEntry → List NodeEntry → Type 0) → List NodeEntry → List NodeEntry → Type 0
IsForest C [] es = es ≡ []
IsForest C (e ∷ rest) es =
    (seg : List NodeEntry) × (more : List NodeEntry) × (es ≡ seg ++ more)
    × C e seg
    × IsForest C rest more

-- The first entry of the children's entries is that of the first child.
pub Tops-head :
    (h : ℕ) (seg : List NodeEntry)
    → Tops h seg
    → (more all : List NodeEntry) → all ≡ seg ++ more
    → (e : NodeEntry) (es : List NodeEntry) → all ≡ e ∷ es
    → (seg' : List NodeEntry) × (seg ≡ e ∷ seg')
Tops-head h [] (front, l, e, top, a) more all p x xs q = absurd (no_last front e)
  where
    no_last : (front : List NodeEntry) → [] ≡ front ++ (l ∷ []) → ⊥
    no_last [] e = cc
    no_last (y ∷ front) e = cc
Tops-head h (y ∷ seg) t more all p x xs q = (seg, ap (λ z. z ∷ seg) (ap (head_or x) (sym p ∙ q)))
  where
    head_or : NodeEntry → List NodeEntry → NodeEntry
    head_or d [] = d
    head_or d (z ∷ zs) = z

module _ (hash : ℕ) where
  first_from-append :
      (seg more : List NodeEntry)
      → All (λ (e : NodeEntry). e.hashval < hash) seg
      → first_from hash (seg ++ more) ≡ first_from hash more
  first_from-append [] more h = refl
  first_from-append (e ∷ seg) more (h, hs) =
      rw (lt→ltb e.hashval hash h) (first_from-append seg more hs)

  first_from-some :
      (seg more : List NodeEntry) (x : NodeEntry)
      → first_from hash seg ≡ some x
      → first_from hash (seg ++ more) ≡ some x
  first_from-some [] more x h = cc
  first_from-some (e ∷ seg) more x h = elim (Bool-cases (ltb e.hashval hash)) [
    | inl t ↦ rw t (first_from-some seg more x (rw t at h))
    | inr f ↦ rw f (rw f at h)
  ]

  first_from-hits :
      (front : List NodeEntry) (l : NodeEntry)
      → hash ≤ l.hashval
      → (x : NodeEntry) × (first_from hash (front ++ (l ∷ [])) ≡ some x)
  first_from-hits [] l h = (l, rw (le→ltb l.hashval hash h))
  first_from-hits (e ∷ front) l h = elim (Bool-cases (ltb e.hashval hash)) [
    | inl t ↦ let (x, p) = first_from-hits front l h in (x, rw t p)
    | inr f ↦ (e, rw f)
  ]

  All-below :
      (h : ℕ) (es : List NodeEntry)
      → h < hash
      → All (λ (e : NodeEntry). e.hashval ≤ h) es
      → All (λ (e : NodeEntry). e.hashval < hash) es
  All-below h [] lt a = tt
  All-below h (e ∷ es) lt (a, as') = (omega arith, All-below h es lt as')

  Tops-below :
      (h : ℕ) (seg more : List NodeEntry)
      → Tops h seg
      → h < hash
      → first_from hash (seg ++ more) ≡ first_from hash more
  Tops-below h seg more (front, l, e, top, a) lt = first_from-append seg more (
      subst (All (λ (e : NodeEntry). e.hashval < hash)) (sym e)
        (joined front (All-below h front lt a)))
    where
      joined :
          (front : List NodeEntry)
          → All (λ (e : NodeEntry). e.hashval < hash) front
          → All (λ (e : NodeEntry). e.hashval < hash) (front ++ (l ∷ []))
      joined [] a = (omega (arith, top), tt)
      joined (e ∷ front) (a, as') = (a, joined front as')

  Tops-hits :
      (h : ℕ) (seg : List NodeEntry)
      → Tops h seg
      → hash ≤ h
      → (x : NodeEntry) × (first_from hash seg ≡ some x)
  Tops-hits h seg (front, l, e, top, a) le =
      let (x, p) = first_from-hits front l (omega (arith, top)) in (x, ap (first_from hash) e ∙ p)

  -- A search over the children's entries goes by the one child that a search over the node's own
  -- entries finds.
  pub forest :
      (C : NodeEntry → List NodeEntry → Type 0) (btree es : List NodeEntry)
      → ((e : NodeEntry) (seg : List NodeEntry) → C e seg → Tops e.hashval seg)
      → IsForest C btree es
      → ((first_from hash btree ≡ none) × (first_from hash es ≡ none))
        ⊎ ((e : NodeEntry) × (seg : List NodeEntry) × (first_from hash btree ≡ some e)
            × C e seg
            × (first_from hash es ≡ first_from hash seg))
  forest C [] es tops f = inl (refl, ap (first_from hash) f)
  forest C (e ∷ rest) es tops (seg, more, split, c, f) = elim (Bool-cases (ltb e.hashval hash)) [
    | inl t ↦
        let skip =
          ap (first_from hash) split
          ∙ Tops-below e.hashval seg more (tops e seg c) (ltb→lt e.hashval hash t) in
        elim (forest C rest more tops f) [
          | inl (p, q) ↦ inl (rw t p, skip ∙ q)
          | inr (e', seg', p, c', q) ↦ inr (e', seg', rw t p, c', skip ∙ q)
        ]
    | inr g ↦
        let (x, p) = Tops-hits e.hashval seg (tops e seg c) (ltb→le e.hashval hash g) in
        inr (e, seg, rw g, c, ap (first_from hash) split ∙ first_from-some seg more x p ∙ sym p)
  ]
