-- ===== src/Dir/Leaf/Level.antt =====
-- The leaf level of the index of src/libxfuse/dir3_lf.rs: which leaf the search for a hash begins with,
-- and where it may end.
use xfuse.Base.{
  ℕ, ◌≤◌, ◌<◌, ◌≡◌, ◌≢◌, refl, ap, sym, ◌∙◌, subst, List, [], ◌∷◌, ◌++◌, Bool-cases, inl, inr, ◌⊎◌,
  arith, ltb, ltb→lt, ltb→le, length, keep, ok, none, some,
}
use xfuse.Codec.{Bytes, Bincode, decode}
use xfuse.Sb.{Sb}
use xfuse.Dir.{Dir2LeafEntry}
use xfuse.Dir.Index.Range.{IsIndex, has_hash}
use xfuse.Dir.Leaf.{Dfork, ends_with}
use xfuse.Dir.Leaf.Disk.{LeafNDisk, get_leafn}
use xfuse.Dir.Leaf.Cache.{Holds}
use xfuse.Dir.Leaf.Addresses.{onward, IsChain}
use xfuse.DaBtree.Node.{NodeEntry}
use xfuse.DaBtree.Forest.{first_from}
use mathlib.Core.List.{append_assoc}
use xfuse.Dir.Leaf.Order.{
  ents_of, EndsAt, AllFrom, AllBelow, ends_with_last, All-split, IsIndex-back, keep-append,
  below_last, AllFrom-last, tail_cases,
}

module _ (bc : Bincode) (sb : Sb) (device : Bytes) (dfork : Dfork) where
  -- The entry `e` of the level above gives the leaf's block and its last hash.
  pub record IsLeafOf (e : NodeEntry) (l : LeafNDisk) : Type 0 where
    pub raw : Bytes
    pub holds : Holds bc sb device dfork e.before raw
    pub read_back : decode (get_leafn bc sb) raw ≡ ok l
    pub sorted : IsIndex l.ents
    pub ends : EndsAt e.hashval l.ents

  abbrev pub IsLinked : LeafNDisk → List NodeEntry → Type 0
  IsLinked l [] = Unit
  IsLinked l (e ∷ es) = l.forw ≡ e.before

  -- The leaf level below the entries `es`: each leaf is linked to the next.
  abbrev pub IsLevel : List NodeEntry → List LeafNDisk → Type 0
  IsLevel [] [] = Unit
  IsLevel (e ∷ es) (l ∷ ls) = IsLeafOf e l × IsLinked l es × IsLevel es ls
  IsLevel _ _ = ⊥

  module _ (hash : ℕ) where
    -- The greatest hash of the directory is not this one.
    abbrev pub IsNotTop : List NodeEntry → Type 0
    IsNotTop [] = Unit
    IsNotTop (e ∷ []) = e.hashval ≢ hash
    IsNotTop (e ∷ f ∷ es) = IsNotTop (f ∷ es)

    abbrev Reaches : List NodeEntry → Type 0
    Reaches [] = Unit
    Reaches (e ∷ es) = hash ≤ e.hashval

    pub onward_all :
        (es : List NodeEntry) (ls : List LeafNDisk)
        → IsLevel es ls
        → IsIndex (ents_of ls)
        → Reaches es
        → keep (has_hash hash) (ents_of ls) ≡ onward hash ls
    onward_all [] [] v s r = refl
    onward_all [] (l ∷ ls) v s r = absurd v
    onward_all (e ∷ es) [] v s r = absurd v
    onward_all (e ∷ es) (l ∷ ls) (p, k, v) s r =
        keep-append hash l.ents (ents_of ls)
        ∙ ap (λ z. keep (has_hash hash) l.ents ++ z)
            (elim (tail_cases hash e.hashval l.ents (ents_of ls) p.ends r s) [
              | inl (t, from) ↦
                  rw t
                    (onward_all es ls v (IsIndex-back l.ents (ents_of ls) s) (reached es ls v from))
              | inr (f, none') ↦ rw f none'
            ])
      where
        reached :
            (es : List NodeEntry) (ls : List LeafNDisk)
            → IsLevel es ls
            → AllFrom hash (ents_of ls)
            → Reaches es
        reached [] ls v a = tt
        reached (e ∷ es) [] v a = absurd v
        reached (e ∷ es) (l ∷ ls) (p, k, v) a =
            AllFrom-last hash e.hashval l.ents p.ends (All-split hash l.ents (ents_of ls) a).0

    pub IsLevel-IsChain :
        (es : List NodeEntry) (e : NodeEntry) (l : LeafNDisk) (ls : List LeafNDisk)
        → IsLevel (e ∷ es) (l ∷ ls)
        → IsNotTop (e ∷ es)
        → IsChain bc sb device dfork hash l ls
    IsLevel-IsChain [] e l [] (p, k, v) ne =
        let (front, last, split, top) = p.ends in
        ap (λ z. ends_with z hash) split ∙ ends_with_last front last hash ∙ ground arith
    IsLevel-IsChain [] e l (l2 ∷ ls) (p, k, v) ne = absurd v
    IsLevel-IsChain (e2 ∷ es) e l [] (p, k, v) ne = absurd v
    IsLevel-IsChain (e2 ∷ es) e l (l2 ∷ ls) (p, k, (p2, k2, v)) ne = (
      p2.raw,
      subst (λ z. Holds bc sb device dfork z p2.raw) (sym k) p2.holds,
      p2.read_back,
      p2.sorted,
      IsLevel-IsChain es e2 l2 ls (p2, k2, v) ne,
    )

    IsNotTop-tail : (e : NodeEntry) (es : List NodeEntry) → IsNotTop (e ∷ es) → IsNotTop es
    IsNotTop-tail e [] ne = tt
    IsNotTop-tail e (f ∷ es) ne = ne

    -- The level splits at the leaf that the search for the hash begins with.
    pub record IsFirst (es : List NodeEntry) (ls : List LeafNDisk) (e : NodeEntry) : Type 0 where
      pub found : first_from hash es ≡ some e
      pub leaf : LeafNDisk
      pub es_behind : List NodeEntry
      pub ls_behind : List LeafNDisk
      pub before : List Dir2LeafEntry
      pub split : ents_of ls ≡ before ++ ents_of (leaf ∷ ls_behind)
      pub low : AllBelow hash before
      pub level : IsLevel (e ∷ es_behind) (leaf ∷ ls_behind)
      pub not_top : IsNotTop (e ∷ es_behind)
      pub reaches : hash ≤ e.hashval
      pub fewer : length ls_behind ≤ length ls

    AllBelow-append :
        (xs ys : List Dir2LeafEntry)
        → AllBelow hash xs
        → AllBelow hash ys
        → AllBelow hash (xs ++ ys)
    AllBelow-append [] ys a b = b
    AllBelow-append (x ∷ xs) ys (a, as') b = (a, AllBelow-append xs ys as' b)

    IsLeafOf-below :
        (e : NodeEntry) (l : LeafNDisk) → IsLeafOf e l → e.hashval < hash → AllBelow hash l.ents
    IsLeafOf-below e l p lt =
        let (front, last, split, top) = p.ends in
        subst (AllBelow hash) (sym split)
          (below_last hash hash front last (subst IsIndex split p.sorted) (omega (arith, top)))

    pub locate :
        (es : List NodeEntry) (ls : List LeafNDisk)
        → IsLevel es ls
        → IsNotTop es
        → ((first_from hash es ≡ none) × AllBelow hash (ents_of ls))
          ⊎ ((e : NodeEntry) × IsFirst es ls e)
    locate [] [] v ne = inl (refl, tt)
    locate [] (l ∷ ls) v ne = absurd v
    locate (e ∷ es) [] v ne = absurd v
    locate (e ∷ es) (l ∷ ls) (p, k, v) ne = elim (Bool-cases (ltb e.hashval hash)) [
      | inr f ↦ inr (
        e,
        record {
          found = rw f;
          leaf = l;
          es_behind = es;
          ls_behind = ls;
          before = [];
          split = refl;
          low = tt;
          level = (p, k, v);
          not_top = ne;
          reaches = ltb→le e.hashval hash f;
          fewer = omega arith;
        },
      )
      | inl t ↦
          let here = IsLeafOf-below e l p (ltb→lt e.hashval hash t) in
          elim (locate es ls v (IsNotTop-tail e es ne)) [
            | inl (q, low) ↦ inl (rw t q, AllBelow-append l.ents (ents_of ls) here low)
            | inr (e', r) ↦ inr (
              e',
              record {
                found = rw t r.found;
                leaf = r.leaf;
                es_behind = r.es_behind;
                ls_behind = r.ls_behind;
                before = l.ents ++ r.before;
                split =
                    ap (λ z. l.ents ++ z) r.split
                    ∙ sym (append_assoc l.ents r.before (ents_of (r.leaf ∷ r.ls_behind)));
                low = AllBelow-append l.ents r.before here r.low;
                level = r.level;
                not_top = r.not_top;
                reaches = r.reaches;
                fewer = omega (arith, r.fewer);
              },
            )
          ]
    ]
