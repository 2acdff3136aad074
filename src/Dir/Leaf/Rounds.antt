-- ===== src/Dir/Leaf/Rounds.antt =====
-- The loop of `lookup` of src/libxfuse/dir3_lf.rs over the addresses that the iterator gives.
use xfuse.Base.{
  ℕ, zero, suc, ◌+◌, ◌%◌, ◌≤◌, ◌<◌, ◌≡◌, refl, subst, some, List, [], ◌∷◌, Bool-cases, inl, inr,
  arith, le→leb, length, drop, Outcome, ok, err, panic,
}
use xfuse.Codec.{Bytes, Bincode, decode}
use xfuse.Codec.Encode.{bytes_eq}
use xfuse.Sb.{Sb}
use xfuse.Dir.{Dir2DataEntry, Dir2LeafEntry, get_data_entry}
use xfuse.Dir.Index.{byte_address}
use xfuse.Dir.Index.Names.{by_name, IsIndexOf}
use xfuse.Dir.Leaf.{
  Dfork, Blocks, AddressIterator, dblksize, dblock_of, addresses_next, lookup_rounds,
}
use xfuse.Dir.Leaf.Disk.{LeafNDisk}
use xfuse.Dir.Leaf.Cache.{Holds, IsBlocks, read_dblock_lem}
use xfuse.Dir.Leaf.Addresses.{pending, IsState, Steps, addresses_next-Steps}
use xfuse.DaBtree.Hash.{hashname}

module _ (bc : Bincode) (sb : Sb) (device : Bytes) (dfork : Dfork) where
  -- The entry of the index gives the address of the record in the directory, and the hash of its name.
  pub record PointsTo (ent : Dir2LeafEntry) (e : Dir2DataEntry) : Type 0 where
    pub block : Bytes
    pub holds : Holds bc sb device dfork (dblock_of sb (byte_address ent)) block
    pub inside : byte_address ent % dblksize sb ≤ length block
    pub read_back :
        decode (get_data_entry bc sb) (drop (byte_address ent % dblksize sb) block) ≡ ok e
    pub hashed : ent.hashval ≡ hashname e.name

  -- A result, with a cache that is right.
  abbrev pub Answers : {A : Type 0} → Outcome ℕ A → Outcome ℕ (A × Blocks) → Type 0
  Answers (ok a) r = (blocks : Blocks) × (r ≡ ok (a, blocks)) × IsBlocks bc sb device dfork blocks
  Answers (err e) r = r ≡ err e
  Answers panic r = r ≡ panic

  module _ (hash : ℕ) (name : Bytes) where
    one_round :
        (fuel : ℕ) (x : Dir2LeafEntry) (e : Dir2DataEntry) (es : List Dir2DataEntry)
        (it it1 : AddressIterator) (blocks blocks1 : Blocks)
        → addresses_next bc sb device dfork (suc fuel) hash blocks it
          ≡ ok (some (byte_address x, it1), blocks1)
        → PointsTo x e
        → IsBlocks bc sb device dfork blocks1
        → ((blocks2 : Blocks)
            → IsBlocks bc sb device dfork blocks2
            → Answers
                (by_name name es)
                (lookup_rounds bc sb device dfork fuel hash name blocks2 it1))
        → Answers
            (by_name name (e ∷ es))
            (lookup_rounds bc sb device dfork (suc fuel) hash name blocks it)
    unfolding lookup_rounds
    one_round fuel x e es it it1 blocks blocks1 step p b1 go =
        let (blocks2, eq, b2) =
          read_dblock_lem bc sb device dfork blocks1 (dblock_of sb (byte_address x)) p.block p.holds
            b1 in
        rw
          (
            step,
            eq,
            le→leb (byte_address x % dblksize sb) (length p.block) p.inside,
            p.read_back,
            lookup_rounds,
          )
          (elim (Bool-cases (bytes_eq e.name name)) [
            | inl t ↦ rw t (blocks2, refl, b2)
            | inr f ↦ rw f (go blocks2 b2)
          ])

    pub lookup_rounds-Answers :
        (fuel : ℕ) (ents : List Dir2LeafEntry) (es : List Dir2DataEntry) (it : AddressIterator)
        (here : List Dir2LeafEntry) (ls : List LeafNDisk) (blocks : Blocks)
        → pending hash it.leaf here ls ≡ ents
        → IsState bc sb device dfork hash it here ls
        → IsIndexOf PointsTo ents es
        → IsBlocks bc sb device dfork blocks
        → length ents + length ls < fuel
        → Answers (by_name name es) (lookup_rounds bc sb device dfork fuel hash name blocks it)
    unfolding lookup_rounds
    lookup_rounds-Answers zero ents es it here ls blocks p st idx b lt = absurd (omega arith)
    lookup_rounds-Answers (suc fuel) [] [] it here ls blocks p st idx b lt =
        let (blocks1, e, b1) =
          subst
            (λ z.
              Steps bc sb device dfork hash z (length ls)
                (addresses_next bc sb device dfork (suc fuel) hash blocks it))
            p
            (addresses_next-Steps bc sb device dfork hash ls (suc fuel) it here blocks st b
              (omega arith)) in
        rw (e, lookup_rounds)
    lookup_rounds-Answers (suc fuel) [] (e ∷ es) it here ls blocks p st idx b lt = absurd idx
    lookup_rounds-Answers (suc fuel) (x ∷ ents) [] it here ls blocks p st idx b lt = absurd idx
    lookup_rounds-Answers (suc fuel) (x ∷ ents) (e ∷ es) it here ls blocks p st (pt, idx) b lt =
        let (it1, here1, ls1, blocks1, step, st1, p1, le, b1) =
          subst
            (λ z.
              Steps bc sb device dfork hash z (length ls)
                (addresses_next bc sb device dfork (suc fuel) hash blocks it))
            p
            (addresses_next-Steps bc sb device dfork hash ls (suc fuel) it here blocks st b
              (omega arith)) in
        one_round fuel x e es it it1 blocks blocks1 step pt b1 (λ blocks2 b2.
          lookup_rounds-Answers fuel ents es it1 here1 ls1 blocks2 p1 st1 idx b2 (omega arith))
