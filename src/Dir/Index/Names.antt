-- ===== src/Dir/Index/Names.antt =====
-- A directory's index told against its entries: the search by name that lookups stand for.
use xfuse.Base.{
  ℕ, ◌≡◌, refl, ap, ◌∙◌, List, [], ◌∷◌, if◌then◌else◌, arith, false, ==_iff, keep, Bool-cases, inl,
  inr, Outcome, ok, err,
}
use xfuse.Codec.{Bytes}
use xfuse.Codec.Encode.{bytes_eq, bytes_eq_iff}
use xfuse.FileType.{enoent}
use xfuse.Dir.{Dir2DataEntry, Dir2LeafEntry}
use xfuse.Dir.Index.Range.{has_hash}
use xfuse.DaBtree.Hash.{hashname}

-- A search through the entries by their names alone.
abbrev pub by_name : Bytes → List Dir2DataEntry → Outcome ℕ ℕ
by_name name [] = err enoent
by_name name (e ∷ es) = if bytes_eq e.name name then ok e.inumber else by_name name es

pub other_hash :
    (ent : Dir2LeafEntry) (e : Dir2DataEntry) (name : Bytes)
    → ent.hashval ≡ hashname e.name
    → has_hash (hashname name) ent ≡ false
    → bytes_eq e.name name ≡ false
other_hash ent e name h f = elim (Bool-cases (bytes_eq e.name name)) [
  | inr g ↦ g
  | inl t ↦
      let same = h ∙ ap hashname ((bytes_eq_iff e.name name).0 t) in
      let t' = (==_iff ent.hashval (hashname name)).1 same in absurd (ground arith)
]

-- The index gives these entries, in this order, where `P` says that an entry of the index gives an
-- entry of the directory.
module _ (P : Dir2LeafEntry → Dir2DataEntry → Type 0) where
  abbrev pub IsIndexOf : List Dir2LeafEntry → List Dir2DataEntry → Type 0
  IsIndexOf [] [] = Unit
  IsIndexOf (ent ∷ ents) (e ∷ es) = P ent e × IsIndexOf ents es
  IsIndexOf _ _ = ⊥

  module _
      (hashed : (ent : Dir2LeafEntry) (e : Dir2DataEntry)
        → P ent e
        → ent.hashval ≡ hashname e.name) where
    -- The entries that have the hash of a name are all that a search for the name needs.
    pub by_name-keep :
        (ents : List Dir2LeafEntry) (es : List Dir2DataEntry) (name : Bytes)
        → IsIndexOf ents es
        → (kept : List Dir2DataEntry) × IsIndexOf (keep (has_hash (hashname name)) ents) kept
          × (by_name name kept ≡ by_name name es)
    by_name-keep [] [] name h = ([], tt, refl)
    by_name-keep [] (e ∷ es) name h = absurd h
    by_name-keep (ent ∷ ents) [] name h = absurd h
    by_name-keep (ent ∷ ents) (e ∷ es) name (p, h) =
        let (kept, h', q) = by_name-keep ents es name h in
        elim (Bool-cases (has_hash (hashname name) ent)) [
          | inr f ↦ (kept, rw f h', rw (other_hash ent e name (hashed ent e p) f) q)
          | inl t ↦
              (e ∷ kept, rw t (p, h'), ap (λ o. if bytes_eq e.name name then ok e.inumber else o) q)
        ]
