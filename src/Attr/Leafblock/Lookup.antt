-- ===== src/Attr/Leafblock/Lookup.antt =====
-- `AttrLeafblock::get` of src/libxfuse/attr.rs: the value of an entry with the hash.
use xfuse.Base.{
  ℕ, zero, suc, ◌<◌, ◌≤◌, ◌≡◌, ◌≢◌, refl, subst, List, [], ◌∷◌, Option, none, some, arith, length,
  get_elem?, All, ◌⊎◌, inl, inr, Option-cases, Outcome, ok, err, index,
}
use xfuse.Codec.{Bytes, Bincode}
use xfuse.Sb.{Sb}
use xfuse.Attr.Leafblock.{AttrLeafEntry, AttrLeafName, AttrLeafblock}
use xfuse.Attr.Leafblock.Operations.{set, leaf_get}
use xfuse.Attr.Leafblock.Stored.{IsStored, value_lem}
use mathlib.Core.List.{map}

-- The numbers do not fall.
abbrev pub IsSorted : List ℕ → Type 0
IsSorted [] = Unit
IsSorted (k ∷ ks) = All (λ (l : ℕ). k ≤ l) ks × IsSorted ks

-- What `binary_search_by_key` promises on sorted keys.
pub record IsSearch (search : List ℕ → ℕ → Option ℕ) : Type 0 where
  pub hit :
      (ks : List ℕ) (key i : ℕ) → IsSorted ks → search ks key ≡ some i → get_elem? ks i ≡ some key
  pub miss :
      (ks : List ℕ) (key : ℕ) → IsSorted ks → search ks key ≡ none → All (λ (l : ℕ). l ≢ key) ks

abbrev pub hashes : List AttrLeafEntry → List ℕ
hashes es = map (λ (e : AttrLeafEntry). e.hashval) es

module _ (bc : Bincode) (sb : Sb) (device : Bytes) (map_dblock : ℕ → Outcome ℕ ℕ) (fuel : ℕ) where
  abbrev pub AreStored : List AttrLeafName → List Bytes → Type 0
  AreStored [] [] = Unit
  AreStored (n ∷ ns) (v ∷ vs) = IsStored bc sb device map_dblock fuel n v × AreStored ns vs
  AreStored _ _ = ⊥

  -- The block has these entries, and their values are `vs`.
  abbrev pub Stores : AttrLeafblock → List AttrLeafEntry → List Bytes → Type 0
  Stores leaf es vs = (leaf.entries ≡ es) × AreStored leaf.names vs

  AreStored-index :
      (ns : List AttrLeafName) (vs : List Bytes) (i : ℕ)
      → AreStored ns vs
      → i < length vs
      → (n : AttrLeafName) × (v : Bytes) × (index {E = ℕ} ns i ≡ ok n)
        × (get_elem? vs i ≡ some v)
        × IsStored bc sb device map_dblock fuel n v
  AreStored-index [] [] i h lt = absurd (omega arith)
  AreStored-index [] (v ∷ vs) i h lt = elim h [ ]
  AreStored-index (n ∷ ns) [] i h lt = elim h [ ]
  AreStored-index (n ∷ ns) (v ∷ vs) zero (h, hs) lt = (n, v, refl, refl, h)
  AreStored-index (n ∷ ns) (v ∷ vs) (suc i) (h, hs) lt = AreStored-index ns vs i hs (omega arith)

  AreStored-set :
      (ns : List AttrLeafName) (vs : List Bytes) (i : ℕ) (n : AttrLeafName) (v : Bytes)
      → AreStored ns vs
      → get_elem? vs i ≡ some v
      → IsStored bc sb device map_dblock fuel n v
      → AreStored (set ns i n) vs
  AreStored-set [] [] i n v h e s = tt
  AreStored-set [] (w ∷ vs) i n v h e s = elim h [ ]
  AreStored-set (m ∷ ns) [] i n v h e s = elim h [ ]
  AreStored-set (m ∷ ns) (w ∷ vs) zero n v (h, hs) e s =
      (subst (λ z. IsStored bc sb device map_dblock fuel n z) (some_value e) s, hs)
    where
      some_value : some w ≡ some v → v ≡ w
      some_value p = cc
  AreStored-set (m ∷ ns) (w ∷ vs) (suc i) n v (h, hs) e s = (h, AreStored-set ns vs i n v hs e s)

  -- An answer to a search by hash: the value of an entry that has it, with a block that stores the same
  -- values, or ENOATTR when no entry has it.
  abbrev pub Gets :
      ℕ → List AttrLeafEntry → List Bytes → ℕ → Outcome ℕ (Bytes × AttrLeafblock) → Type 0
  Gets enoattr es vs hash o =
      ((o ≡ err enoattr) × All (λ (l : ℕ). l ≢ hash) (hashes es))
      ⊎ ((i : ℕ) × (v : Bytes) × (leaf' : AttrLeafblock) × (o ≡ ok (v, leaf'))
          × (get_elem? (hashes es) i ≡ some hash)
          × (get_elem? vs i ≡ some v)
          × Stores leaf' es vs)

  in_range :
      (es : List AttrLeafEntry) (vs : List Bytes) (i hash : ℕ)
      → length es ≡ length vs
      → get_elem? (hashes es) i ≡ some hash
      → i < length vs
  in_range [] vs i hash l e = cc
  in_range (x ∷ es) [] i hash l e = absurd (omega arith)
  in_range (x ∷ es) (v ∷ vs) zero hash l e = omega arith
  in_range (x ∷ es) (v ∷ vs) (suc i) hash l e =
      let lt = in_range es vs i hash (omega arith) e in omega arith

  module _ (search : List ℕ → ℕ → Option ℕ) (law : IsSearch search) (enoattr : ℕ) where
    own_entries :
        (leaf : AttrLeafblock) (vs : List Bytes) (hash : ℕ)
        → IsSorted (hashes leaf.entries)
        → length leaf.entries ≡ length vs
        → AreStored leaf.names vs
        → Gets enoattr leaf.entries vs hash
            (leaf_get search enoattr bc sb device map_dblock fuel leaf hash)
    unfolding leaf_get
    own_entries leaf vs hash sorted size stored =
        elim (Option-cases (search (hashes leaf.entries) hash)) [
          | inl e ↦ inl (rw (e, leaf_get) refl, law.miss (hashes leaf.entries) hash sorted e)
          | inr (i, e) ↦
              let there = law.hit (hashes leaf.entries) hash i sorted e in
              let (n, v, at_n, at_v, s) =
                AreStored-index leaf.names vs i stored
                  (in_range leaf.entries vs i hash size there) in
              let (n', read, s') = value_lem bc sb device map_dblock fuel n v s in
              inr (
                i,
                v,
                record leaf { names = set leaf.names i n' },
                rw (e, at_n, read, leaf_get) refl,
                there,
                at_v,
                (refl, AreStored-set leaf.names vs i n' v stored at_v s'),
              )
        ]

    -- In a block whose entries are sorted by hash, `get` returns the value of an entry that has the hash,
    -- and ENOATTR when there is none. The block that it leaves, in which a value from other blocks is
    -- kept, stores the same values, so that the next `get` returns them too.
    pub leaf_get-Gets :
        (leaf : AttrLeafblock) (es : List AttrLeafEntry) (vs : List Bytes) (hash : ℕ)
        → IsSorted (hashes es)
        → length es ≡ length vs
        → Stores leaf es vs
        → Gets enoattr es vs hash (leaf_get search enoattr bc sb device map_dblock fuel leaf hash)
    leaf_get-Gets leaf es vs hash sorted size (same, stored) =
        subst
          (λ es'.
            IsSorted (hashes es')
            → length es' ≡ length vs
            → Gets enoattr es' vs hash
                (leaf_get search enoattr bc sb device map_dblock fuel leaf hash))
          same (λ s l. own_entries leaf vs hash s l stored) sorted size
