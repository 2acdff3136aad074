-- ===== src/Dir/Leaf/Addresses.antt =====
-- `NodeLikeAddressIterator` of src/libxfuse/dir3_lf.rs walks through a chain of leaves.
use xfuse.Base.{
  ℕ, zero, suc, ◌+◌, ◌-◌, ◌≤◌, ◌<◌, ◌≡◌, refl, ap, ◌∙◌, Option, none, some, List, [], ◌∷◌, ◌++◌,
  Bool-cases, inl, inr, arith, ltb, ltb→lt, lt→ltb, true, false, if◌then◌else◌, length, get_elem?,
  take, drop, keep, Outcome, ok,
}
use xfuse.Codec.{Bytes, Bincode, decode}
use xfuse.Sb.{Sb}
use xfuse.Dir.{Dir2LeafEntry}
use xfuse.Dir.Index.{byte_address}
use xfuse.Dir.Index.Range.{IsIndex, has_hash, get_address_range-keep}
use xfuse.Dir.Leaf.{Dfork, Blocks, AddressIterator, iterate, ends_with, addresses_next}
use xfuse.Dir.Leaf.Disk.{LeafNDisk, get_leafn}
use xfuse.Dir.Leaf.Cache.{Holds, IsBlocks, read_dblock_lem}

-- The entries of the hash in the leaves behind one whose last entry has it: as far as the hash runs
-- over the end of a leaf.
abbrev pub onward : ℕ → List LeafNDisk → List Dir2LeafEntry
onward hash [] = []
onward hash (l ∷ ls) =
    keep (has_hash hash) l.ents ++ (if ends_with l.ents hash then onward hash ls else [])

-- What an iterator is yet to give: `here` of its own leaf, and then those of the leaves behind.
abbrev pub pending : ℕ → LeafNDisk → List Dir2LeafEntry → List LeafNDisk → List Dir2LeafEntry
pending hash leaf here ls = here ++ (if ends_with leaf.ents hash then onward hash ls else [])

take_one :
    (xs : List Dir2LeafEntry) (i k : ℕ) (x : Dir2LeafEntry) (rest : List Dir2LeafEntry)
    → take k (drop i xs) ≡ x ∷ rest
    → (get_elem? xs i ≡ some x) × (take (k - 1) (drop (i + 1) xs) ≡ rest) × (0 < k)
take_one xs i zero x rest e = cc
take_one [] zero (suc k) x rest e = cc
take_one [] (suc i) (suc k) x rest e = cc
take_one (y ∷ ys) zero (suc k) x rest e = (
  ap some (ap (λ l. elim l [ [] ↦ y | z ∷ zs ↦ z ]) e),
  ap (λ n. take n ys) (omega arith) ∙ ap (λ l. elim l [ [] ↦ [] | z ∷ zs ↦ zs ]) e,
  omega arith,
)
take_one (y ∷ ys) (suc i) (suc k) x rest e =
    let (p, q, r) = take_one ys i (suc k) x rest e in
    let s : suc i + 1 ≡ suc (i + 1) = omega arith in (p, rw s q, r)

take_none :
    (xs : List Dir2LeafEntry) (i k : ℕ) → take k (drop i xs) ≡ [] → i + k ≤ length xs → k ≡ 0
take_none xs i zero e h = refl
take_none [] i (suc k) e h = absurd (omega arith)
take_none (y ∷ ys) zero (suc k) e h = cc
take_none (y ∷ ys) (suc i) (suc k) e h = take_none ys i (suc k) e (omega arith)

module _ (bc : Bincode) (sb : Sb) (device : Bytes) (dfork : Dfork) (hash : ℕ) where
  -- The leaves behind `leaf`, linked by `forw`, as far as the iterator reads them: the last one does
  -- not end with the hash.
  abbrev pub IsChain : LeafNDisk → List LeafNDisk → Type 0
  IsChain leaf [] = ends_with leaf.ents hash ≡ false
  IsChain leaf (l ∷ ls) =
      (raw : Bytes) × Holds bc sb device dfork leaf.forw raw
      × (decode (get_leafn bc sb) raw ≡ ok l)
      × IsIndex l.ents
      × IsChain l ls

  -- The iterator stands in a leaf of a chain, with the entries `here` before it.
  pub record IsState (it : AddressIterator) (here : List Dir2LeafEntry) (ls : List LeafNDisk)
      : Type 0 where
    pub range : take (it.stop - it.start) (drop it.start it.leaf.ents) ≡ here
    pub inside : it.stop ≤ length it.leaf.ents
    pub chain : IsChain it.leaf ls

  pub iterate-IsState :
      (leaf : LeafNDisk) (ls : List LeafNDisk)
      → IsIndex leaf.ents
      → IsChain leaf ls
      → IsState (iterate leaf hash) (keep (has_hash hash) leaf.ents) ls
  iterate-IsState leaf ls s c =
      let (range, inside) = get_address_range-keep leaf.ents hash s in
      record { range = range; inside = inside; chain = c }

  -- What one call of `next` does to a state: the iteration is over, or the first pending entry is given.
  abbrev pub Steps :
      List Dir2LeafEntry → ℕ → Outcome ℕ (Option (ℕ × AddressIterator) × Blocks) → Type 0
  Steps [] n o = (blocks : Blocks) × (o ≡ ok (none, blocks)) × IsBlocks bc sb device dfork blocks
  Steps (x ∷ rest) n o =
      (it : AddressIterator) × (here : List Dir2LeafEntry) × (ls : List LeafNDisk)
      × (blocks : Blocks) × (o ≡ ok (some (byte_address x, it), blocks))
      × IsState it here ls
      × (pending hash it.leaf here ls ≡ rest)
      × (length ls ≤ n)
      × IsBlocks bc sb device dfork blocks

  Steps-le :
      (es : List Dir2LeafEntry) (m n : ℕ) (o : Outcome ℕ (Option (ℕ × AddressIterator) × Blocks))
      → m ≤ n
      → Steps es m o
      → Steps es n o
  Steps-le [] m n o le s = s
  Steps-le (x ∷ rest) m n o le (it, here, ls, blocks, e, st, p, l, b) =
      (it, here, ls, blocks, e, st, p, omega arith, b)

  -- The iterator goes on to the next leaf, where `go` says what it does.
  over_end :
      (ls : List LeafNDisk) (fuel : ℕ) (it : AddressIterator) (blocks : Blocks)
      → IsChain it.leaf ls
      → IsBlocks bc sb device dfork blocks
      → ltb it.start it.stop ≡ false
      → ends_with it.leaf.ents hash ≡ true
      → length ls < suc fuel
      → ((l : LeafNDisk) (ls' : List LeafNDisk) (blocks' : Blocks)
          → IsIndex l.ents
          → IsChain l ls'
          → IsBlocks bc sb device dfork blocks'
          → length ls' < fuel
          → Steps
              (pending hash l (keep (has_hash hash) l.ents) ls')
              (length ls')
              (addresses_next bc sb device dfork fuel hash blocks' (iterate l hash)))
      → Steps
          (pending hash it.leaf [] ls)
          (length ls)
          (addresses_next bc sb device dfork (suc fuel) hash blocks it)
  unfolding addresses_next
  over_end [] fuel it blocks c b f g lt go = absurd (ground (arith, c, g))
  over_end (l ∷ ls) fuel it blocks (raw, h, dec, idx, c) b f g lt go =
      let (blocks', e, b') = read_dblock_lem bc sb device dfork blocks it.leaf.forw raw h b in
      rw (f, g, e, dec, addresses_next)
        (Steps-le (pending hash l (keep (has_hash hash) l.ents) ls) (length ls) (suc (length ls)) _
          (omega arith) (go l ls blocks' idx c b' (omega arith)))

  pub addresses_next-Steps :
      (ls : List LeafNDisk) (fuel : ℕ) (it : AddressIterator) (here : List Dir2LeafEntry)
      (blocks : Blocks)
      → IsState it here ls
      → IsBlocks bc sb device dfork blocks
      → length ls < fuel
      → Steps
          (pending hash it.leaf here ls)
          (length ls)
          (addresses_next bc sb device dfork fuel hash blocks it)
  unfolding addresses_next
  addresses_next-Steps ls zero it here blocks st b lt = absurd (omega arith)
  addresses_next-Steps ls (suc fuel) it (x ∷ here) blocks st b lt =
      let (get, rest, pos) = take_one it.leaf.ents it.start (it.stop - it.start) x here st.range in
      let step : it.stop - (it.start + 1) ≡ it.stop - it.start - 1 = omega arith in
      (
        record it { start = it.start + 1 },
        here,
        ls,
        blocks,
        rw (lt→ltb it.start it.stop (omega arith), get, addresses_next),
        record { range = rw step rest; inside = st.inside; chain = st.chain },
        refl,
        omega arith,
        b,
      )
  addresses_next-Steps ls (suc fuel) it [] blocks st b lt =
      elim (Bool-cases (ltb it.start it.stop)) [
        | inl t ↦
            let before = ltb→lt it.start it.stop t in
            let over =
              take_none it.leaf.ents it.start (it.stop - it.start) st.range
                (omega (arith, st.inside)) in
            absurd (omega arith)
        | inr f ↦ elim (Bool-cases (ends_with it.leaf.ents hash)) [
          | inr g ↦ rw (f, g, addresses_next) (blocks, refl, b)
          | inl g ↦ over_end ls fuel it blocks st.chain b f g lt (λ l ls' blocks' idx c b' lt'.
              addresses_next-Steps ls' fuel (iterate l hash) (keep (has_hash hash) l.ents) blocks'
                (iterate-IsState l ls' idx c) b' lt')
        ]
      ]
