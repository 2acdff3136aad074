-- ===== src/Dir/Leaf/Cache.antt =====
-- The cache of directory blocks of src/libxfuse/dir3_lf.rs holds what the device holds.
use xfuse.Base.{
  ℕ, ◌≡◌, ap, sym, ◌∙◌, subst, none, some, [], ◌∷◌, Bool-cases, Option-cases, inl, inr, ◌==◌,
  ==_iff, Outcome, ok, err, panic,
}
use xfuse.Codec.{Bytes, Bincode}
use xfuse.Sb.{Sb}
use xfuse.Dir.Leaf.{Dfork, Blocks, find_block, load_dblock, read_dblock}

module _ (bc : Bincode) (sb : Sb) (device : Bytes) (dfork : Dfork) where
  -- The block `d` of the directory can be read, and these are its bytes.
  abbrev pub Holds : ℕ → Bytes → Type 0
  Holds d raw = load_dblock bc sb device dfork d ≡ ok raw

  abbrev pub IsBlocks : Blocks → Type 0
  IsBlocks [] = Unit
  IsBlocks ((d, raw) ∷ rest) = Holds d raw × IsBlocks rest

  abbrev give : Bytes → Outcome ℕ Bytes
  give raw = ok raw

  ok_value : (a b : Bytes) → give a ≡ give b → a ≡ b
  ok_value a b e = ap (λ o. elim o [ ok x ↦ x | err _ ↦ a | panic ↦ a ]) e

  found_lem :
      (blocks : Blocks) (d : ℕ) (raw raw' : Bytes)
      → Holds d raw
      → IsBlocks blocks
      → find_block blocks d ≡ some raw'
      → raw' ≡ raw
  found_lem [] d raw raw' h b e = cc
  found_lem ((d', r) ∷ rest) d raw raw' h (b, bs) e = elim (Bool-cases (d' == d)) [
    | inl t ↦
        let this : some r ≡ some raw' = (rw t at e) in
        let here = subst (λ z. Holds z r) ((==_iff d' d).0 t) b in
        sym (ap (λ o. elim o [ some x ↦ x | none ↦ r ]) this) ∙ ok_value r raw (sym here ∙ h)
    | inr f ↦ found_lem rest d raw raw' h bs (rw f at e)
  ]

  -- Cached or not, a block is read as it stands on the device, and the cache stays right.
  pub read_dblock_lem :
      (blocks : Blocks) (d : ℕ) (raw : Bytes)
      → Holds d raw
      → IsBlocks blocks
      → (blocks' : Blocks) × (read_dblock bc sb device dfork blocks d ≡ ok (raw, blocks'))
        × IsBlocks blocks'
  unfolding read_dblock
  read_dblock_lem blocks d raw h b = elim (Option-cases (find_block blocks d)) [
    | inl e ↦ ((d, raw) ∷ blocks, rw (e, h, read_dblock), (h, b))
    | inr (raw', e) ↦ (
      blocks,
      rw (e, read_dblock) (ap (λ r. ok (r, blocks)) (found_lem blocks d raw raw' h b e)),
      b,
    )
  ]
