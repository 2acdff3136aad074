-- ===== src/Attr/Leafblock/Stored.antt =====
-- The values of attributes in src/libxfuse/attr.rs against what the device stores.
use xfuse.Base.{
  ℕ, zero, suc, ◌-◌, ◌<◌, ◌≤◌, ◌≡◌, refl, sym, ap, ◌∙◌, List, [], ◌∷◌, ◌++◌, arith, length,
  length-append, drop, ltb, lt→ltb, le→ltb, le→leb, ◌⊎◌, inl, inr, Bool-cases, ltb→le, Outcome, ok,
}
use xfuse.Codec.{Bytes, Bincode}
use xfuse.Sb.{Sb}
use xfuse.Attr.{add32}
use xfuse.Attr.Leafblock.{AttrLeafName, local, remote, AttrLeafNameRemote}
use xfuse.Attr.Leafblock.Value.{read_rmt, rmt_loop, remote_value, value}
use mathlib.Core.List.{append_assoc, append-nil}

abbrev pub joined : List Bytes → Bytes
joined [] = []
joined (p ∷ ps) = p ++ joined ps

module _ (bc : Bincode) (sb : Sb) (device : Bytes) (map_dblock : ℕ → Outcome ℕ ℕ) where
  -- From block `blk` on the blocks of the fork hold these pieces of a value, of which `left` bytes are
  -- missing; the last piece is the first that makes up for them.
  abbrev pub IsRead : ℕ → ℕ → List Bytes → Type 0
  IsRead blk left [] = left ≡ 0
  IsRead blk left (p ∷ ps) =
      (0 < left)
      × (read_rmt bc sb device map_dblock blk ≡ ok p)
      × IsRead (add32 blk 1) (left - length p) ps

  IsRead-enough : (ps : List Bytes) (blk left : ℕ) → IsRead blk left ps → left ≤ length (joined ps)
  IsRead-enough [] blk left h = omega arith
  IsRead-enough (p ∷ ps) blk left (pos, e, h) =
      omega (arith, length-append p (joined ps), IsRead-enough ps (add32 blk 1) (left - length p) h)

  rmt_loop_lem :
      (ps : List Bytes) (fuel blk left : ℕ) (before : Bytes)
      → length ps < fuel
      → IsRead blk left ps
      → rmt_loop bc sb device map_dblock fuel blk left before ≡ ok (before ++ joined ps)
  unfolding rmt_loop
  rmt_loop_lem ps zero blk left before lt h = absurd (omega arith)
  rmt_loop_lem [] (suc fuel) blk left before lt h =
      rw (le→ltb 0 left (omega arith)) (ap ok (sym (append-nil before)))
  rmt_loop_lem (p ∷ ps) (suc fuel) blk left before lt (pos, e, h) =
      rw (lt→ltb 0 left pos, e, rmt_loop)
        (rmt_loop_lem ps fuel (add32 blk 1) (left - length p) (before ++ p) (omega arith) h
          ∙ ap ok (append_assoc before p (joined ps)))

  -- The value of a name is `v`: in the block, or in the blocks of the fork, whether or not it has been
  -- read before. `fuel` rounds are enough to read it.
  module _ (fuel : ℕ) where
    abbrev pub IsStored : AttrLeafName → Bytes → Type 0
    IsStored (local l) v = (l.namelen ≤ length l.nameval) × (v ≡ drop l.namelen l.nameval)
    IsStored (remote r) v =
        (ps : List Bytes) × (length ps < fuel)
        × IsRead r.valueblk r.valuelen ps
        × (v ≡ joined ps)
        × ((r.value ≡ []) ⊎ (r.value ≡ v))

    none_left : (ps : List Bytes) (blk left : ℕ) → IsRead blk left ps → left ≤ 0 → joined ps ≡ []
    none_left [] blk left h le = refl
    none_left (p ∷ ps) blk left (pos, e, h) le = absurd (omega arith)

    remote_value_lem :
        (r : AttrLeafNameRemote) (v : Bytes)
        → IsStored (remote r) v
        → remote_value bc sb device map_dblock fuel r ≡ ok v
    unfolding remote_value
    remote_value_lem r v (ps, lt, read, e, inl blank) =
        elim (Bool-cases (ltb (length r.value) r.valuelen)) [
          | inl t ↦ rw t (
              rmt_loop_lem ps fuel r.valueblk r.valuelen r.value lt read
              ∙ ap (λ b. ok (b ++ joined ps)) blank
              ∙ ap ok (sym e))
          | inr f ↦
              let nothing : r.valuelen ≤ 0 =
                omega (arith, ltb→le (length r.value) r.valuelen f, ap length blank) in
              rw f (ap ok (blank ∙ sym (none_left ps r.valueblk r.valuelen read nothing) ∙ sym e))
        ]
    remote_value_lem r v (ps, lt, read, e, inr kept) =
        let enough = IsRead-enough ps r.valueblk r.valuelen read in
        rw (le→ltb (length r.value) r.valuelen (omega (arith, enough, ap length kept, ap length e)))
          (ap ok kept)

    -- Reading a value, for the first time or again, returns it.
    pub value_lem :
        (n : AttrLeafName) (v : Bytes)
        → IsStored n v
        → (n' : AttrLeafName) × (value bc sb device map_dblock fuel n ≡ ok (v, n')) × IsStored n' v
    unfolding value remote_value
    value_lem (local l) v (le, e) = (
      local l,
      rw (le→leb l.namelen (length l.nameval) le) (ap (λ z. ok (z, local l)) (sym e)),
      (le, e),
    )
    value_lem (remote r) v (ps, lt, read, e, kept) = (
      remote (record r { value = v }),
      rw (remote_value_lem r v (ps, lt, read, e, kept)) refl,
      (ps, lt, read, e, inr refl),
    )
