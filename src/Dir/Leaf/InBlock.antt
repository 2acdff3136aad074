-- ===== src/Dir/Leaf/InBlock.antt =====
-- The inner loop of `next` of src/libxfuse/dir3_lf.rs against the records of one data block.
use xfuse.Base.{
  ℕ, zero, suc, ◌+◌, ◌-◌, ◌^◌, ◌≤◌, ◌<◌, ◌≡◌, refl, ap, ◌∙◌, List, [], ◌∷◌, Bool, lt→ltb, le→ltb,
  ◌==◌, ==_iff, arith, length, length-drop, drop, true, false, ◌⊎◌, inl, inr, Outcome, ok, err,
  panic, map_ok, nat_eq-false, add64, add64_small, ◌>>=◌,
}
use xfuse.Codec.{Bytes, Bincode, IsBigEndian, be_at}
use xfuse.Sb.{Sb}
use xfuse.Dir.{Dir2DataEntry}
use xfuse.Dir.Entry.{record_size}
use xfuse.Dir.Sf.{Dirent, kind_of}
use xfuse.Dir.Block.Records.{
  Rec, used, unused, IsRecords, record_size_pos, unused_at, used_at, tag_at, used_inside,
  unused_inside,
}
use xfuse.Dir.Leaf.Next.{in_block}

-- What `next` tells of an entry of the block at byte `doffset` of the directory.
abbrev pub dirent_at : ℕ → Dir2DataEntry → Outcome ℕ Dirent
dirent_at doffset e =
    map_ok
      (λ kind. record { ino = e.inumber; offset = add64 doffset e.tag; kind = kind; name = e.name })
      (kind_of e.ftype)

-- The first entry of the rest of a block, or where the block ends.
abbrev pub first_in : ℕ → ℕ → List Rec → Outcome ℕ (Dirent ⊎ (ℕ × Bool))
first_in doffset ending [] = ok (inr (ending, true))
first_in doffset ending (used e ∷ rs) = map_ok inl (dirent_at doffset e)
first_in doffset ending (unused len ∷ rs) = first_in doffset ending rs

found_bind :
    (doffset : ℕ) (e : Dir2DataEntry)
    → (kind_of e.ftype >>= λ kind. ok (
        inl (record { ino = e.inumber; offset = add64 doffset e.tag; kind = kind; name = e.name })))
      ≡ map_ok {B = Dirent ⊎ (ℕ × Bool)} inl (dirent_at doffset e)
found_bind doffset e =
    elim (kind_of e.ftype)
      as (λ o.
        (o >>= λ kind. ok (
          inl
            (record { ino = e.inumber; offset = add64 doffset e.tag; kind = kind; name = e.name })))
        ≡ map_ok {B = Dirent ⊎ (ℕ × Bool)} inl (
            map_ok
              (λ kind. record {
                ino = e.inumber;
                offset = add64 doffset e.tag;
                kind = kind;
                name = e.name;
              })
              o)) [ ok k ↦ refl | err c ↦ refl | panic ↦ refl ]

module _ {bc : Bincode} (law : IsBigEndian bc) (sb : Sb) (raw : Bytes) (small : length raw < 2 ^ 32)
    (doffset : ℕ) where
  -- Behind the header, the directory's offset may lag behind the place in the block; both stay as far
  -- apart as they are.
  pub in_block_first :
      (rs : List Rec) (fuel off lag : ℕ)
      → IsRecords sb raw off rs
      → length raw ≤ off + fuel
      → doffset < 2 ^ 63
      → lag ≤ off
      → in_block bc sb fuel raw doffset true (doffset + (off - lag)) off
        ≡ first_in doffset (doffset + (length raw - lag)) rs
  unfolding in_block
  in_block_first [] zero off lag h le far back =
      rw (le→ltb off (length raw) (omega (arith, h)), in_block)
        (ap (λ z. ok (inr (doffset + (z - lag), true))) h)
  in_block_first [] (suc fuel) off lag h le far back =
      rw (le→ltb off (length raw) (omega (arith, h)), in_block)
        (ap (λ z. ok (inr (doffset + (z - lag), true))) h)
  in_block_first (used e ∷ rs) zero off lag (u, h) le far back =
      absurd (omega (arith, used_inside sb raw off e u))
  in_block_first (unused len ∷ rs) zero off lag (u, h) le far back =
      absurd (omega (arith, unused_inside sb raw off len u, u.least))
  in_block_first (used e ∷ rs) (suc fuel) off lag (u, h) le far back =
      let inside = used_inside sb raw off e u in
      let size = length-drop off raw in
      rw
        (
          lt→ltb off (length raw) (omega arith),
          tag_at sb raw law off (omega arith),
          nat_eq-false _ _ u.not_free,
          (used_at sb raw law off e u).0,
          ◌>>=◌,
        )
        (found_bind doffset e)
  in_block_first (unused len ∷ rs) (suc fuel) off lag (u, h) le far back =
      let inside = unused_inside sb raw off len u in
      let size = length-drop off raw in
      let six = u.least in
      let free : (be_at (drop off raw) 0 2 == 0xffff) ≡ true = (==_iff _ _).1 u.free in
      let moved : add64 (doffset + (off - lag)) len ≡ doffset + (off + len - lag) =
        add64_small (doffset + (off - lag)) len (omega arith) ∙ omega arith in
      rw
        (
          lt→ltb off (length raw) (omega arith),
          tag_at sb raw law off (omega arith),
          free,
          unused_at sb raw law off len u,
          moved,
          add64_small off len (omega arith),
          ◌>>=◌,
        )
        (in_block_first rs fuel (off + len) lag h (omega arith) far (omega arith))

  pub in_block_behind :
      (rs : List Rec) (e : Dir2DataEntry) (fuel off : ℕ)
      → IsRecords sb raw off (used e ∷ rs)
      → length raw ≤ off + fuel
      → doffset < 2 ^ 63
      → in_block bc sb fuel raw doffset false (doffset + (off - 0)) off
        ≡ first_in doffset (doffset + (length raw - 0)) rs
  unfolding in_block
  in_block_behind rs e zero off (u, h) le far = absurd (omega (arith, used_inside sb raw off e u))
  in_block_behind rs e (suc fuel) off (u, h) le far =
      let inside = used_inside sb raw off e u in
      let size = length-drop off raw in
      let n = record_size sb (be_at (drop off raw) 8 1) in
      let pos = record_size_pos sb raw (be_at (drop off raw) 8 1) in
      let moved : add64 (doffset + (off - 0)) n ≡ doffset + (off + n - 0) =
        add64_small (doffset + (off - 0)) n (omega (arith, u.fits)) ∙ omega arith in
      rw
        (
          lt→ltb off (length raw) (omega arith),
          tag_at sb raw law off (omega arith),
          nat_eq-false _ _ u.not_free,
          (used_at sb raw law off e u).1,
          moved,
          add64_small off n (omega (arith, u.fits)),
          ◌>>=◌,
        )
        (in_block_first rs fuel (off + n) 0 h (omega arith) far (omega arith))
