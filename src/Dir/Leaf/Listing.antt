-- ===== src/Dir/Leaf/Listing.antt =====
-- `next` of src/libxfuse/dir3_lf.rs against the records of the data blocks.
use xfuse.Base.{
  ℕ, suc, ◌+◌, ◌-◌, ◌*◌, ◌%◌, ◌^◌, ◌≤◌, ◌<◌, ◌≡◌, sym, ap, ◌∙◌, subst, Option, none, some, List, [],
  ◌∷◌, ◌++◌, lt→ltb, lt→leb, le→leb, arith, length, true, false, Bool, ◌⊎◌, inl, inr, Outcome, ok,
  err, panic, map_ok, nat_eq-false, pos_pow, shl64,
}
use xfuse.Codec.{Bytes, Bincode, IsBigEndian}
use xfuse.Sb.{Sb, get_dir3_leaf_offset}
use xfuse.FileType.{enoent}
use xfuse.Bmbt.{seek_data, errno_enxio}
use xfuse.Dir.{Dir2DataEntry}
use xfuse.Dir.Sf.{Dirent}
use xfuse.Dir.Block.Records.{Rec, used, unused, IsRecords, IsRecords-used, used_inside}
use xfuse.Dir.Leaf.{Dfork, Blocks, dfork_lseek, dblksize}
use xfuse.Dir.Leaf.Cache.{Holds, IsBlocks}
use xfuse.Dir.Leaf.Rounds.{Answers}
use xfuse.Dir.Leaf.Next.{header_size, in_block, visit, next_loop, leaf_next}
use xfuse.Dir.Leaf.Visit.{size_small, visit_at}
use xfuse.Dir.Leaf.InBlock.{dirent_at, first_in, in_block_first, in_block_behind}

module _ {bc : Bincode} (law : IsBigEndian bc) (sb : Sb) (device : Bytes) (dfork : Dfork)
    (small : sb.sb_blocklog + sb.sb_dirblklog < 32) where
  -- The directory block `b` is a data block of these records: it can be read, it lies before the index,
  -- its records follow its header, and `lseek` tells that it is data.
  pub record IsData (b : ℕ) (rs : List Rec) : Type 0 where
    pub raw : Bytes
    pub first : ℕ
    pub holds : Holds bc sb device dfork (b * 2 ^ sb.sb_dirblklog) raw
    pub whole : length raw ≡ dblksize sb
    pub header : header_size bc sb raw ≡ ok first
    pub behind_header : 0 < first
    pub records : IsRecords sb raw first rs
    pub numbered : b * 2 ^ sb.sb_dirblklog < 2 ^ 32
    pub near : b * dblksize sb + dblksize sb < 2 ^ 63
    pub low : b * dblksize sb + dblksize sb ≤ shl64 (get_dir3_leaf_offset sb) sb.sb_blocklog
    pub sought :
        (x : ℕ)
        → x < dblksize sb
        → dfork_lseek sb dfork (b * dblksize sb + x) seek_data ≡ ok (b * dblksize sb + x)

  -- The first entry of the rest of block `b`, or else what comes behind the block.
  abbrev pub entry_or : ℕ → List Rec → Outcome ℕ Dirent → Outcome ℕ Dirent
  entry_or b [] behind = behind
  entry_or b (used e ∷ rs) behind = dirent_at (b * dblksize sb) e
  entry_or b (unused len ∷ rs) behind = entry_or b rs behind

  -- No entry is among the records.
  abbrev pub Empty : List Rec → Type 0
  Empty [] = Unit
  Empty (used e ∷ rs) = ⊥
  Empty (unused len ∷ rs) = Empty rs

  loop_found :
      (fuel from offset : ℕ) (flag : Bool) (blocks blocks1 : Blocks) (o : Outcome ℕ Dirent)
      → dfork_lseek sb dfork from seek_data ≡ ok offset
      → offset < shl64 (get_dir3_leaf_offset sb) sb.sb_blocklog
      → visit bc sb device dfork blocks flag offset ≡ map_ok (λ r. (r, blocks1)) (map_ok inl o)
      → IsBlocks bc sb device dfork blocks1
      → Answers bc sb device dfork o (next_loop bc sb device dfork (suc fuel) blocks flag from)
  unfolding next_loop
  loop_found fuel from offset flag blocks blocks1 (ok d) sought low e ok1 =
      (blocks1, rw (sought, lt→leb _ _ low, e, next_loop), ok1)
  loop_found fuel from offset flag blocks blocks1 (err c) sought low e ok1 =
      rw (sought, lt→leb _ _ low, e, next_loop)
  loop_found fuel from offset flag blocks blocks1 panic sought low e ok1 =
      rw (sought, lt→leb _ _ low, e, next_loop)

  loop_at :
      (rs : List Rec) (fuel from offset b ending : ℕ) (flag : Bool) (blocks blocks1 : Blocks)
      (behind : Outcome ℕ Dirent)
      → dfork_lseek sb dfork from seek_data ≡ ok offset
      → offset < shl64 (get_dir3_leaf_offset sb) sb.sb_blocklog
      → visit bc sb device dfork blocks flag offset
        ≡ map_ok (λ r. (r, blocks1)) (first_in (b * dblksize sb) ending rs)
      → IsBlocks bc sb device dfork blocks1
      → (Empty rs
          → Answers bc sb device dfork behind
              (next_loop bc sb device dfork fuel blocks1 true ending))
      → Answers bc sb device dfork
          (entry_or b rs behind)
          (next_loop bc sb device dfork (suc fuel) blocks flag from)
  unfolding next_loop
  loop_at [] fuel from offset b ending flag blocks blocks1 behind sought low e ok1 go =
      rw (sought, lt→leb _ _ low, e, next_loop) (go tt)
  loop_at (used x ∷ rs) fuel from offset b ending flag blocks blocks1 behind sought low e ok1 go =
      loop_found fuel from offset flag blocks blocks1 (dirent_at (b * dblksize sb) x) sought low e
        ok1
  loop_at (unused len ∷ rs) fuel from offset b ending flag blocks blocks1 behind sought low e ok1
        go =
      loop_at rs fuel from offset b ending flag blocks blocks1 behind sought low e ok1 go

  -- A whole block, from a cursor that `lseek` moves to its start.
  pub whole_block :
      (b from fuel : ℕ) (rs : List Rec) (blocks : Blocks) (behind : Outcome ℕ Dirent)
      → IsData b rs
      → ¬ (Empty rs)
      → dfork_lseek sb dfork from seek_data ≡ ok (b * dblksize sb)
      → IsBlocks bc sb device dfork blocks
      → Answers bc sb device dfork
          (entry_or b rs behind)
          (next_loop bc sb device dfork (suc fuel) blocks true from)
  whole_block b from fuel rs blocks behind d some_used sought ok_blocks =
      let z : b * dblksize sb + 0 ≡ b * dblksize sb = omega arith in
      let pos = pos_pow ((sb.sb_blocklog + sb.sb_dirblklog) % 256 % 64) in
      let (blocks1, e, ok1) =
        visit_at bc sb device dfork small b 0 d.first true d.raw blocks pos d.holds d.numbered
          d.header ok_blocks in
      let walk =
        in_block_first law sb d.raw (omega (arith, d.whole, size_small sb small)) (b * dblksize sb)
          rs (length d.raw) d.first d.first d.records (omega arith) (omega (arith, d.near))
          (omega arith) in
      let start : b * dblksize sb + (d.first - d.first) ≡ b * dblksize sb + 0 = omega arith in
      loop_at rs fuel from (b * dblksize sb) b (b * dblksize sb + (length d.raw - d.first)) true
        blocks blocks1 behind sought (omega (arith, d.low, pos))
        (subst
          (λ o.
            visit bc sb device dfork blocks true o
            ≡ map_ok (λ r. (r, blocks1))
                (first_in (b * dblksize sb) (b * dblksize sb + (length d.raw - d.first)) rs))
          z
          (e
            ∙ ap (map_ok (λ r. (r, blocks1))) (
                ap (λ o. in_block bc sb (length d.raw) d.raw (b * dblksize sb) true o d.first)
                  (sym start)
                ∙ walk)))
        ok1 (λ none_used. absurd (some_used none_used))

  -- What lies behind the data block `b`: another data block with an entry, or nothing before the index.
  abbrev pub IsBehind : ℕ → Option (ℕ × List Rec) → Type 0
  IsBehind b none =
      (dfork_lseek sb dfork (b * dblksize sb + dblksize sb) seek_data ≡ err errno_enxio)
      ⊎ ((o : ℕ) × (dfork_lseek sb dfork (b * dblksize sb + dblksize sb) seek_data ≡ ok o)
          × (shl64 (get_dir3_leaf_offset sb) sb.sb_blocklog ≤ o))
  IsBehind b (some (b', rs)) =
      IsData b' rs
      × ¬ (Empty rs)
      × (dfork_lseek sb dfork (b * dblksize sb + dblksize sb) seek_data ≡ ok (b' * dblksize sb))

  abbrev pub first_of : Option (ℕ × List Rec) → Outcome ℕ Dirent
  first_of none = err enoent
  first_of (some (b, rs)) = entry_or b rs (err enoent)

  behind_block :
      (b fuel : ℕ) (more : Option (ℕ × List Rec)) (blocks : Blocks)
      → IsBehind b more
      → IsBlocks bc sb device dfork blocks
      → Answers bc sb device dfork
          (first_of more)
          (next_loop bc sb device dfork (suc fuel) blocks true (b * dblksize sb + dblksize sb))
  unfolding next_loop
  behind_block b fuel none blocks (inl e) ok_blocks = rw (e, next_loop)
  behind_block b fuel none blocks (inr (o, e, le)) ok_blocks = rw (e, le→leb _ _ le, next_loop)
  behind_block b fuel (some (b', rs)) blocks (d, some_used, sought) ok_blocks =
      whole_block b' (b * dblksize sb + dblksize sb) fuel rs blocks (err enoent) d some_used sought
        ok_blocks

  from_entry :
      (b at fuel : ℕ) (rs back : List Rec) (e : Dir2DataEntry) (more : Option (ℕ × List Rec))
      (blocks : Blocks) (d : IsData b rs)
      → 0 < at
      → IsRecords sb d.raw at (used e ∷ back)
      → IsBehind b more
      → IsBlocks bc sb device dfork blocks
      → Answers bc sb device dfork
          (entry_or b back (first_of more))
          (leaf_next bc sb device dfork (suc (suc fuel)) blocks (b * dblksize sb + at))
  unfolding leaf_next
  from_entry b at fuel rs back e more blocks d pos (u, r) behind ok_blocks =
      let inside = used_inside sb d.raw at e u in
      let lt : at < dblksize sb = omega (arith, d.whole) in
      let (blocks1, v, ok1) =
        visit_at bc sb device dfork small b at at false d.raw blocks lt d.holds d.numbered
          (rw (lt→ltb 0 at pos)) ok_blocks in
      let walk =
        in_block_behind law sb d.raw (omega (arith, d.whole, size_small sb small)) (b * dblksize sb)
          back e (length d.raw) at (u, r) (omega arith) (omega (arith, d.near)) in
      let start : b * dblksize sb + (at - 0) ≡ b * dblksize sb + at = omega arith in
      let ending : b * dblksize sb + (length d.raw - 0) ≡ b * dblksize sb + dblksize sb =
        omega (arith, d.whole) in
      rw
        (
          lt→ltb (b * dblksize sb + at) (2 ^ 63) (omega (arith, d.near)),
          nat_eq-false (b * dblksize sb + at) 0 (λ z. absurd (omega arith)),
          leaf_next,
        )
        (loop_at back (suc fuel) (b * dblksize sb + at) (b * dblksize sb + at) b
          (b * dblksize sb + dblksize sb) false blocks blocks1 (first_of more) (d.sought at lt)
          (omega (arith, d.low))
          (v
            ∙ ap (map_ok (λ s. (s, blocks1))) (
                ap (λ o. in_block bc sb (length d.raw) d.raw (b * dblksize sb) false o at)
                  (sym start)
                ∙ walk
                ∙ ap (λ z. first_in (b * dblksize sb) z back) ending))
          ok1 (λ none_used. behind_block b fuel more blocks1 behind ok1))

  -- From the cursor of an entry of a data block, `next` returns the next entry of the block, past any
  -- unused space, with its place in the directory as the new cursor; at the end of the block it returns
  -- the first entry of the data block behind it, past any hole, and ENOENT when no block is left before
  -- the index. This is for data blocks whose records carry their offsets in the block as tags, whose
  -- offsets `lseek` tells to be data, and where the block behind has an entry. It ends in two rounds
  -- over blocks, and the cache holds what the device holds, as it did before.
  pub leaf_next-Answers :
      (b fuel : ℕ) (rs front back : List Rec) (e : Dir2DataEntry) (more : Option (ℕ × List Rec))
      (blocks : Blocks)
      → IsData b rs
      → rs ≡ front ++ (used e ∷ back)
      → IsBehind b more
      → IsBlocks bc sb device dfork blocks
      → Answers bc sb device dfork
          (entry_or b back (first_of more))
          (leaf_next bc sb device dfork (suc (suc fuel)) blocks (b * dblksize sb + e.tag))
  leaf_next-Answers b fuel rs front back e more blocks d split behind ok_blocks =
      let (at, le, r) =
        IsRecords-used sb d.raw front back e d.first
          (subst (IsRecords sb d.raw d.first) split d.records) in
      let pos : 0 < at = omega (arith, d.behind_header) in
      subst
        (λ z.
          Answers bc sb device dfork (entry_or b back (first_of more))
            (leaf_next bc sb device dfork (suc (suc fuel)) blocks (b * dblksize sb + z)))
        (sym r.0.tagged) (from_entry b at fuel rs back e more blocks d pos r behind ok_blocks)
