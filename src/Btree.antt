-- ===== src/Btree.antt =====
-- `BtreeRoot::lseek` of src/libxfuse/btree.rs, over the results of `map_block`.
pub mod Seek
pub mod SeekData
pub mod Header
pub mod Node
pub mod Map
pub mod Cover
pub mod Search
use xfuse.Base.{
  ℕ, zero, suc, ◌+◌, ◌^◌, Option, none, some, ◌==◌, if◌then◌else◌, add64, shl64, shr64, Outcome, ok,
  err, panic, ◌>>=◌,
}
use xfuse.Bmbt.{seek_hole, errno_enxio}

-- The rounds of the scan: extents begin below block 2^54 and have less than 2^21 blocks.
abbrev pub rounds : ℕ
rounds = 2 ^ 55

module _ (map_block : ℕ → Outcome ℕ (Option ℕ × Option ℕ)) (blocklog : ℕ) where
  -- The loop that scans for the next hole, for `fuel` rounds; out of fuel is a panic.
  unfoldable pub scan_hole : ℕ → ℕ → Outcome ℕ ℕ
  scan_hole zero dblock = panic
  scan_hole (suc fuel) dblock = do
    (start, length) ← map_block dblock
    elim start [
      | none ↦ ok (shl64 dblock blocklog)
      | some fsblock ↦ elim length [ none ↦ panic | some len ↦ scan_hole fuel (add64 dblock len) ]
    ]

  -- The match of `lseek`, on what `map_block` says of the block of the offset.
  unfoldable pub tree_lseek_at : ℕ → ℕ → ℕ → ℕ → Option ℕ × Option ℕ → Outcome ℕ ℕ
  unfolding scan_hole
  tree_lseek_at fuel offset whence dblock (none, some len) =
      if whence == seek_hole then ok offset else ok (add64 offset (shl64 len blocklog))
  tree_lseek_at fuel offset whence dblock (some fsblock, none) = panic
  tree_lseek_at fuel offset whence dblock (some fsblock, some len) =
      if whence == seek_hole then scan_hole fuel (add64 dblock len) else ok offset
  tree_lseek_at fuel offset whence dblock (none, none) =
      if whence == seek_hole then ok offset else err errno_enxio

  unfoldable pub tree_lseek : ℕ → ℕ → Outcome ℕ ℕ
  unfolding tree_lseek_at
  tree_lseek offset whence = do
    found ← map_block (shr64 offset blocklog)
    tree_lseek_at rounds offset whence (shr64 offset blocklog) found
