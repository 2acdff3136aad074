-- ===== src/Tests/Tree.antt =====
-- `BtreeRoot::lseek` of src/libxfuse/btree.rs on the sparse file of Tests/Extents.
use xfuse.Base.{
  ℕ, ◌+◌, ◌*◌, ◌%◌, ◌^◌, ◌≡◌, ◌≢◌, ◌≤◌, ◌<◌, refl, sym, ◌∙◌, Option, none, some, arith, ok, err,
  u64_mod,
}
use xfuse.Bmbt.{get_extent, seek_hole, seek_data, errno_enxio}
use xfuse.Bmbt.Extents.{mapped}
use xfuse.Bmbt.Lookup.{Describes, get_extent-Describes}
use xfuse.Bmbt.SeekBlocks.{IsHole}
use xfuse.Bmbt.Seek.{FindsFirst}
use xfuse.Btree.{tree_lseek}
use xfuse.Btree.Seek.{Tells, IsMap, tree_lseek-IsHole}
use xfuse.Btree.SeekData.{tree_lseek_data}
use xfuse.Tests.Extents.{sparse, sparse-IsBmx}

Describes-Tells :
    (d : ℕ) (a : Option ℕ × Option ℕ) → Describes sparse d a → Tells (mapped sparse) d a
Describes-Tells d (some b, some n) (pos, run) = (pos, λ k lt e. never (sym (run k lt) ∙ e))
  where
    never : {x : ℕ} → some x ≢ none
    never e = cc
Describes-Tells d (some b, none) h = h
Describes-Tells d (none, some n) h = h
Describes-Tells d (none, none) h = h

sparse-IsMap : IsMap (get_extent sparse) (mapped sparse) 12 9
sparse-IsMap = record {
  answers = λ d.
      let (a, e, h) = get_extent-Describes sparse d sparse-IsBmx in (a, e, Describes-Tells d a h);
  small_log = omega arith;
  ends = refl;
  end_fits = omega arith;
  end_low = omega arith;
}

tree_lseek-IsHole_example :
    FindsFirst (mapped sparse) IsHole 12 9000 (tree_lseek (get_extent sparse) 12 9000 seek_hole)
tree_lseek-IsHole_example =
    tree_lseek-IsHole (get_extent sparse) (mapped sparse) 12 9 sparse-IsMap 9000 (omega arith)

-- From byte 100 of the hole in front the seek lands on byte 100 of block 2.
tree_lseek_data_example :
    (mapped sparse 0 ≢ none → tree_lseek (get_extent sparse) 12 100 seek_data ≡ ok 100)
    × ((b : ℕ)
        → 0 < b
        → mapped sparse b ≢ none
        → ((x : ℕ) → 0 ≤ x → x < b → mapped sparse x ≡ none)
        → b * 2 ^ 12 + 100 % 2 ^ 12 < u64_mod
        → tree_lseek (get_extent sparse) 12 100 seek_data ≡ ok (b * 2 ^ 12 + 100 % 2 ^ 12))
    × (((x : ℕ) → 0 ≤ x → mapped sparse x ≡ none)
        → tree_lseek (get_extent sparse) 12 100 seek_data ≡ err errno_enxio)
tree_lseek_data_example = tree_lseek_data (get_extent sparse) (mapped sparse) 12 9 sparse-IsMap 100

tree_lseek_run : tree_lseek (get_extent sparse) 12 100 seek_data ≡ ok (2 * 4096 + 100)
unfolding tree_lseek get_extent
tree_lseek_run = refl
