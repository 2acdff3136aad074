-- ===== src/Tests/Extents.antt =====
-- src/libxfuse/bmbt_rec.rs on a sparse file: blocks 2 to 4 and 5 to 8 are written, 9 and 10 are not.
use xfuse.Base.{
  ◌*◌, ◌/◌, ◌^◌, ◌≡◌, ◌≢◌, ◌≤◌, ◌<◌, ℕ, refl, true, false, some, none, [], ◌∷◌, arith, ok, panic,
}
use xfuse.Bmbt.{Bmx, BmbtRec, get_extent, lseek, map_dblock, of_u128, seek_data, seek_hole}
use xfuse.Bmbt.Decode.{to_u128, of_u128-to_u128}
use xfuse.Bmbt.Extents.{IsRecord, IsOrdered, IsBmx, mapped}
use xfuse.Bmbt.Lookup.{Answers, get_extent-Describes, map_dblock_lem}
use xfuse.Bmbt.Runs.{FitsBytes}
use xfuse.Bmbt.SeekBlocks.{IsData}
use xfuse.Bmbt.Seek.{FindsFirst, lseek-IsData, lseek_hole}

abbrev first : BmbtRec
first = record { br_startoff = 2; br_startblock = 100; br_blockcount = 3; br_flag = false }

abbrev second : BmbtRec
second = record { br_startoff = 5; br_startblock = 200; br_blockcount = 4; br_flag = false }

abbrev unwritten : BmbtRec
unwritten = record { br_startoff = 9; br_startblock = 300; br_blockcount = 2; br_flag = true }

abbrev on_disk : Bmx
on_disk = first ∷ second ∷ unwritten ∷ []

abbrev pub sparse : Bmx
sparse = first ∷ second ∷ []

first-IsRecord : IsRecord first
first-IsRecord = record {
  off_fits = omega arith;
  block_fits = omega arith;
  count_fits = omega arith;
  nonempty = omega arith;
}

second-IsRecord : IsRecord second
second-IsRecord = record {
  off_fits = omega arith;
  block_fits = omega arith;
  count_fits = omega arith;
  nonempty = omega arith;
}

unwritten-IsRecord : IsRecord unwritten
unwritten-IsRecord = record {
  off_fits = omega arith;
  block_fits = omega arith;
  count_fits = omega arith;
  nonempty = omega arith;
}

on_disk-IsOrdered : IsOrdered on_disk
on_disk-IsOrdered =
    (first-IsRecord, omega arith, (second-IsRecord, omega arith, (unwritten-IsRecord, tt, tt)))

sparse-IsOrdered : IsOrdered sparse
sparse-IsOrdered = (first-IsRecord, omega arith, (second-IsRecord, tt, tt))

pub sparse-IsBmx : IsBmx sparse
sparse-IsBmx = (sparse-IsOrdered, (refl, (refl, tt)))

sparse-FitsBytes : FitsBytes 12 sparse
sparse-FitsBytes = (omega arith, (omega arith, tt))

get_extent-Describes_example : Answers sparse 6 (get_extent sparse 6)
get_extent-Describes_example = get_extent-Describes sparse 6 sparse-IsBmx

get_extent_run : get_extent sparse 6 ≡ ok (some 201, some 3)
unfolding get_extent
get_extent_run = refl

map_dblock_lem_example :
    (2 ≤ 6 → map_dblock sparse 6 ≡ ok (mapped sparse 6))
    × (6 < 2 → (map_dblock sparse 6 ≡ panic) × (mapped sparse 6 ≡ none))
map_dblock_lem_example = map_dblock_lem first (second ∷ []) 6 sparse-IsOrdered

lseek-IsData_example : FindsFirst (mapped sparse) IsData 12 4097 (lseek sparse 12 4097 seek_data)
lseek-IsData_example = lseek-IsData sparse 12 4097 (omega arith) sparse-IsOrdered sparse-FitsBytes

lseek_hole_example :
    (b : ℕ) × (lseek sparse 12 9000 seek_hole ≡ ok b)
    × (9000 ≤ b)
    × (mapped sparse (b / 2 ^ 12) ≡ none)
    × ((x : ℕ) → 9000 ≤ x → x < b → mapped sparse (x / 2 ^ 12) ≢ none)
lseek_hole_example = lseek_hole sparse 12 9000 (omega arith) sparse-IsOrdered sparse-FitsBytes

lseek_run : lseek sparse 12 9000 seek_hole ≡ ok (9 * 4096)
unfolding lseek
lseek_run = refl

of_u128-to_u128_example : of_u128 (to_u128 unwritten) ≡ unwritten
of_u128-to_u128_example = of_u128-to_u128 unwritten (omega arith) (omega arith) (omega arith)
