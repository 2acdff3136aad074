-- ===== src/Tests/Blocks.antt =====
-- src/libxfuse/dir3_block.rs: the block directory of Tests/Names.
use xfuse.Base.{ℕ, ◌≡◌, refl, Bool, false, List, [], ◌∷◌, ◌++◌, arith, ok, err, Outcome}
use xfuse.Codec.{slice_reader, slice_reader-IsBigEndian}
use xfuse.Sb.{fsb_to_offset, fsb_to_daddr, has_ftype}
use xfuse.FileType.{enoent, FileType, regular_file, get_file_type}
use xfuse.Dir.{Dir2DataEntry, get_data_entry}
use xfuse.Dir.Index.Names.{IsIndexOf}
use xfuse.Dir.Block.{Dir2Block, block_new, block_lookup, block_next}
use xfuse.Dir.Block.New.{block_at, block_new_lem}
use xfuse.Dir.Block.Lookup.{Points, block_lookup-by_name}
use xfuse.Dir.Block.Records.{Rec, used, unused, IsRecords}
use xfuse.Dir.Block.Next.{first_used, block_next_lem}
use xfuse.DaBtree.Hash.{hashname, hash_rounds, xor}
use xfuse.Volume.Readdir.{Listed, readdir_loop}
use xfuse.Volume.Listing.{listing, dirents, HasKinds, readdir_block}
use xfuse.Tests.Names.{small, device, entries, entry, at_e2, a_b, z_z, block_dir_block}

-- The block directory is block 5.
block_new_lem_example : block_new slice_reader small device 5 ≡ ok (block_at block_dir_block 16)
unfolding fsb_to_offset fsb_to_daddr
block_new_lem_example =
    block_new_lem slice_reader-IsBigEndian small device 5 (omega arith) (omega arith)

abbrev dir : Dir2Block
dir = block_at block_dir_block 16

dir_indexed : IsIndexOf (Points slice_reader small dir.raw) dir.ents entries
unfolding get_data_entry hashname hash_rounds xor has_ftype
dir_indexed = (
  record { inside = omega arith; read_back = refl; hashed = refl },
  (
    record { inside = omega arith; read_back = refl; hashed = refl },
    (record { inside = omega arith; read_back = refl; hashed = refl }, tt),
  ),
)

-- The second of two names that have one hash.
block_lookup-by_name_example : block_lookup slice_reader small dir a_b ≡ ok 132
block_lookup-by_name_example =
    block_lookup-by_name slice_reader small dir entries a_b
      ((omega arith, (omega arith, tt)), ((omega arith, tt), (tt, tt))) dir_indexed

abbrev rows : List Rec
rows =
    used (entry at_e2 131 16) ∷ used (entry a_b 132 32) ∷ used (entry z_z 133 48) ∷ unused 416 ∷ []

rows-IsRecords : IsRecords small dir.raw 16 rows
unfolding has_ftype
rows-IsRecords = (
  record {
    not_free = λ e. absurd (ground (arith, e));
    name_fits = omega arith;
    fits = omega arith;
    decoded = refl;
    tagged = refl;
  },
  (
    record {
      not_free = λ e. absurd (ground (arith, e));
      name_fits = omega arith;
      fits = omega arith;
      decoded = refl;
      tagged = refl;
    },
    (
      record {
        not_free = λ e. absurd (ground (arith, e));
        name_fits = omega arith;
        fits = omega arith;
        decoded = refl;
        tagged = refl;
      },
      (record { free = refl; size = refl; least = omega arith; fits = omega arith }, refl),
    ),
  ),
)

block_next_lem_example :
    (block_next slice_reader small dir 0 ≡ first_used rows)
    × ((front back : List Rec) (e : Dir2DataEntry)
        → rows ≡ front ++ (used e ∷ back)
        → block_next slice_reader small dir e.tag ≡ first_used back)
block_next_lem_example =
    block_next_lem slice_reader-IsBigEndian small dir rows rows-IsRecords (omega arith)
      (omega arith) (omega arith)

abbrev no_stat : ℕ → Outcome ℕ FileType
no_stat ino = err enoent

abbrev never_full : List Listed → Listed → Bool
never_full reply x = false

abbrev files : List (Dir2DataEntry × FileType)
files =
    (entry at_e2 131 16, regular_file)
    ∷ (entry a_b 132 32, regular_file)
    ∷ (entry z_z 133 48, regular_file)
    ∷ []

files_known : HasKinds rows files
unfolding get_file_type
files_known = (refl, refl, (refl, refl, (refl, refl, refl)))

readdir_block_example :
    readdir_loop 128 no_stat never_full (block_next slice_reader small dir) 4 0 []
    ≡ ok (listing 128 no_stat never_full (λ reply x. refl) (dirents files))
readdir_block_example =
    readdir_block 128 no_stat never_full (λ reply x. refl) slice_reader-IsBigEndian small dir rows
      files 4 rows-IsRecords (omega arith) (omega arith) (omega arith) files_known (omega arith)
