-- ===== src/Tests/Listings.antt =====
-- `next` of src/libxfuse/dir3_lf.rs on the data block of the directory of Tests/Names.
use xfuse.Base.{
  ℕ, ◌+◌, ◌<◌, ◌≡◌, refl, List, [], ◌∷◌, none, some, arith, ok, shr64, inr, ap, suc, ◌∙◌, leb,
  le→leb, lt→leb, lt→ltb, if◌then◌else◌,
}
use xfuse.Codec.{slice_reader, slice_reader-IsBigEndian}
use xfuse.Sb.{fsb_to_offset, fsb_to_daddr, has_ftype, get_dir3_leaf_offset}
use xfuse.FileType.{regular_file, get_file_type}
use xfuse.Bmbt.{map_dblock, lseek, lseek_at, seek_data}
use xfuse.Dir.Block.Records.{Rec, used, unused}
use xfuse.Dir.Leaf.{dfork_lseek, dfork_map_dblock, read_fsblock, load_dblock}
use xfuse.Dir.Leaf.Rounds.{Answers}
use xfuse.Dir.Leaf.Next.{header_size, leaf_next}
use xfuse.Dir.Leaf.Listing.{IsData, leaf_next-Answers}
use xfuse.Tests.Names.{small, device, fork, mapped, entry, at_e2, a_b, z_z, data_block}

abbrev rest_of : List Rec
rest_of = used (entry a_b 132 32) ∷ used (entry z_z 133 48) ∷ unused 448 ∷ []

in_first_block : (x : ℕ) → x < 512 → shr64 x 9 < 1
in_first_block x h = grind arith

sought_at : (x : ℕ) → x < 512 → dfork_lseek small fork (0 + x) seek_data ≡ ok (0 + x)
unfolding dfork_lseek lseek lseek_at
sought_at x h =
    let z : 0 + x ≡ x = omega arith in
    let here = in_first_block x h in
    rw z (
      ap
        (λ b.
          lseek_at mapped 9 x seek_data
            (if b then suc (if leb 67108864 (shr64 x 9) then 1 else 0) else 0))
        (le→leb 0 (shr64 x 9) (omega arith))
      ∙ ap (λ b. lseek_at mapped 9 x seek_data (suc (if b then 1 else 0)))
          (lt→leb 67108864 (shr64 x 9) (omega (arith, here)))
      ∙ ap (λ b. if b then ok x else ok 34359738368) (lt→ltb (shr64 x 9) 1 here))

sample-IsData :
    IsData slice_reader-IsBigEndian small device fork
      (omega arith)
      0
      (used (entry at_e2 131 16) ∷ rest_of)
unfolding load_dblock dfork_map_dblock read_fsblock fsb_to_offset fsb_to_daddr map_dblock
    header_size has_ftype get_dir3_leaf_offset
sample-IsData = record {
  raw = data_block;
  first = 16;
  holds = refl;
  whole = refl;
  header = refl;
  behind_header = omega arith;
  records = (
    record {
      not_free = λ e. absurd (ground (arith, e));
      name_fits = omega arith;
      fits = omega arith;
      decoded = refl;
      tagged = refl;
    },
    (
      record {
        not_free = λ e. absurd (ground (arith, e));
        name_fits = omega arith;
        fits = omega arith;
        decoded = refl;
        tagged = refl;
      },
      (
        record {
          not_free = λ e. absurd (ground (arith, e));
          name_fits = omega arith;
          fits = omega arith;
          decoded = refl;
          tagged = refl;
        },
        (record { free = refl; size = refl; least = omega arith; fits = omega arith }, refl),
      ),
    ),
  );
  numbered = omega arith;
  near = omega arith;
  low = omega arith;
  sought = λ x h. sought_at x h;
}

leaf_next-Answers_example :
    Answers slice_reader small device fork
      (ok (record { ino = 132; offset = 32; kind = some regular_file; name = a_b }))
      (leaf_next slice_reader small device fork 2 [] 16)
unfolding get_file_type lseek dfork_lseek get_dir3_leaf_offset
leaf_next-Answers_example =
    leaf_next-Answers slice_reader-IsBigEndian small device fork (omega arith) 0 0
      (used (entry at_e2 131 16) ∷ rest_of) [] rest_of (entry at_e2 131 16) none [] sample-IsData
      refl (inr (34359738368, refl, omega arith)) tt
