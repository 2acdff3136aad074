-- ===== src/Tests/Files.antt =====
-- src/libxfuse/file.rs on a file of one block of data and one block of hole.
use xfuse.Base.{
  length, ◌≤◌, ℕ, zero, suc, ◌+◌, ◌*◌, ◌≡◌, ◌<◌, refl, Option, none, some, ◌++◌, arith, Outcome, ok,
  replicate, drop,
}
use xfuse.Codec.{Bytes}
use xfuse.Sb.{Sb, fsb_to_offset}
use xfuse.BlockReader.{BlockReader, open_reader}
use xfuse.BlockReader.Seeks.{IsReader}
use xfuse.File.{read}
use xfuse.File.Read.{read_file}
use xfuse.File.Sectors.{IsFile, Covers}
use xfuse.Tests.Superblock as S

abbrev pub small_sb : Sb
small_sb = record S.sb {
  sb_blocksize = 512;
  sb_blocklog = 9;
  sb_agblocks = 4;
  sb_agcount = 1;
  sb_agblklog = 2;
}

abbrev pub dev : Bytes
dev = replicate 512 1 ++ (replicate 512 2 ++ (replicate 512 3 ++ replicate 512 4))

abbrev mapping : ℕ → Option ℕ
mapping zero = some 2
mapping (suc d) = none

abbrev extent : ℕ → Outcome ℕ (Option ℕ × ℕ)
extent zero = ok (some 2, 1)
extent (suc d) = ok (none, 1)

covers :
    (d : ℕ)
    → d < 2
    → (a : Option ℕ × ℕ) × (extent d ≡ ok a) × Covers small_sb extent dev mapping d a
unfolding fsb_to_offset
covers zero lt = ((some 2, 1), refl, (omega arith, omega arith, row, omega arith))
  where
    row :
        (i : ℕ)
        → i < 1
        → (f : ℕ) × (mapping (0 + i) ≡ some f) × (fsb_to_offset small_sb f ≡ 1024 + i * 512)
    row zero h = (2, refl, refl)
    row (suc i) h = absurd (omega arith)
covers (suc zero) lt = ((none, 1), refl, (omega arith, omega arith, hole))
  where
    hole : (i : ℕ) → i < 1 → mapping (1 + i) ≡ none
    hole zero h = refl
    hole (suc i) h = absurd (omega arith)
covers (suc (suc d)) lt = absurd (omega arith)

sparse-IsFile : IsFile small_sb extent dev mapping 2
sparse-IsFile = record { answers = covers; small_log = omega arith }

pub opened-IsReader : IsReader dev 4 512 (open_reader dev 512)
opened-IsReader = record { device = refl; whole = refl; positive = omega arith; sized = refl }

-- Across the end of the block of data, up to the end of a file of 600 bytes.
read_file_example :
    (v : Bytes) × (ignore : ℕ) × (r' : BlockReader) × (read small_sb extent 600
        (open_reader dev 512)
        500
        200
      ≡ ok ((v, ignore), r'))
    × (drop ignore v ≡ replicate 12 3 ++ replicate 88 0)
    × (ignore ≤ length v)
    × IsReader dev 4 512 r'
unfolding fsb_to_offset
read_file_example =
    read_file small_sb extent dev mapping 2 sparse-IsFile 4 512 600 500 200 (open_reader dev 512)
      opened-IsReader refl (omega arith) (omega arith) (omega arith)
