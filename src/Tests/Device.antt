-- ===== src/Tests/Device.antt =====
-- src/libxfuse/block_reader.rs on a device of 12 bytes, read 4 at a time.
use xfuse.Base.{◌-◌, ◌≡◌, refl, [], ◌∷◌, arith, ok, u64_mod}
use xfuse.Codec.{Bytes}
use xfuse.BlockReader.{BlockReader, open_reader, start, current, seek, read_exact}
use xfuse.BlockReader.Position.{At}
use xfuse.BlockReader.Reads.{read_exact_lem}
use xfuse.BlockReader.Seeks.{IsReader, seek_start_lem, seek_current_lem}

abbrev dev : Bytes
dev = 10 ∷ 11 ∷ 12 ∷ 13 ∷ 14 ∷ 15 ∷ 16 ∷ 17 ∷ 18 ∷ 19 ∷ 20 ∷ 21 ∷ []

opened-IsReader : IsReader dev 3 4 (open_reader dev 4)
opened-IsReader = record { device = refl; whole = refl; positive = omega arith; sized = refl }

-- The reader in the middle of the second block.
abbrev middle : BlockReader
middle = record {
  file = dev;
  position = 8;
  block = 14 ∷ 15 ∷ 16 ∷ 17 ∷ [];
  idx = 2;
  sectorsize = 4;
}

middle-At : At dev 3 4 middle 6
middle-At = (
  1,
  record {
    device = refl;
    whole = refl;
    positive = omega arith;
    sized = refl;
    inside = omega arith;
    ahead = refl;
    content = refl;
    cursor = refl;
    within = omega arith;
  },
)

seek_start_lem_example :
    (s' : BlockReader) × (seek (open_reader dev 4) (start 6) ≡ ok (6, s')) × At dev 3 4 s' 6
seek_start_lem_example = seek_start_lem dev 3 4 6 (open_reader dev 4) opened-IsReader (omega arith)

-- Three bytes back, into the first block.
seek_current_lem_example :
    (s' : BlockReader) × (seek middle (current (u64_mod - 3)) ≡ ok (3, s')) × At dev 3 4 s' 3
seek_current_lem_example =
    seek_current_lem dev 3 4 6 (u64_mod - 3) middle middle-At (omega arith) (omega arith)
      (omega arith)

read_exact_lem_example :
    (s' : BlockReader) × (read_exact middle 5 ≡ ok (16 ∷ 17 ∷ 18 ∷ 19 ∷ 20 ∷ [], s'))
    × At dev 3 4 s' 11
read_exact_lem_example = read_exact_lem dev 3 4 6 5 middle middle-At (omega arith)
