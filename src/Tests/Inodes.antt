-- ===== src/Tests/Inodes.antt =====
-- src/libxfuse/dinode_core.rs on inodes of 512 bytes, and src/libxfuse/utils.rs on a directory's mode.
use xfuse.Base.{◌+◌, ◌-◌, ◌*◌, ◌^◌, ◌≡◌, refl, inr, ◌∷◌, ◌++◌, arith, ok, panic, replicate, drop}
use xfuse.Codec.{Bytes, slice_reader, slice_reader-IsBigEndian}
use xfuse.Codec.Encode.{be_bytes}
use xfuse.FileType.{directory, of_mode, of_type, get_file_type}
use xfuse.FileType.Agreement.{get_file_type_agrees}
use xfuse.Inode.{
  DinodeCore, XfsTimestamp, extents, btree, dfork_btree_ptr_gap, timestamp, literal_area_offset,
}
use xfuse.Inode.Decode.{get_dinode_core}
use xfuse.Inode.Layout.{IsCore, core_at, tail_at, get_dinode_core_lem}
use xfuse.Inode.Fork.{IsInode, dfork_btree_ptr_gap_lem}
use xfuse.Inode.Time.{timestamp_lem}

abbrev raw : Bytes
raw =
    be_bytes 2 0x494e ++ (be_bytes 2 0o40755 ++ (3 ∷ 2 ∷ (replicate 77 0 ++ (2 ∷ replicate 92 0))))

raw-IsCore : IsCore raw extents extents
raw-IsCore = record {
  magic = refl;
  version = inr refl;
  format_known = refl;
  aformat_known = refl;
  long = omega arith;
}

get_dinode_core_lem_example :
    (get_dinode_core slice_reader raw
      ≡ ok (core_at raw extents extents (tail_at raw), drop 176 raw))
    × (literal_area_offset (core_at raw extents extents (tail_at raw)) ≡ ok 176)
get_dinode_core_lem_example =
    get_dinode_core_lem slice_reader-IsBigEndian raw extents extents raw-IsCore

-- An inode whose two forks are B+trees.
abbrev pub core : DinodeCore
core = record (core_at raw btree btree (tail_at raw)) { di_forkoff = 24 }

core-IsInode : IsInode core 512
core-IsInode = record {
  version = inr refl;
  rounded = refl;
  large = omega arith;
  small = omega arith;
  forkoff_fits = omega arith;
}

dfork_btree_ptr_gap_lem_example : dfork_btree_ptr_gap core 512 1 ≡ ok 80
dfork_btree_ptr_gap_lem_example =
    dfork_btree_ptr_gap_lem core 512 1 core-IsInode (omega arith) (omega arith)

-- One second before 1970.
abbrev before : XfsTimestamp
before = record { t_sec = 2 ^ 32 - 1; t_nsec = 0 }

timestamp_lem_example :
    (timestamp (record core { di_flags2 = 24 }) before ≡ ok ((2 ^ 32 - 1) * 2 ^ 32 + 0))
    × (timestamp (record core { di_flags2 = 16 }) before ≡ panic)
    × (timestamp (record core { di_version = 2 }) before ≡ panic)
timestamp_lem_example =
    timestamp_lem core 2 1 0 before (omega arith) (omega arith) (omega arith) (omega arith)
      (omega arith)

get_file_type_agrees_example :
    (get_file_type (of_mode 0o40755) ≡ ok directory) × (get_file_type (of_type 2) ≡ ok directory)
get_file_type_agrees_example = get_file_type_agrees directory 0o755 (omega arith)
