-- ===== src/Tests/Requests.antt =====
-- A volume on the device of Tests/Files, on which the file of Tests/Listed is open.
use xfuse.Base.{
  List, Bool-cases, ==_iff, ◌==◌, inl, inr, subst, ◌≡◌, refl, false, some, none, [], ◌∷◌, ◌++◌,
  arith, ok, replicate,
}
use xfuse.Codec.{slice_reader}
use xfuse.Sb.{fsb_to_offset}
use xfuse.Bmbt.{new}
use xfuse.BlockReader.{BlockReader, open_reader}
use xfuse.BlockReader.Seeks.{IsReader}
use xfuse.Inode.Forks.{bmx, dir2_sf}
use xfuse.Inode.Dinode.{Dinode}
use xfuse.Volume.{OpenInode, find}
use xfuse.Volume.Lookups.{Event, looked_up, owed, Counts}
use xfuse.Volume.Requests.Counting.{Keeps, volume_lookup-Due}
use xfuse.Inode.{FileAttr, stat, timestamp}
use xfuse.FileType.{regular_file, get_file_type}
use xfuse.Inode.Dinode.Open.{get_dir, open_dir}
use xfuse.Dir.Directory.{dir_lookup, sf}
use xfuse.Dir.Sf.{Dir2Sf, lookup, lookup_from}
use xfuse.Volume.Requests.{Volume, bytes, volume_read, volume_lookup, entry}
use xfuse.Volume.Requests.Reading.{volume_read-Returns}
use xfuse.Tests.Files.{small_sb, dev}
use xfuse.Tests.Inodes.{core}
use xfuse.Tests.Listed.{data_block, sparse-IsLaidOut}

abbrev sparse : OpenInode Dinode
sparse = record {
  dinode = record {
    di_core = record core { di_size = 600; di_ino = 131; di_mode = 0o100644 };
    di_u = bmx (data_block ∷ []);
    di_a = none;
    directory = none;
    attributes = none;
  };
  count = 1;
}

abbrev volume : Volume
volume = record {
  device = open_reader dev 512;
  open_files = (131, sparse) ∷ [];
  no_open = false;
  no_opendir = false;
}

-- Across the end of the block of data, up to the end of a file of 600 bytes.
volume_read-Returns_example :
    (r : BlockReader) × (volume_read slice_reader small_sb 0 89 volume 131 500 200
      ≡ ok (bytes (replicate 12 3 ++ replicate 88 0), record volume { device = r }))
    × IsReader dev 4 512 r
unfolding fsb_to_offset new
volume_read-Returns_example =
    volume_read-Returns small_sb volume 9 4
      (record { sectors = refl; small = omega arith; whole = refl }) 600 (data_block ∷ [])
      sparse-IsLaidOut slice_reader 0 89 131 500 200 sparse refl refl refl (omega arith)

-- The root directory has the file in it, which the kernel has looked up before.
abbrev root_entries : Dir2Sf
root_entries = record { offset = 96; name = b'a' ∷ []; ftype = none; inumber = 131 } ∷ []

abbrev root : OpenInode Dinode
root = record sparse { dinode = record (sparse.dinode) { di_u = dir2_sf root_entries } }

abbrev mounted : Volume
mounted = record volume { open_files = (1, root) ∷ (131, sparse) ∷ [] }

abbrev before : List Event
before = looked_up 131 ∷ []

mounted-Keeps : Keeps mounted.open_files before
mounted-Keeps k ne = elim (Bool-cases (131 == k)) [
  | inl e ↦
      subst (λ z. Counts (find mounted.open_files z) (owed before z)) ((==_iff 131 k).0 e)
        (refl, omega arith)
  | inr d ↦ rw (d, not_root) refl
]
  where
    not_root : (1 == k) ≡ false
    not_root = ground (arith, ne)

abbrev sparse_attr : FileAttr
sparse_attr = record {
  ino = 131;
  size = 600;
  blocks = 0;
  atime = 2147483648000000000;
  mtime = 2147483648000000000;
  ctime = 2147483648000000000;
  crtime = 2147483648000000000;
  kind = regular_file;
  perm = 0o644;
  nlink = 0;
  uid = 0;
  gid = 0;
}

volume_lookup-Due_example :
    (v' : Volume) × (volume_lookup slice_reader small_sb 0 89 mounted 1 (b'a' ∷ [])
      ≡ ok (entry sparse_attr 0, v'))
    × Keeps v'.open_files (looked_up 131 ∷ before)
unfolding get_dir open_dir dir_lookup lookup lookup_from stat timestamp get_file_type
volume_lookup-Due_example =
    volume_lookup-Due slice_reader small_sb 0 89 before (omega arith) mounted 1 (b'a' ∷ []) root
      (sf root_entries) (record (root.dinode) { directory = some (sf root_entries) })
      (entry sparse_attr 0) (looked_up 131 ∷ before) mounted-Keeps refl refl
      (sparse.dinode.di_core, refl, refl, refl)
