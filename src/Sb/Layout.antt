-- ===== src/Sb/Layout.antt =====
-- Where the superblock fields of src/libxfuse/sb.rs stand on disk.
use xfuse.Base.{◌≤◌, ◌≡◌, arith, length, drop, ok}
use xfuse.Codec.{Bytes, Bincode, IsBigEndian, be_at, uint_at, read_at, ◌>>=◌}
use xfuse.Sb.Read.{
  Geometry, Counts, Features, Fields, get_geometry, get_counts, get_features, get_fields,
}

abbrev pub geometry_layout : Bytes → Geometry
geometry_layout disk = record {
  sb_magicnum = be_at disk 0 4;
  sb_blocksize = be_at disk 4 4;
  sb_dblocks = be_at disk 8 8;
  sb_uuid = be_at disk 32 16;
  sb_rootino = be_at disk 56 8;
  sb_agblocks = be_at disk 84 4;
  sb_agcount = be_at disk 88 4;
  sb_logblocks = be_at disk 96 4;
  sb_versionnum = be_at disk 100 2;
  sb_sectsize = be_at disk 102 2;
  sb_inodesize = be_at disk 104 2;
}

abbrev pub counts_layout : Bytes → Counts
counts_layout disk = record {
  sb_blocklog = be_at disk 120 1;
  sb_inodelog = be_at disk 122 1;
  sb_inopblog = be_at disk 123 1;
  sb_agblklog = be_at disk 124 1;
  sb_icount = be_at disk 128 8;
  sb_ifree = be_at disk 136 8;
  sb_fdblocks = be_at disk 144 8;
}

abbrev pub features_layout : Bytes → Features
features_layout disk = record {
  sb_dirblklog = be_at disk 192 1;
  sb_features2 = be_at disk 200 4;
  sb_features_incompat = be_at disk 216 4;
  sb_features_log_incompat = be_at disk 220 4;
}

abbrev pub layout : Bytes → Fields
layout disk = record {
  geometry = geometry_layout disk;
  counts = counts_layout disk;
  features = features_layout disk;
}

module _ {bc : Bincode} (law : IsBigEndian bc) (disk : Bytes) (long : 224 ≤ length disk) where
  get_geometry_layout : get_geometry bc disk ≡ ok (geometry_layout disk, drop 120 disk)
  unfolding get_geometry
  get_geometry_layout = rw (
    uint_at law disk 0 4 (omega arith),
    uint_at law disk 4 4 (omega arith),
    uint_at law disk 8 8 (omega arith),
    uint_at law disk 16 8 (omega arith),
    uint_at law disk 24 8 (omega arith),
    uint_at law disk 32 16 (omega arith),
    uint_at law disk 48 8 (omega arith),
    uint_at law disk 56 8 (omega arith),
    uint_at law disk 64 8 (omega arith),
    uint_at law disk 72 8 (omega arith),
    uint_at law disk 80 4 (omega arith),
    uint_at law disk 84 4 (omega arith),
    uint_at law disk 88 4 (omega arith),
    uint_at law disk 92 4 (omega arith),
    uint_at law disk 96 4 (omega arith),
    uint_at law disk 100 2 (omega arith),
    uint_at law disk 102 2 (omega arith),
    uint_at law disk 104 2 (omega arith),
    uint_at law disk 106 2 (omega arith),
    read_at law disk 108 12 (omega arith),
    ◌>>=◌,
  )

  get_counts_layout : get_counts bc (drop 120 disk) ≡ ok (counts_layout disk, drop 179 disk)
  unfolding get_counts
  get_counts_layout = rw (
    uint_at law disk 120 1 (omega arith),
    uint_at law disk 121 1 (omega arith),
    uint_at law disk 122 1 (omega arith),
    uint_at law disk 123 1 (omega arith),
    uint_at law disk 124 1 (omega arith),
    uint_at law disk 125 1 (omega arith),
    uint_at law disk 126 1 (omega arith),
    uint_at law disk 127 1 (omega arith),
    uint_at law disk 128 8 (omega arith),
    uint_at law disk 136 8 (omega arith),
    uint_at law disk 144 8 (omega arith),
    uint_at law disk 152 8 (omega arith),
    uint_at law disk 160 8 (omega arith),
    uint_at law disk 168 8 (omega arith),
    uint_at law disk 176 2 (omega arith),
    uint_at law disk 178 1 (omega arith),
    ◌>>=◌,
  )

  get_features_layout : get_features bc (drop 179 disk) ≡ ok (features_layout disk, drop 224 disk)
  unfolding get_features
  get_features_layout = rw (
    uint_at law disk 179 1 (omega arith),
    uint_at law disk 180 4 (omega arith),
    uint_at law disk 184 4 (omega arith),
    uint_at law disk 188 4 (omega arith),
    uint_at law disk 192 1 (omega arith),
    uint_at law disk 193 1 (omega arith),
    uint_at law disk 194 2 (omega arith),
    uint_at law disk 196 4 (omega arith),
    uint_at law disk 200 4 (omega arith),
    uint_at law disk 204 4 (omega arith),
    uint_at law disk 208 4 (omega arith),
    uint_at law disk 212 4 (omega arith),
    uint_at law disk 216 4 (omega arith),
    uint_at law disk 220 4 (omega arith),
    ◌>>=◌,
  )

  -- On a device of 224 bytes or more the reader takes every field from its place in the on-disk
  -- superblock.
  pub get_fields-layout : get_fields bc disk ≡ ok (layout disk, drop 224 disk)
  unfolding get_fields
  get_fields-layout = rw (get_geometry_layout, get_counts_layout, get_features_layout, ◌>>=◌)
