-- ===== src/Tests/Superblock.antt =====
-- src/libxfuse/sb.rs on a superblock of version 5 with a CRC of 0.
use xfuse.Base.{ℕ, ◌+◌, ◌^◌, ◌≡◌, ◌≤◌, ◌++◌, arith, ok, replicate}
use xfuse.Codec.{Bytes, slice_reader, slice_reader-IsBigEndian}
use xfuse.Codec.Encode.{be_bytes}
use xfuse.Sb.{Sb, fsb_to_offset}
use xfuse.Sb.Layout.{layout}
use xfuse.Sb.Mount.{from, from_lem, of_fields}
use xfuse.Sb.Address.{IsGeometry, IsBlock, fsb_to_offset_disjoint}

abbrev disk : Bytes
disk =
    be_bytes 4 0x58465342
    ++ (replicate 96 0
        ++ (be_bytes 2 0xb4a5
            ++ (be_bytes 2 256 ++ (replicate 96 0 ++ (be_bytes 4 0x108 ++ replicate 52 0)))))

abbrev zero_crc : Bytes → ℕ
zero_crc bytes = 0

from_lem_example : from slice_reader zero_crc disk ≡ ok (of_fields (layout disk))
from_lem_example = from_lem slice_reader-IsBigEndian zero_crc disk (omega arith) (omega arith)

abbrev pub sb : Sb
sb = record {
  sb_blocksize = 4096;
  sb_dblocks = 4000;
  sb_uuid = 1;
  sb_rootino = 128;
  sb_agblocks = 1000;
  sb_agcount = 4;
  sb_logblocks = 0;
  sb_versionnum = 0xb4a5;
  sb_inodesize = 512;
  sb_blocklog = 12;
  sb_inodelog = 9;
  sb_inopblog = 3;
  sb_agblklog = 10;
  sb_icount = 64;
  sb_ifree = 60;
  sb_fdblocks = 3000;
  sb_dirblklog = 0;
  sb_features2 = 0x108;
  sb_features_incompat = 1;
}

pub sb-IsGeometry : IsGeometry sb
sb-IsGeometry = record {
  blocklog_low = omega arith;
  blocklog_high = omega arith;
  agblklog_high = omega arith;
  agblocks_fit = omega arith;
  device_fits = omega arith;
}

pub first-IsBlock : IsBlock sb 1030
first-IsBlock = record { group = omega arith; within = omega arith }

later-IsBlock : IsBlock sb 2048
later-IsBlock = record { group = omega arith; within = omega arith }

fsb_to_offset_disjoint_example : fsb_to_offset sb 1030 + 2 ^ 12 ≤ fsb_to_offset sb 2048
fsb_to_offset_disjoint_example =
    fsb_to_offset_disjoint sb 1030 2048 sb-IsGeometry first-IsBlock later-IsBlock (omega arith)
