-- ===== src/Inode/Layout.antt =====
-- Where the fields of the inode core (src/libxfuse/dinode_core.rs) stand on disk.
use xfuse.Base.{
  ℕ, ◌+◌, ◌≤◌, ◌≡◌, ◌⊎◌, inl, inr, ◌||◌, leb, ◌==◌, if◌then◌else◌, refl, arith, length, drop, ok,
  true, ap,
}
use xfuse.Codec.{Bytes, pure, ◌>>=◌, Bincode, IsBigEndian, be_at, uint_at, read_at}
use xfuse.Inode.{
  XfsDinodeFmt, dev, local, extents, btree, uuid, rmap, XfsTimestamp, DinodeCore,
  literal_area_offset,
}
use xfuse.Inode.Fork.{literal, literal_lem}
use xfuse.Inode.Decode.{
  xfs_dinode_magic, fmt_of, zero_time, get_fmt, get_timestamp, get_v3, get_dinode_core,
}

abbrev pub time_at : Bytes → ℕ → XfsTimestamp
time_at raw off = record { t_sec = be_at raw off 4; t_nsec = be_at raw (off + 4) 4 }

-- The inode whose formats are known, from its places on disk.
abbrev pub core_at : Bytes → XfsDinodeFmt → XfsDinodeFmt → ℕ × XfsTimestamp × ℕ → DinodeCore
core_at raw format aformat (flags2, crtime, ino) = record {
  di_mode = be_at raw 2 2;
  di_version = be_at raw 4 1;
  di_format = format;
  di_uid = be_at raw 8 4;
  di_gid = be_at raw 12 4;
  di_nlink = be_at raw 16 4;
  di_atime = time_at raw 32;
  di_mtime = time_at raw 40;
  di_ctime = time_at raw 48;
  di_size = be_at raw 56 8;
  di_nblocks = be_at raw 64 8;
  di_nextents = be_at raw 76 4;
  di_anextents = be_at raw 80 2;
  di_forkoff = be_at raw 82 1;
  di_aformat = aformat;
  di_gen = be_at raw 92 4;
  di_flags2 = flags2;
  di_crtime = crtime;
  di_ino = ino;
}

-- The numbers of the formats on disk.
abbrev pub code : XfsDinodeFmt → ℕ
code dev = 0
code local = 1
code extents = 2
code btree = 3
code uuid = 4
code rmap = 5

abbrev pub v3_at : Bytes → ℕ × XfsTimestamp × ℕ
v3_at raw = (be_at raw 120 8, time_at raw 144, be_at raw 152 8)

abbrev pub tail_at : Bytes → ℕ × XfsTimestamp × ℕ
tail_at raw = if be_at raw 4 1 == 3 then v3_at raw else (0, zero_time, 0)

pub record IsCore (raw : Bytes) (format aformat : XfsDinodeFmt) : Type 0 where
  pub magic : be_at raw 0 2 ≡ xfs_dinode_magic
  pub version : (be_at raw 4 1 ≡ 2) ⊎ (be_at raw 4 1 ≡ 3)
  pub format_known : be_at raw 5 1 ≡ code format
  pub aformat_known : be_at raw 83 1 ≡ code aformat
  pub long : literal (be_at raw 4 1) ≤ length raw

fmt_of-code : (f : XfsDinodeFmt) (bs : Bytes) → fmt_of (code f) bs ≡ ok (f, bs)
fmt_of-code dev bs = refl
fmt_of-code local bs = refl
fmt_of-code extents bs = refl
fmt_of-code btree bs = refl
fmt_of-code uuid bs = refl
fmt_of-code rmap bs = refl

module _ {bc : Bincode} (law : IsBigEndian bc) (raw : Bytes) where
  get_fmt_at :
      (k : ℕ) (f : XfsDinodeFmt)
      → k + 1 ≤ length raw
      → be_at raw k 1 ≡ code f
      → get_fmt bc (drop k raw) ≡ ok (f, drop (k + 1) raw)
  unfolding get_fmt
  get_fmt_at k f h e = rw (uint_at law raw k 1 h, e, fmt_of-code f (drop (k + 1) raw), ◌>>=◌)

  get_timestamp_at :
      (k : ℕ)
      → k + 8 ≤ length raw
      → get_timestamp bc (drop k raw) ≡ ok (time_at raw k, drop (k + 8) raw)
  unfolding get_timestamp
  get_timestamp_at k h =
      rw (uint_at law raw k 4 (omega arith), uint_at law raw (k + 4) 4 (omega arith), ◌>>=◌)
        (ap (λ z. ok (time_at raw k, drop z raw)) (omega arith))

  get_v3_at : 176 ≤ length raw → get_v3 bc (drop 100 raw) ≡ ok (v3_at raw, drop 176 raw)
  unfolding get_v3
  get_v3_at h = rw (
    uint_at law raw 100 4 (omega arith),
    uint_at law raw 104 8 (omega arith),
    uint_at law raw 112 8 (omega arith),
    uint_at law raw 120 8 (omega arith),
    uint_at law raw 128 4 (omega arith),
    read_at law raw 132 12 (omega arith),
    get_timestamp_at 144 (omega arith),
    uint_at law raw 152 8 (omega arith),
    uint_at law raw 160 16 (omega arith),
    ◌>>=◌,
  )

  get_tail_at :
      (be_at raw 4 1 ≡ 2) ⊎ (be_at raw 4 1 ≡ 3)
      → literal (be_at raw 4 1) ≤ length raw
      → (if leb 3 (be_at raw 4 1) then get_v3 bc else pure (0, zero_time, 0)) (drop 100 raw)
        ≡ ok (tail_at raw, drop (literal (be_at raw 4 1)) raw)
  get_tail_at (inl two) h = rw two
  get_tail_at (inr three) h = let h' : 176 ≤ length raw = (rw three at h) in rw three (get_v3_at h')

  version_holds :
      (be_at raw 4 1 ≡ 2) ⊎ (be_at raw 4 1 ≡ 3)
      → ((be_at raw 4 1 == 2 || be_at raw 4 1 == 3) ≡ true) × (100 ≤ literal (be_at raw 4 1))
  version_holds (inl two) = (rw two, rw two (omega arith))
  version_holds (inr three) = (rw three, rw three (omega arith))

  -- An inode core of version 2 or 3 with known fork formats that lies in the input whole is decoded
  -- from its places on disk, and what decoding it takes is what `literal_area_offset` says: the
  -- reader stands where the forks begin.
  pub get_dinode_core_lem :
      (format aformat : XfsDinodeFmt)
      → IsCore raw format aformat
      → let core = core_at raw format aformat (tail_at raw) in
        let offset = literal core.di_version in
        (get_dinode_core bc raw ≡ ok (core, drop offset raw))
        × (literal_area_offset core ≡ ok offset)
  unfolding get_dinode_core
  get_dinode_core_lem format aformat h =
      let (v, le) = version_holds h.version in
      let long : literal (be_at raw 4 1) ≤ length raw = h.long in
      (
        rw (
          uint_at law raw 0 2 (omega arith),
          h.magic,
          uint_at law raw 2 2 (omega arith),
          uint_at law raw 4 1 (omega arith),
          v,
          get_fmt_at 5 format (omega arith) h.format_known,
          uint_at law raw 6 2 (omega arith),
          uint_at law raw 8 4 (omega arith),
          uint_at law raw 12 4 (omega arith),
          uint_at law raw 16 4 (omega arith),
          uint_at law raw 20 2 (omega arith),
          uint_at law raw 22 2 (omega arith),
          read_at law raw 24 6 (omega arith),
          uint_at law raw 30 2 (omega arith),
          get_timestamp_at 32 (omega arith),
          get_timestamp_at 40 (omega arith),
          get_timestamp_at 48 (omega arith),
          uint_at law raw 56 8 (omega arith),
          uint_at law raw 64 8 (omega arith),
          uint_at law raw 72 4 (omega arith),
          uint_at law raw 76 4 (omega arith),
          uint_at law raw 80 2 (omega arith),
          uint_at law raw 82 1 (omega arith),
          get_fmt_at 83 aformat (omega arith) h.aformat_known,
          uint_at law raw 84 4 (omega arith),
          uint_at law raw 88 2 (omega arith),
          uint_at law raw 90 2 (omega arith),
          uint_at law raw 92 4 (omega arith),
          uint_at law raw 96 4 (omega arith),
          get_tail_at h.version long,
          ◌>>=◌,
        ),
        literal_lem (core_at raw format aformat (tail_at raw)) h.version,
      )
