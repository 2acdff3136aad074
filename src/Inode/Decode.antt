-- ===== src/Inode/Decode.antt =====
-- `Decode for DinodeCore` of src/libxfuse/dinode_core.rs.
use xfuse.Base.{ℕ, ◌||◌, leb, ◌==◌, if◌then◌else◌}
use xfuse.Codec.{Get, pure, crash, assert, ◌>>=◌, ◌>>◌, Bincode}
use xfuse.Inode.{XfsDinodeFmt, dev, local, extents, btree, uuid, rmap, XfsTimestamp, DinodeCore}

abbrev pub xfs_dinode_magic : ℕ
xfs_dinode_magic = 0x494e

-- `XfsDinodeFmt::from_u8(..).expect(..)`.
abbrev pub fmt_of : ℕ → Get XfsDinodeFmt
fmt_of t =
    if t == 0
    then pure dev
    else if t == 1
    then pure local
    else if t == 2
    then pure extents
    else if t == 3
    then pure btree
    else if t == 4
    then pure uuid
    else if t == 5
    then pure rmap
    else crash

abbrev pub zero_time : XfsTimestamp
zero_time = record { t_sec = 0; t_nsec = 0 }

module _ (bc : Bincode) where
  unfoldable pub get_fmt : Get XfsDinodeFmt
  get_fmt = do discriminant ← bc.uint 1; fmt_of discriminant

  unfoldable pub get_timestamp : Get XfsTimestamp
  get_timestamp = do
    t_sec ← bc.uint 4
    t_nsec ← bc.uint 4
    pure (record { t_sec = t_sec; t_nsec = t_nsec })

  -- The fields of inode version 3 from `_di_crc` on.
  unfoldable pub get_v3 : Get (ℕ × XfsTimestamp × ℕ)
  unfolding get_timestamp
  get_v3 = do
    _ ← bc.uint 4
    _ ← bc.uint 8
    _ ← bc.uint 8
    di_flags2 ← bc.uint 8
    _ ← bc.uint 4
    _ ← bc.read 12
    di_crtime ← get_timestamp
    di_ino ← bc.uint 8
    _ ← bc.uint 16
    pure (di_flags2, di_crtime, di_ino)

  unfoldable pub get_dinode_core : Get DinodeCore
  unfolding get_fmt get_timestamp get_v3
  get_dinode_core = do
    di_magic ← bc.uint 2
    assert (di_magic == xfs_dinode_magic)
    di_mode ← bc.uint 2
    di_version ← bc.uint 1
    assert (di_version == 2 || di_version == 3)
    di_format ← get_fmt
    _ ← bc.uint 2
    di_uid ← bc.uint 4
    di_gid ← bc.uint 4
    di_nlink ← bc.uint 4
    _ ← bc.uint 2
    _ ← bc.uint 2
    _ ← bc.read 6
    _ ← bc.uint 2
    di_atime ← get_timestamp
    di_mtime ← get_timestamp
    di_ctime ← get_timestamp
    di_size ← bc.uint 8
    di_nblocks ← bc.uint 8
    _ ← bc.uint 4
    di_nextents ← bc.uint 4
    di_anextents ← bc.uint 2
    di_forkoff ← bc.uint 1
    di_aformat ← get_fmt
    _ ← bc.uint 4
    _ ← bc.uint 2
    _ ← bc.uint 2
    di_gen ← bc.uint 4
    _ ← bc.uint 4
    (di_flags2, di_crtime, di_ino) ← if leb 3 di_version then get_v3 else pure (0, zero_time, 0)
    pure (record {
      di_mode = di_mode;
      di_version = di_version;
      di_format = di_format;
      di_uid = di_uid;
      di_gid = di_gid;
      di_nlink = di_nlink;
      di_atime = di_atime;
      di_mtime = di_mtime;
      di_ctime = di_ctime;
      di_size = di_size;
      di_nblocks = di_nblocks;
      di_nextents = di_nextents;
      di_anextents = di_anextents;
      di_forkoff = di_forkoff;
      di_aformat = di_aformat;
      di_gen = di_gen;
      di_flags2 = di_flags2;
      di_crtime = di_crtime;
      di_ino = di_ino;
    })
