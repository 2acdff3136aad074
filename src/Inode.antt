-- ===== src/Inode.antt =====
-- src/libxfuse/dinode_core.rs: the inode core. Signed fields are kept as the bit pattern that is on
-- disk; a time is a number of nanoseconds after the classic epoch, 2^31 seconds before 1970.
pub mod Decode
pub mod Fork
pub mod Layout
pub mod Time
pub mod Forks
pub mod Dinode
use xfuse.Base.{
  ℕ, ◌+◌, ◌-◌, ◌*◌, ◌/◌, ◌%◌, ◌^◌, Bool, ◌&&◌, ◌||◌, not, ltb, leb, ◌==◌, if◌then◌else◌, add64,
  sub64, mul64, Outcome, ok, err, panic, ◌>>=◌, ◌>>◌, assert,
}
use xfuse.FileType.{FileType, of_mode, get_file_type}

pub data XfsDinodeFmt : Type 0 where
  dev local extents btree uuid rmap : XfsDinodeFmt

pub record XfsTimestamp : Type 0 where
  pub t_sec : ℕ
  pub t_nsec : ℕ

pub record DinodeCore : Type 0 where
  pub di_mode : ℕ
  pub di_version : ℕ
  pub di_format : XfsDinodeFmt
  pub di_uid : ℕ
  pub di_gid : ℕ
  pub di_nlink : ℕ
  pub di_atime : XfsTimestamp
  pub di_mtime : XfsTimestamp
  pub di_ctime : XfsTimestamp
  pub di_size : ℕ
  pub di_nblocks : ℕ
  pub di_nextents : ℕ
  pub di_anextents : ℕ
  pub di_forkoff : ℕ
  pub di_aformat : XfsDinodeFmt
  pub di_gen : ℕ
  pub di_flags2 : ℕ
  pub di_crtime : XfsTimestamp
  pub di_ino : ℕ

unfoldable pub literal_area_offset : DinodeCore → Outcome ℕ ℕ
literal_area_offset d =
    if d.di_version == 1 || d.di_version == 2
    then ok 0x64
    else if d.di_version == 3
    then ok 0xb0
    else panic

-- `BmdrBlock::SIZE` and `BmbtKey::SIZE`.
abbrev pub bmdr_size : ℕ
bmdr_size = 4

abbrev pub key_size : ℕ
key_size = 8

-- `if n % 8 > 0 { n + 8 - n % 8 }`.
abbrev pub round_up : ℕ → ℕ
round_up n = if n % 8 == 0 then n else sub64 (add64 n 8) (n % 8)

unfoldable pub dfork_btree_ptr_gap : DinodeCore → ℕ → ℕ → Outcome ℕ ℕ
unfolding literal_area_offset
dfork_btree_ptr_gap d inode_size bb_numrecs = do
  space ←
      if d.di_forkoff == 0
      then (do lit ← literal_area_offset d; ok (sub64 inode_size lit / 2))
      else ok (round_up (mul64 d.di_forkoff 8 / 2))
  let gap = sub64 (sub64 space bmdr_size) (mul64 bb_numrecs key_size)
  ok (sub64 gap (gap % 8))

unfoldable pub afork_btree_ptr_gap : DinodeCore → ℕ → ℕ → Outcome ℕ ℕ
unfolding literal_area_offset
afork_btree_ptr_gap d inode_size bb_numrecs = do
  let already = round_up (add64 bmdr_size (mul64 bb_numrecs key_size))
  lit ← literal_area_offset d
  let ofs = add64 lit (mul64 d.di_forkoff 8)
  let attr_fork_ofs = sub64 ofs (ofs % 8)
  let ptr_ofs = round_up (add64 (sub64 inode_size attr_fork_ofs / 2) attr_fork_ofs)
  ok (sub64 (sub64 ptr_ofs attr_fork_ofs) already)

-- `XFS_DIFLAG2_BIGTIME` is bit 3.
abbrev pub bigtime : DinodeCore → Bool
bigtime d = leb 3 d.di_version && (d.di_flags2 / 8 % 2 == 1)

abbrev pub unix_epoch : ℕ
unix_epoch = 2 ^ 31 * 10 ^ 9

-- `ts.t_sec as u64` for a 32-bit pattern: the sign is extended.
abbrev pub sign_extend : ℕ → ℕ
sign_extend s = if ltb s (2 ^ 31) then s else 2 ^ 64 - 2 ^ 32 + s

-- `Duration::new` and `SystemTime + Duration` panic when the seconds do not fit in an i64.
unfoldable pub timestamp : DinodeCore → XfsTimestamp → Outcome ℕ ℕ
timestamp d ts =
    if bigtime d
    then ok (ts.t_sec * 2 ^ 32 + ts.t_nsec)
    else (let secs = sign_extend ts.t_sec + ts.t_nsec / 10 ^ 9 in
        if leb (2 ^ 63) secs then panic else ok (unix_epoch + secs * 10 ^ 9 + ts.t_nsec % 10 ^ 9))

-- fuser's `FileAttr`, less `rdev`, `blksize` and `flags`, which are 0.
pub record FileAttr : Type 0 where
  pub ino : ℕ
  pub size : ℕ
  pub blocks : ℕ
  pub atime : ℕ
  pub mtime : ℕ
  pub ctime : ℕ
  pub crtime : ℕ
  pub kind : FileType
  pub perm : ℕ
  pub nlink : ℕ
  pub uid : ℕ
  pub gid : ℕ

unfoldable pub stat : DinodeCore → ℕ → Outcome ℕ FileAttr
unfolding timestamp
stat d ino = do
  kind ← get_file_type (of_mode d.di_mode)
  assert (not (leb 3 d.di_version) || (ino == 1 || ino == d.di_ino))
  atime ← timestamp d d.di_atime
  mtime ← timestamp d d.di_mtime
  ctime ← timestamp d d.di_ctime
  crtime ← timestamp d d.di_crtime
  ok (record {
    ino = ino;
    size = d.di_size;
    blocks = d.di_nblocks;
    atime = atime;
    mtime = mtime;
    ctime = ctime;
    crtime = crtime;
    kind = kind;
    perm = d.di_mode % 2 ^ 12;
    nlink = d.di_nlink;
    uid = d.di_uid;
    gid = d.di_gid;
  })
