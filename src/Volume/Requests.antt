-- ===== src/Volume/Requests.antt =====
-- The requests of src/libxfuse/volume.rs on a volume's whole state, from the table of open inodes down to
-- the device. Extended attributes are in Attr/Interface, the loop of `readdir` in Readdir.
pub mod Reading
pub mod Counting
use xfuse.Base.{
  ℕ, ◌^◌, Option, none, some, Bool, ltb, leb, ◌||◌, if◌then◌else◌, sub64, Outcome, ok, err, panic,
  unwrap, expect_some, assert, map_ok, ◌>>=◌, ◌>>◌,
}
use xfuse.Codec.{Bytes, Bincode, slice_from}
use xfuse.Sb.{Sb}
use xfuse.Bmbt.{errno_enxio}
use xfuse.BlockReader.{BlockReader, set_bufsize}
use xfuse.Inode.{FileAttr, stat}
use xfuse.Inode.Dinode.{Dinode, dinode_from}
use xfuse.Inode.Dinode.Open.{get_dir, get_file, get_link_data}
use xfuse.File.{read}
use xfuse.File.Objects.{file_size, file_extent, file_lseek}
use xfuse.Dir.Block.{dir_block_size}
use xfuse.Dir.Directory.{Directory, dir_lookup}
use xfuse.Volume.{OpenInode, Table, find, insert, open_inode}

-- The superblock, which never changes, is an argument of the requests.
pub record Volume : Type 0 where
  pub device : BlockReader
  pub open_files : Table Dinode
  pub no_open : Bool
  pub no_opendir : Bool

-- What the kernel is told; the time to live is constant.
pub data Answer : Type 0 where
  entry : FileAttr → (generation : ℕ) → Answer
  attr : FileAttr → Answer
  bytes : Bytes → Answer
  offset : ℕ → Answer
  handle : (fh flags : ℕ) → Answer
  statfs : (blocks bfree bavail files ffree bsize namelen frsize : ℕ) → Answer
  error : ℕ → Answer

-- A request that does not return an error as such answers with it.
abbrev pub answered : {A : Type 0} → Outcome ℕ A → (A → Answer) → Outcome ℕ Answer
answered (ok a) f = ok (f a)
answered (err e) f = ok (error e)
answered panic f = panic

abbrev einval : ℕ
einval = 22

unfoldable pub volume_statfs : Sb → Answer
volume_statfs sb =
    statfs (sub64 sb.sb_dblocks sb.sb_logblocks) sb.sb_fdblocks sb.sb_fdblocks sb.sb_icount
      sb.sb_ifree sb.sb_blocksize 255 sb.sb_blocksize

-- libc's ENOSYS and fuser's flag are arguments.
unfoldable pub volume_open : (enosys fopen_keep_cache : ℕ) → Volume → Answer
volume_open enosys fopen_keep_cache v =
    if v.no_open then error enosys else handle 0 fopen_keep_cache

unfoldable pub volume_opendir : (enosys fopen_cache_dir : ℕ) → Volume → Answer
volume_opendir enosys fopen_cache_dir v =
    if v.no_opendir then error enosys else handle 0 fopen_cache_dir

unfoldable pub volume_getattr : Volume → ℕ → Outcome ℕ Answer
unfolding stat
volume_getattr v ino = do
  oi ← expect_some (find v.open_files ino)
  a ← unwrap (stat oi.dinode.di_core ino)
  ok (attr a)

-- A signed number above another, the first of which is not negative.
abbrev past_end : ℕ → ℕ → Bool
past_end off size = leb (2 ^ 63) size || ltb size off

-- The match at the end of `read`, with the reader that it was called with.
abbrev pub read_answer :
    Volume → BlockReader → Outcome ℕ ((Bytes × ℕ) × BlockReader) → Outcome ℕ (Answer × Volume)
read_answer v device (ok ((v', ignore), r)) = do
  content ← slice_from v' ignore
  ok (bytes content, record v { device = r })
read_answer v device (err e) = ok (error e, record v { device = device })
read_answer v device panic = panic

module _ (bc : Bincode) (sb : Sb) (fuel edestaddrreq : ℕ) where
  -- The answer; the reader is left as the next request finds it, which sets the buffer and seeks anew.
  unfoldable pub volume_readlink : Volume → ℕ → Outcome ℕ Answer
  unfolding get_link_data set_bufsize
  volume_readlink v ino = do
    let device = set_bufsize v.device sb.sb_blocksize
    oi ← expect_some (find v.open_files ino)
    target ← unwrap (get_link_data bc sb v.device.file fuel edestaddrreq device oi.dinode)
    ok (bytes target)

  unfoldable pub volume_read : Volume → ℕ → ℕ → ℕ → Outcome ℕ (Answer × Volume)
  unfolding get_file file_extent file_size read set_bufsize
  volume_read v ino off size = do
    oi ← expect_some (find v.open_files ino)
    let device = set_bufsize v.device sb.sb_blocksize
    file ← get_file bc sb v.device.file fuel edestaddrreq oi.dinode
    read_answer v device (read sb (file_extent sb file) (file_size file) device off size)

  -- The offset is the bit pattern of a signed number.
  unfoldable pub volume_lseek : Volume → ℕ → ℕ → ℕ → Outcome ℕ Answer
  unfolding get_file file_lseek file_size
  volume_lseek v ino off whence = if leb (2 ^ 63) off then ok (error einval) else (do
    oi ← expect_some (find v.open_files ino)
    file ← get_file bc sb v.device.file fuel edestaddrreq oi.dinode
    let seek = (do ofs ← file_lseek sb file off whence; assert (ltb ofs (2 ^ 63)); ok ofs)
    if past_end off (file_size file) then ok (error errno_enxio) else answered seek offset)

  -- `open_inode` reads inodes from the device.
  abbrev read_inode : Bytes → ℕ → Outcome ℕ Dinode
  read_inode device ino = dinode_from bc sb device ino

  -- The reader behind `open_inode`, by what was open before: reading an inode sets the buffer for it.
  abbrev pub device_behind : BlockReader → Option (OpenInode Dinode) → BlockReader
  device_behind device (some oi) = device
  device_behind device none = set_bufsize device sb.sb_inodesize

  -- The answer to what the directory has found, opened in the inode `d`: the parent keeps its directory
  -- object, and what is found is opened, and counted, before its attributes are looked at. The reader's
  -- buffer is left as the last call set it, for an inode when one was read. The blocks that a failed
  -- search has read are not kept, nor the place where the reader stands.
  unfoldable pub lookup_answer :
      Volume
      → ℕ
      → OpenInode Dinode
      → Dinode
      → Outcome ℕ (ℕ × Directory)
      → Outcome ℕ (Answer × Volume)
  unfolding dinode_from open_inode stat set_bufsize
  lookup_answer v parent oi d (ok (ino, dir')) = do
    let parent_oi = record oi { dinode = record d { directory = some dir' } }
    files ←
        open_inode (read_inode v.device.file) sb.sb_rootino (insert v.open_files parent parent_oi)
          ino
    child ← expect_some (find files ino)
    answer ← answered (stat child.dinode.di_core ino) (λ a. entry a child.dinode.di_core.di_gen)
    let device = set_bufsize v.device (dir_block_size sb)
    let device1 = device_behind device (find (insert v.open_files parent parent_oi) ino)
    ok (answer, record v { device = device1; open_files = files })
  lookup_answer v parent oi d (err e) = ok (
    error e,
    record v {
      device = set_bufsize v.device (dir_block_size sb);
      open_files = insert v.open_files parent (record oi { dinode = d });
    },
  )
  lookup_answer v parent oi d panic = panic

  unfoldable pub volume_lookup : Volume → ℕ → Bytes → Outcome ℕ (Answer × Volume)
  unfolding get_dir dir_lookup lookup_answer
  volume_lookup v parent name = do
    oi ← expect_some (find v.open_files parent)
    (dir, d) ← get_dir bc sb v.device.file fuel edestaddrreq oi.dinode
    lookup_answer v parent oi d (dir_lookup bc sb v.device.file fuel dir name)
