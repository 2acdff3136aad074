-- ===== src/Volume/Requests/Reading.antt =====
-- What the kernel gets when it reads a file through `read` of src/libxfuse/volume.rs.
use xfuse.Base.{
  ℕ, ◌+◌, ◌-◌, ◌*◌, ◌/◌, ◌^◌, ◌≤◌, ◌<◌, ◌≡◌, refl, ap, ◌∙◌, arith, some, pos_pow, pow_sum, List,
  length, take, drop, le→leb, ok,
}
use native.Mathlib.Nat.{pow-le-pow_right}
use xfuse.Codec.{Bytes, Bincode}
use xfuse.Sb.{Sb, fsb_to_offset}
use xfuse.Bmbt.{BmbtRec, new}
use xfuse.Bmbt.Extents.{mapped}
use xfuse.BlockReader.{BlockReader, set_bufsize}
use xfuse.BlockReader.Buffer.{set_bufsize_lem}
use xfuse.BlockReader.Seeks.{IsReader}
use xfuse.Inode.Forks.{bmx}
use xfuse.Inode.Dinode.{Dinode}
use xfuse.Inode.Dinode.Open.{get_file}
use xfuse.File.Contents.{contents}
use xfuse.File.Listed.{IsLaidOut, block_count, read_listed}
use xfuse.File.Objects.{file_size, file_extent}
use xfuse.File.Read.{wanted}
use xfuse.Volume.{OpenInode, find}
use xfuse.Volume.Requests.{Volume, bytes, read_answer, volume_read}

-- A device whose sectors divide the blocks of the file system, and which is a whole number of blocks.
pub record IsDevice (sb : Sb) (r : BlockReader) (sector_log blocks : ℕ) : Type 0 where
  pub sectors : r.sectorsize ≡ 2 ^ sector_log
  pub small : sector_log ≤ sb.sb_blocklog
  pub whole : length r.file ≡ blocks * sb.sb_blocksize

-- All the bytes of a file's blocks.
abbrev pub file_bytes : Sb → Bytes → (size : ℕ) → List BmbtRec → Bytes
file_bytes sb dev size recs =
    contents (fsb_to_offset sb) dev (2 ^ sb.sb_blocklog) (mapped (new recs)) 0 (block_count sb size)

whole_rounds : (c p : ℕ) → 0 < p → (c * p + p - 1) / p * p ≡ c * p
whole_rounds c p pos = grind arith

module _ (sb : Sb) (v : Volume) (sector_log blocks : ℕ)
    (disk : IsDevice sb v.device sector_log blocks) (size : ℕ) (recs : List BmbtRec)
    (file : IsLaidOut sb v.device.file size (new recs)) where
  small_block : 2 ^ sb.sb_blocklog < 2 ^ 32
  small_block = omega (
    arith,
    pow-le-pow_right {n = 2} (omega arith) {i = sb.sb_blocklog} {j = 16}
        file.geometry.blocklog_high,
  )

  in_sectors : sb.sb_blocksize ≡ 2 ^ (sb.sb_blocklog - sector_log) * 2 ^ sector_log
  in_sectors =
      file.block_bytes
      ∙ ap (λ k. 2 ^ k) (omega (arith, disk.small))
      ∙ pow_sum (sb.sb_blocklog - sector_log) sector_log

  round : (sb.sb_blocksize + 2 ^ sector_log - 1) / 2 ^ sector_log * 2 ^ sector_log ≡ sb.sb_blocksize
  round =
      rw in_sectors
        (whole_rounds (2 ^ (sb.sb_blocklog - sector_log)) (2 ^ sector_log) (pos_pow sector_log))

  reader : IsReader v.device.file blocks sb.sb_blocksize (set_bufsize v.device sb.sb_blocksize)
  reader =
      let (sized, empty, same) =
        set_bufsize_lem v.device sb.sb_blocksize sector_log disk.sectors
          (omega (arith, disk.small, file.geometry.blocklog_high))
          (omega (arith, file.block_bytes, small_block)) in
      record {
        device = same;
        whole = disk.whole;
        positive = omega (arith, file.block_bytes, pos_pow sb.sb_blocklog);
        sized = sized ∙ round;
      }

  -- A read of an open file with an extent list is answered with the file's bytes from the offset on, as
  -- many as asked for or as are left: the bytes of the device where the records of the inode map a block,
  -- and zeros in a hole or an extent that was not written. It never answers with an error, and the reader
  -- is left in a state to read on. This holds when the records are ordered and lie on the device, the
  -- file's size and its mapped offsets fit in 63 and 64 bits, the offset is in the file, and the device
  -- holds all groups and is a whole number of blocks of whole sectors.
  pub volume_read-Returns :
      (bc : Bincode) (fuel edestaddrreq ino offset asked : ℕ) (oi : OpenInode Dinode)
      → find v.open_files ino ≡ some oi
      → oi.dinode.di_u ≡ bmx recs
      → oi.dinode.di_core.di_size ≡ size
      → offset ≤ size
      → (r : BlockReader) × (volume_read bc sb fuel edestaddrreq v ino offset asked
          ≡ ok (
            bytes (
                take
                  (wanted size offset asked)
                  (drop offset (file_bytes sb v.device.file size recs))),
            record v { device = r },
          ))
        × IsReader v.device.file blocks sb.sb_blocksize r
  unfolding volume_read get_file file_extent file_size
  volume_read-Returns bc fuel edestaddrreq ino offset asked oi found u sz le =
      let (got, ignore, r, e, says, there, reader') =
        read_listed sb v.device.file size (new recs) file blocks sb.sb_blocksize offset asked
          (set_bufsize v.device sb.sb_blocksize) reader le in
      (
        r,
        rw (found, u, sz)
            (ap (read_answer v (set_bufsize v.device sb.sb_blocksize)) e
              ∙ rw (le→leb ignore (length got) there, says) refl),
        reader',
      )
