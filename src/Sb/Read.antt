-- ===== src/Sb/Read.antt =====
-- `Sb::from` of src/libxfuse/sb.rs: the superblock is read field by field and then checked.
use xfuse.Base.{ℕ}
use xfuse.Codec.{Get, ◌>>=◌, pure, Bincode}

pub record Geometry : Type 0 where
  pub sb_magicnum : ℕ
  pub sb_blocksize : ℕ
  pub sb_dblocks : ℕ
  pub sb_uuid : ℕ
  pub sb_rootino : ℕ
  pub sb_agblocks : ℕ
  pub sb_agcount : ℕ
  pub sb_logblocks : ℕ
  pub sb_versionnum : ℕ
  pub sb_sectsize : ℕ
  pub sb_inodesize : ℕ

pub record Counts : Type 0 where
  pub sb_blocklog : ℕ
  pub sb_inodelog : ℕ
  pub sb_inopblog : ℕ
  pub sb_agblklog : ℕ
  pub sb_icount : ℕ
  pub sb_ifree : ℕ
  pub sb_fdblocks : ℕ

pub record Features : Type 0 where
  pub sb_dirblklog : ℕ
  pub sb_features2 : ℕ
  pub sb_features_incompat : ℕ
  pub sb_features_log_incompat : ℕ

-- The fields of the first 224 bytes, those that `Sb::from` names with an underscore left out.
pub record Fields : Type 0 where
  pub geometry : Geometry
  pub counts : Counts
  pub features : Features

module _ (bc : Bincode) where
  -- `Sb::from`, the reads from `magicnum` to `fname`.
  unfoldable pub get_geometry : Get Geometry
  get_geometry = do
    sb_magicnum ← bc.uint 4
    sb_blocksize ← bc.uint 4
    sb_dblocks ← bc.uint 8
    _ ← bc.uint 8
    _ ← bc.uint 8
    sb_uuid ← bc.uint 16
    _ ← bc.uint 8
    sb_rootino ← bc.uint 8
    _ ← bc.uint 8
    _ ← bc.uint 8
    _ ← bc.uint 4
    sb_agblocks ← bc.uint 4
    sb_agcount ← bc.uint 4
    _ ← bc.uint 4
    sb_logblocks ← bc.uint 4
    sb_versionnum ← bc.uint 2
    sb_sectsize ← bc.uint 2
    sb_inodesize ← bc.uint 2
    _ ← bc.uint 2
    _ ← bc.read 12
    pure (record {
      sb_magicnum = sb_magicnum;
      sb_blocksize = sb_blocksize;
      sb_dblocks = sb_dblocks;
      sb_uuid = sb_uuid;
      sb_rootino = sb_rootino;
      sb_agblocks = sb_agblocks;
      sb_agcount = sb_agcount;
      sb_logblocks = sb_logblocks;
      sb_versionnum = sb_versionnum;
      sb_sectsize = sb_sectsize;
      sb_inodesize = sb_inodesize;
    })

  -- `Sb::from`, the reads from `blocklog` to `flags`.
  unfoldable pub get_counts : Get Counts
  get_counts = do
    sb_blocklog ← bc.uint 1
    _ ← bc.uint 1
    sb_inodelog ← bc.uint 1
    sb_inopblog ← bc.uint 1
    sb_agblklog ← bc.uint 1
    _ ← bc.uint 1
    _ ← bc.uint 1
    _ ← bc.uint 1
    sb_icount ← bc.uint 8
    sb_ifree ← bc.uint 8
    sb_fdblocks ← bc.uint 8
    _ ← bc.uint 8
    _ ← bc.uint 8
    _ ← bc.uint 8
    _ ← bc.uint 2
    _ ← bc.uint 1
    pure (record {
      sb_blocklog = sb_blocklog;
      sb_inodelog = sb_inodelog;
      sb_inopblog = sb_inopblog;
      sb_agblklog = sb_agblklog;
      sb_icount = sb_icount;
      sb_ifree = sb_ifree;
      sb_fdblocks = sb_fdblocks;
    })

  -- `Sb::from`, the reads from `shared_vn` to `features_log_incompat`.
  unfoldable pub get_features : Get Features
  get_features = do
    _ ← bc.uint 1
    _ ← bc.uint 4
    _ ← bc.uint 4
    _ ← bc.uint 4
    sb_dirblklog ← bc.uint 1
    _ ← bc.uint 1
    _ ← bc.uint 2
    _ ← bc.uint 4
    sb_features2 ← bc.uint 4
    _ ← bc.uint 4
    _ ← bc.uint 4
    _ ← bc.uint 4
    sb_features_incompat ← bc.uint 4
    sb_features_log_incompat ← bc.uint 4
    pure (record {
      sb_dirblklog = sb_dirblklog;
      sb_features2 = sb_features2;
      sb_features_incompat = sb_features_incompat;
      sb_features_log_incompat = sb_features_log_incompat;
    })

  unfoldable pub get_fields : Get Fields
  get_fields = do
    geometry ← get_geometry
    counts ← get_counts
    features ← get_features
    pure (record { geometry = geometry; counts = counts; features = features })
