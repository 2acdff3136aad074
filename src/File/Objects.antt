-- ===== src/File/Objects.antt =====
-- The two files of the trait `File`: src/libxfuse/file_extent_list.rs and src/libxfuse/file_btree.rs.
use xfuse.Base.{ℕ, Option, Outcome}
use xfuse.Sb.{Sb}
use xfuse.Bmbt as E
use xfuse.Btree as B
use xfuse.File.{list_extent, tree_extent}

-- `FileExtentList` and `FileBtree`, with the size; the B+tree is given by the answers of its `map_block`.
pub data FileObject : Type 0 where
  file_extent_list : (bmx : E.Bmx) → (size : ℕ) → FileObject
  file_btree : (map_block : ℕ → Outcome ℕ (Option ℕ × Option ℕ)) → (size : ℕ) → FileObject

unfoldable pub file_size : FileObject → ℕ
file_size (file_extent_list bmx size) = size
file_size (file_btree map_block size) = size

unfoldable pub file_extent : Sb → FileObject → ℕ → Outcome ℕ (Option ℕ × ℕ)
unfolding list_extent tree_extent
file_extent sb (file_extent_list bmx size) dblock = list_extent sb bmx size dblock
file_extent sb (file_btree map_block size) dblock = tree_extent sb map_block size dblock

unfoldable pub file_lseek : Sb → FileObject → ℕ → ℕ → Outcome ℕ ℕ
unfolding E.lseek B.tree_lseek
file_lseek sb (file_extent_list bmx size) offset whence = E.lseek bmx sb.sb_blocklog offset whence
file_lseek sb (file_btree map_block size) offset whence =
    B.tree_lseek map_block sb.sb_blocklog offset whence
