-- ===== src/Dir/Directory.antt =====
-- The enum `Directory` of src/libxfuse/dir3.rs, its lookup, and how a `Dir2Lf` of src/libxfuse/dir3_lf.rs is made.
use xfuse.Base.{ℕ, Option, [], Outcome, map_ok}
use xfuse.Codec.{Bytes, Bincode}
use xfuse.Sb.{Sb}
use xfuse.Bmbt.{Bmx}
use xfuse.Dir.Sf.{Dir2Sf, lookup}
use xfuse.Dir.Block.{Dir2Block, block_lookup}
use xfuse.Dir.Leaf.{Dfork, extents, tree, Blocks, leaf_lookup}

pub record Dir2Lf : Type 0 where
  pub dfork : Dfork
  pub blocks : Blocks

unfoldable pub from_bmx : Bmx → Dir2Lf
from_bmx bmx = record { dfork = extents bmx; blocks = [] }

-- The B+tree is given by the answers of its `map_block`.
unfoldable pub from_btree : (ℕ → Outcome ℕ (Option ℕ × Option ℕ)) → Dir2Lf
from_btree map_block = record { dfork = tree map_block; blocks = [] }

pub data Directory : Type 0 where
  sf : Dir2Sf → Directory
  block : Dir2Block → Directory
  lf : Dir2Lf → Directory

-- `lookup` of the trait `Dir3`; a directory in leaf form keeps the blocks that it reads.
module _ (bc : Bincode) (sb : Sb) (device : Bytes) (fuel : ℕ) where
  unfoldable pub dir_lookup : Directory → Bytes → Outcome ℕ (ℕ × Directory)
  unfolding lookup block_lookup leaf_lookup
  dir_lookup (sf dir) name = map_ok (λ (ino : ℕ). (ino, sf dir)) (lookup dir name)
  dir_lookup (block dir) name = map_ok (λ (ino : ℕ). (ino, block dir)) (block_lookup bc sb dir name)
  dir_lookup (lf dir) name =
      map_ok (λ (r : ℕ × Blocks). (r.0, lf (record dir { blocks = r.1 })))
        (leaf_lookup bc sb device dir.dfork fuel dir.blocks name)
