-- ===== src/Tests/Addresses.antt =====
-- Two inodes of the superblock of Tests/Superblock.
use xfuse.Base.{◌+◌, ◌*◌, ◌^◌, ◌≡◌, ◌≤◌, refl, arith, ok}
use xfuse.Inode.Dinode.{inode_offset}
use xfuse.Inode.Dinode.Address.{IsInodeGeometry, inode_place, inode_offset_disjoint}
use xfuse.Tests.Superblock.{sb, sb-IsGeometry, first-IsBlock}

sb-IsInodeGeometry : IsInodeGeometry sb
sb-IsInodeGeometry = record { blocks = sb-IsGeometry; packed = refl }

-- The third and the sixth inode of block 1030.
inode_offset_disjoint_example :
    (inode_offset sb 8242 ≡ ok (inode_place sb 8242))
    × (inode_offset sb 8245 ≡ ok (inode_place sb 8245))
    × (inode_place sb 8242 + 2 ^ 9 ≤ inode_place sb 8245)
    × (inode_place sb 8245 + 2 ^ 9 ≤ 4 * 1000 * 2 ^ 12)
inode_offset_disjoint_example =
    inode_offset_disjoint sb sb-IsInodeGeometry 8242 8245 first-IsBlock first-IsBlock (omega arith)
