-- ===== src/Tests/Names.antt =====
-- A small file system of 512-byte blocks, with a directory of three names: the block form, the leaves and
-- the B+tree over them. Two of the names have the same hash and stand in different leaves.
use xfuse.Base.{ℕ, ◌-◌, ◌≡◌, refl, List, [], ◌∷◌, ◌++◌, length, replicate, some, false}
use xfuse.Codec.{Bytes}
use xfuse.Codec.Encode.{be_bytes}
use xfuse.Sb.{Sb}
use xfuse.Bmbt.{Bmx}
use xfuse.Dir.{Dir2DataEntry, Dir2LeafEntry}
use xfuse.Dir.Leaf.{Dfork, extents}
use xfuse.Dir.Leaf.Disk.{LeafNDisk}
use xfuse.DaBtree.Node.{NodeEntry}
use xfuse.Tests.Superblock.{sb}

abbrev pub small : Sb
small = record sb { sb_blocksize = 512; sb_blocklog = 9 }

abbrev pub padded : Bytes → Bytes
padded bytes = bytes ++ replicate (512 - length bytes) 0

abbrev pub at_e2 : Bytes
at_e2 = 0x40 ∷ 0xe2 ∷ []

abbrev pub a_b : Bytes
a_b = 0x41 ∷ 0x62 ∷ []

abbrev pub z_z : Bytes
z_z = 0x7a ∷ 0x7a ∷ []

-- A record of a name of two bytes.
abbrev record_bytes : Bytes → ℕ → ℕ → Bytes
record_bytes name ino tag =
    be_bytes 8 ino ++ (2 ∷ (name ++ (1 ∷ (replicate 2 0 ++ be_bytes 2 tag))))

abbrev pub entry : Bytes → ℕ → ℕ → Dir2DataEntry
entry name ino tag = record { inumber = ino; name = name; ftype = some 1; tag = tag }

abbrev pub records : Bytes
records = record_bytes at_e2 131 16 ++ (record_bytes a_b 132 32 ++ record_bytes z_z 133 48)

abbrev pub entries : List Dir2DataEntry
entries = entry at_e2 131 16 ∷ entry a_b 132 32 ∷ entry z_z 133 48 ∷ []

abbrev pub index_bytes : ℕ → ℕ → Bytes
index_bytes hash address = be_bytes 4 hash ++ be_bytes 4 address

abbrev pub ent : ℕ → ℕ → Dir2LeafEntry
ent hash address = record { hashval = hash; address = address }

abbrev pub data_block : Bytes
data_block =
    be_bytes 4 0x58443244
    ++ (replicate 12 0
        ++ (records
            ++ (be_bytes 2 0xffff ++ (be_bytes 2 448 ++ (replicate 442 0 ++ be_bytes 2 64)))))

-- A node or a leaf: the link to the next, the magic number, and two more fields.
abbrev pub header : ℕ → ℕ → ℕ → ℕ → Bytes
header forw magic a b =
    be_bytes 4 forw
    ++ (replicate 4 0 ++ (be_bytes 2 magic ++ (replicate 2 0 ++ (be_bytes 2 a ++ be_bytes 2 b))))

abbrev pub first_leaf : ℕ
first_leaf = 67108865

abbrev pub second_leaf : ℕ
second_leaf = 67108866

abbrev pub root_block : Bytes
root_block =
    padded
      (header 0 0xfebe 2 1 ++ (index_bytes 0x20e2 first_leaf ++ index_bytes 0x3d7a second_leaf))

abbrev pub leaf1_block : Bytes
leaf1_block = padded (header second_leaf 0xd2ff 1 0 ++ index_bytes 0x20e2 2)

abbrev pub leaf2_block : Bytes
leaf2_block = padded (header 0 0xd2ff 2 0 ++ (index_bytes 0x20e2 4 ++ index_bytes 0x3d7a 6))

-- A directory of one block: the same records, the index and the tail.
abbrev pub block_dir_block : Bytes
block_dir_block =
    be_bytes 4 0x58443242
    ++ (replicate 12 0
        ++ (records
            ++ ((be_bytes 2 0xffff ++ (be_bytes 2 416 ++ (replicate 410 0 ++ be_bytes 2 64)))
                ++ (index_bytes 0x20e2 2
                    ++ (index_bytes 0x20e2 4
                        ++ (index_bytes 0x3d7a 6 ++ (be_bytes 4 3 ++ be_bytes 4 0)))))))

abbrev pub device : Bytes
device =
    replicate 512 0
    ++ (data_block ++ (root_block ++ (leaf1_block ++ (leaf2_block ++ block_dir_block))))

abbrev pub mapped : Bmx
mapped =
    record { br_startoff = 0; br_startblock = 1; br_blockcount = 1; br_flag = false }
    ∷ record { br_startoff = 67108864; br_startblock = 2; br_blockcount = 3; br_flag = false }
    ∷ []

abbrev pub fork : Dfork
fork = extents mapped

abbrev pub index : List NodeEntry
index =
    record { hashval = 0x20e2; before = first_leaf }
    ∷ record { hashval = 0x3d7a; before = second_leaf }
    ∷ []

abbrev pub leaf1 : LeafNDisk
leaf1 = record { forw = second_leaf; ents = ent 0x20e2 2 ∷ [] }

abbrev pub leaf2 : LeafNDisk
leaf2 = record { forw = 0; ents = ent 0x20e2 4 ∷ ent 0x3d7a 6 ∷ [] }

block_dir_size : length block_dir_block ≡ 512
block_dir_size = refl
