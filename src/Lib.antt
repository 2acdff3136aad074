-- ===== src/Lib.antt =====
-- xfuse mounts an XFS file system read-only through FUSE. This library models the part of it that reads
-- the disk format, under src/libxfuse.
--
-- The parts, and the files that model them:
--   - Codec: decoding of big-endian integers and byte strings, as src/libxfuse/utils.rs configures
--     bincode. bincode is the parameter `Bincode`, what is relied on is `IsBigEndian`; a decoder is a
--     function from the input to a value and the input that is left. Codec/Encode has the inverse.
--   - Sb: src/libxfuse/sb.rs. `from` is `Sb::from` (Sb/Read the reads, Sb/Mount the checks), the
--     addresses are in Sb itself; Sb/Layout and Sb/Address are about them.
--   - BlockReader: src/libxfuse/block_reader.rs. The state is the record `BlockReader`; each method is a
--     function to the value and the new state. Position says what state stands for which position of the
--     device; Reads, Seeks and Buffer are about the operations.
--   - Bmbt: src/libxfuse/bmbt_rec.rs, the extent list of a fork. Extents says what a list means,
--     Decode is about the records on disk; Lookup,
--     Runs, SeekBlocks and Seek are about the searches.
--   - Inode: src/libxfuse/dinode_core.rs. Decode and Layout are the inode core on disk, Fork is where the
--     B+tree pointers stand, Time is the two time formats.
--   - Inode/Forks and Inode/Dinode: src/libxfuse/dinode.rs. Forks is the data fork and the attribute fork
--     in every format, Dinode the place of an inode and `Dinode::from`; Dinode/Address is about the
--     places, Dinode/Open what an inode is opened as, with its two caches.
--   - FileType: file types of src/libxfuse/utils.rs.
--   - Dir: src/libxfuse/dir3.rs, records of directory blocks; Dir/Sf: src/libxfuse/dir3_sf.rs,
--     directories in the inode; Dir/Directory: the choice among the forms of a directory. Dir/Index: the range of a hash in an index, which both of the following
--     search; Index/Names is the plain search by name that their lookups stand for.
--   - Dir/Block: src/libxfuse/dir3_block.rs. New is about reading the block, Records says what its data
--     region is, Lookup and Next are about the operations; a round of the loop of `next` passes a byte at
--     least, so that its fuel is the size of the data.
--   - Dir/Leaf: src/libxfuse/dir3_lf.rs. Disk is the leaf blocks, Cache the cache of directory blocks,
--     Addresses the iterator over the leaves of a chain, Rounds the loop of `lookup`; Order and Level are
--     about the leaf level, Search and Lookup about the whole. The fuel of a lookup is an argument, and
--     more rounds than entries and leaves together are enough. Next is the operation `next`; InBlock,
--     Visit and Listing are about the rounds in a block, over a block and over blocks; a round of the
--     inner loop passes a byte at least, and the outer loop takes two rounds to a next block.
--   - DaBtree: src/libxfuse/da_btree.rs. Hash is `hashname` (Hash/Xor the words, Hash/Bytewise the loop),
--     Node and Layout the nodes on disk; the tree and its cache of children are in DaBtree itself, Forest
--     and Search are about the descent, whose fuel is one more than the levels.
--   - Attr: src/libxfuse/attr.rs and src/libxfuse/attr_shortform.rs. Attr/Interface is the trait `Attr`
--     over the state of a fork, and its client, `listxattr` and `getxattr` of src/libxfuse/volume.rs.
--     Attr/Leafblock is a block of names, with the values in it or in blocks of their own (Value);
--     Attr/Leaf, Attr/Node and Attr/Bptree are src/libxfuse/attr_leaf.rs, attr_node.rs and attr_bptree.rs,
--     over the leaves and their cache in Attr/Leaves; Attr/Fork is `open` and the choice among the forms,
--     Attr/Fork/Replies is about what the client replies.
--     More rounds of fuel than leaves, levels and blocks of a value are enough; std's binary search is the
--     parameter `search`.
--   - Volume: the table of open inodes of src/libxfuse/volume.rs, `open_inode` and `forget` as steps;
--     reading an inode from the device is a parameter there. Lookups has the steps and the histories,
--     Owed is about all of them. Readdir is the loop of `readdir` over a directory's `next`, with a round
--     of fuel for each entry and one more; Listing is about any directory that `next` walks through.
--     Requests are the requests on the whole state, Requests/Reading is about `read`,
--     Requests/Counting about what `lookup` answers and counts.
--   - Btree: `BtreeRoot::lseek` of src/libxfuse/btree.rs, over the results of `map_block`. Its scan has
--     2^55 rounds of fuel: an extent begins below block 2^54 and has less than 2^21 blocks.
--     Header and Node are the blocks on disk and the caches, Map is `map_block`, whose fuel is one more than
--     the levels below the root; Cover says which tree holds which extents, Search is about the descent.
--   - File: `read` and `read_sectors` of src/libxfuse/file.rs and the extent lookup of
--     src/libxfuse/file_extent_list.rs and src/libxfuse/file_btree.rs. Contents says what a file holds;
--     Sectors is about the loop, whose fuel is the size asked for, since each round takes a byte at
--     least; Read is about `read`. Listed goes from the records of an extent list to the device's bytes,
--     Objects is the choice between the two kinds of file.
--   - Symlink: src/libxfuse/symlink_extent.rs. Header is the header of a block, Target about the loop,
--     whose fuel is an argument; one more round than extents is enough.
--   - Base: shared names, lists, words and outcomes; Tests: the theorems at concrete inputs.
--
-- A volume reads its superblock once, keeps it, and reads inodes through the block reader. An inode's
-- fork is short form, an extent list or a B+tree of extents; the extent list maps a block of the file
-- to a file system block, and the superblock maps that to a byte of the device.
--
-- Rust's calls end in a value, an error or a panic: `Outcome`. Integers are natural numbers with the
-- wrap-around of the release profile written out (add64 and so on); signed numbers are their bit
-- patterns. The reader's loop runs on fuel of the buffer's length, enough because each round fills a
-- byte. Device contents are an argument; a device is a whole number of buffers where positions are
-- claimed.
--
-- Where a component reads blocks at offsets of its own (Dir/Block, Dir/Leaf, DaBtree, Btree, Attr and
-- Inode/Dinode), the reader
-- is given by the device it reads: a seek and the reads behind it take the device's bytes from the offset
-- on, as BlockReader says, and a block that is not on the device is a panic.
--
-- Not modelled: the FUSE session and the command line (third-party crates), logging, the sector size
-- query of a device, and of src/libxfuse/volume.rs `init` and the shell of `from`, `readdir`, `getxattr` and
-- `listxattr` around the table, the loop and the replies that are.
pub mod Base
pub mod Bmbt
pub mod Codec
pub mod FileType
pub mod Sb
pub mod Symlink
pub mod Dir
pub mod Inode
pub mod BlockReader
pub mod Attr
pub mod Btree
pub mod File
pub mod Volume
pub mod Tests
pub mod DaBtree
