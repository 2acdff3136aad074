-- ===== src/Dir/Block.antt =====
-- src/libxfuse/dir3_block.rs: directories of one block, which holds the records, the hash index behind
-- them and a tail at the end. The reader is given by its device.
pub mod Records
pub mod Next
pub mod Lookup
pub mod New
use xfuse.Base.{
  ℕ, zero, suc, ◌+◌, ◌-◌, ◌*◌, ◌%◌, ◌^◌, List, [], ◌∷◌, Bool, true, false, ltb, leb, ◌==◌,
  if◌then◌else◌, length, take, drop, sub64, mul64, add64, Outcome, ok, err, panic, ◌>>=◌, ◌>>◌,
  assert, unwrap, map_ok,
}
use xfuse.Codec.{Bytes, Bincode, slice_from, decode}
use xfuse.Codec.Encode.{bytes_eq}
use xfuse.Sb.{Sb, fsb_to_offset}
use xfuse.FileType.{enoent}
use xfuse.Dir.{
  Dir2DataEntry, Dir2LeafEntry, dir2_data_hdr_size, dir3_data_hdr_size, get_length, get_data_entry,
  get_data_unused, get_leaf_entry, get_dir2_data_hdr, get_dir3_data_hdr, get_block_tail,
}
use xfuse.Dir.Sf.{Dirent, kind_of}
use xfuse.Dir.Index.{get_addresses}
use xfuse.DaBtree.Hash.{hashname}

abbrev pub dir2_block_magic : ℕ
dir2_block_magic = 0x58443242

abbrev pub dir3_block_magic : ℕ
dir3_block_magic = 0x58444233

-- `SIZE` of `Dir2BlockTail` and `Dir2LeafEntry`.
abbrev pub block_tail_size : ℕ
block_tail_size = 8

abbrev pub leaf_entry_size : ℕ
leaf_entry_size = 8

-- `Dir2BlockDisk`; of the tail its count.
pub record Dir2BlockDisk : Type 0 where
  pub leaf : List Dir2LeafEntry
  pub count : ℕ
  pub raw : Bytes
  pub data_offset : ℕ

pub record Dir2Block : Type 0 where
  pub ents : List Dir2LeafEntry
  pub raw : Bytes
  pub data_offset : ℕ

-- `sb_blocksize << sb_dirblklog` of a u32.
abbrev pub dir_block_size : Sb → ℕ
dir_block_size sb = sb.sb_blocksize * 2 ^ (sb.sb_dirblklog % 32) % 2 ^ 32

module _ (bc : Bincode) where
  -- The match on the magic number: where the records begin.
  unfoldable pub get_data_offset : Bytes → Outcome ℕ ℕ
  get_data_offset raw = do
    magic ← decode (bc.uint 4) raw
    if magic == dir2_block_magic
        then (do
          hdr ← decode (get_dir2_data_hdr bc) raw
          assert (hdr == dir2_block_magic)
          ok dir2_data_hdr_size)
        else if magic == dir3_block_magic
        then (do
          hdr ← decode (get_dir3_data_hdr bc) raw
          assert (hdr == dir3_block_magic)
          ok dir3_data_hdr_size)
        else panic

  -- The loop that reads the index.
  unfoldable pub read_leaf : ℕ → Bytes → ℕ → Outcome ℕ (List Dir2LeafEntry)
  read_leaf zero raw leaf_offset = ok []
  read_leaf (suc n) raw leaf_offset = do
    bytes ← slice_from raw leaf_offset
    entry ← decode (get_leaf_entry bc) bytes
    rest ← read_leaf n raw (add64 leaf_offset leaf_entry_size)
    ok (entry ∷ rest)

  -- `Dir2BlockDisk::new`.
  unfoldable pub block_disk_new : Bytes → ℕ → ℕ → Outcome ℕ Dir2BlockDisk
  unfolding get_data_offset read_leaf
  block_disk_new device offset size = do
    assert (leb (offset + size) (length device))
    let raw = take size (drop offset device)
    data_offset ← get_data_offset raw
    let tail_offset = sub64 size block_tail_size
    bytes ← slice_from raw tail_offset
    count ← decode (get_block_tail bc) bytes
    leaf ← read_leaf count raw (sub64 tail_offset (mul64 leaf_entry_size count))
    ok (record { leaf = leaf; count = count; raw = raw; data_offset = data_offset })

  unfoldable pub get_data_len : Dir2BlockDisk → ℕ → ℕ
  get_data_len disk directory_block_size =
      sub64 (sub64 directory_block_size block_tail_size) (mul64 leaf_entry_size disk.count)

  -- `Dir2Block::new`.
  unfoldable pub block_new : Sb → Bytes → ℕ → Outcome ℕ Dir2Block
  unfolding block_disk_new get_data_len
  block_new sb device start_block = do
    let size = dir_block_size sb
    disk ← block_disk_new device (fsb_to_offset sb start_block) size
    let data_len = get_data_len disk size
    assert (leb data_len (length disk.raw))
    ok (record { ents = disk.leaf; raw = take data_len disk.raw; data_offset = disk.data_offset })

  module _ (sb : Sb) where
    -- The loop of `lookup`, over the addresses of the hash.
    unfoldable pub lookup_addresses : Bytes → Bytes → List ℕ → Outcome ℕ ℕ
    lookup_addresses raw name [] = err enoent
    lookup_addresses raw name (offset ∷ offsets) = do
      assert (ltb offset (length raw))
      entry ← decode (get_data_entry bc sb) (drop offset raw)
      let rest = lookup_addresses raw name offsets
      if bytes_eq entry.name name then ok entry.inumber else rest

    unfoldable pub block_lookup : Dir2Block → Bytes → Outcome ℕ ℕ
    unfolding lookup_addresses
    block_lookup dir name = lookup_addresses dir.raw name (get_addresses dir.ents (hashname name))

    -- The loop of `next`. A round passes over a record of a byte at least, so that fuel of the size of
    -- the records is enough; out of fuel is a panic.
    unfoldable pub next_rounds : ℕ → Bytes → Bool → ℕ → Outcome ℕ Dirent
    next_rounds zero raw next offset = if ltb offset (length raw) then panic else err enoent
    next_rounds (suc fuel) raw next offset =
        if ltb offset (length raw)
        then (do
          freetag ← decode (bc.uint 2) (drop offset raw)
          if freetag == 0xffff
              then (do
                len ← decode (get_data_unused bc) (drop offset raw)
                next_rounds fuel raw next (add64 offset len))
              else if next
              then (do
                entry ← decode (get_data_entry bc sb) (drop offset raw)
                kind ← kind_of entry.ftype
                ok (record {
                  ino = entry.inumber;
                  offset = entry.tag;
                  kind = kind;
                  name = entry.name;
                }))
              else (do
                len ← get_length bc sb (drop offset raw)
                next_rounds fuel raw true (add64 offset len)))
        else err enoent

    -- `next`; the cursor is the bit pattern of an i64.
    unfoldable pub block_next : Dir2Block → ℕ → Outcome ℕ Dirent
    unfolding next_rounds
    block_next dir offset = do
      assert (ltb offset (2 ^ 63))
      assert (ltb offset (length dir.raw))
      let from = if offset == 0 then offset + dir.data_offset else offset
      next_rounds (length dir.raw) dir.raw (offset == 0) from
