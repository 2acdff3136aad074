-- ===== src/Dir.antt =====
-- src/libxfuse/dir3.rs: the records that a directory block holds, and how they are decoded.
pub mod Leaf
pub mod Directory
pub mod Index
pub mod Block
pub mod SfLaws
pub mod Entry
pub mod Sf
use xfuse.Base.{
  ℕ, ◌+◌, ◌-◌, ◌*◌, ◌/◌, ◌%◌, Option, none, some, ltb, ◌==◌, if◌then◌else◌, length, drop, Outcome,
  unwrap, map_ok,
}
use xfuse.Codec.{Bytes, Get, ◌>>=◌, ◌>>◌, pure, fail, Bincode, unexpected_end}
use xfuse.Sb.{Sb, has_ftype}

pub record Dir2DataEntry : Type 0 where
  pub inumber : ℕ
  pub name : Bytes
  pub ftype : Option ℕ
  pub tag : ℕ

pub record Dir2LeafEntry : Type 0 where
  pub hashval : ℕ
  pub address : ℕ

-- `SIZE` of `Dir2DataHdr` and `Dir3DataHdr`.
abbrev pub dir2_data_hdr_size : ℕ
dir2_data_hdr_size = 4 + 3 * 4

abbrev pub dir3_data_hdr_size : ℕ
dir3_data_hdr_size = 48 + 3 * 4 + 4

-- `(4 - namelen as i16).rem_euclid(8)`, or 5 for 4 without the type byte: 256 is a multiple of 8.
abbrev pub padding : Sb → ℕ → ℕ
padding sb namelen = if has_ftype sb then (4 + 256 - namelen) % 8 else (5 + 256 - namelen) % 8

module _ (bc : Bincode) where
  unfoldable pub get_length : Sb → Bytes → Outcome ℕ ℕ
  get_length sb raw =
      map_ok (λ (r : ℕ × Bytes). if has_ftype sb then (r.0 + 19) / 8 * 8 else (r.0 + 18) / 8 * 8)
        (unwrap (bc.uint 1 (drop 8 raw)))

  -- The optional file type byte.
  abbrev pub get_ftype : Sb → Get (Option ℕ)
  get_ftype sb = if has_ftype sb then (bc.uint 1 >>= λ t. pure (some t)) else pure none

  unfoldable pub get_data_entry : Sb → Get Dir2DataEntry
  get_data_entry sb = do
    inumber ← bc.uint 8
    namelen ← bc.uint 1
    name ← bc.read namelen
    ftype ← get_ftype sb
    bc.consume (padding sb namelen)
    tag ← bc.uint 2
    pure (record { inumber = inumber; name = name; ftype = ftype; tag = tag })

  -- `Decode for Dir2DataUnused`. A length below 6 wraps in `length as usize - 6`, nothing is left for
  -- the tag, and the decoding fails.
  unfoldable pub get_data_unused : Get ℕ
  get_data_unused = do
    _ ← bc.uint 2
    len ← bc.uint 2
    if ltb len 6 then fail unexpected_end else bc.consume (len - 6)
    _ ← bc.uint 2
    pure len

  unfoldable pub get_leaf_entry : Get Dir2LeafEntry
  get_leaf_entry = do
    hashval ← bc.uint 4
    address ← bc.uint 4
    pure (record { hashval = hashval; address = address })

  -- `Dir2BlockTail` of src/libxfuse/dir3_block.rs: of its two words the count is kept.
  unfoldable pub get_block_tail : Get ℕ
  get_block_tail = do count ← bc.uint 4; _ ← bc.uint 4; pure count

  -- `Dir3BlkHdr`, `Dir2DataHdr` and `Dir3DataHdr`: the magic number is what is kept.
  unfoldable pub get_dir2_data_hdr : Get ℕ
  get_dir2_data_hdr = do magic ← bc.uint 4; _ ← bc.uint 4; _ ← bc.uint 4; _ ← bc.uint 4; pure magic

  unfoldable pub get_dir3_data_hdr : Get ℕ
  get_dir3_data_hdr = do
    magic ← bc.uint 4
    _ ← bc.uint 4
    _ ← bc.uint 8
    _ ← bc.uint 8
    _ ← bc.read 16
    _ ← bc.uint 8
    _ ← bc.uint 4
    _ ← bc.uint 4
    _ ← bc.uint 4
    _ ← bc.uint 4
    pure magic
