-- ===== src/Dir/Block/New.antt =====
-- `Dir2Block::new` of src/libxfuse/dir3_block.rs: a block directory is read from its block.
use xfuse.Base.{
  subst, ℕ, zero, suc, ◌+◌, ◌-◌, ◌*◌, ◌^◌, ◌≤◌, ◌<◌, ◌≡◌, refl, sym, ◌∙◌, ◌==◌, if◌then◌else◌,
  arith, length, length-drop, length-take, take, drop, le→leb, Bool-cases, inl, inr, ok, panic,
  ◌>>=◌, add64_small, sub64, sub64_small, mul64, mul64_small,
}
use xfuse.Codec.{Bytes, Bincode, IsBigEndian, be_at, uint_at, read_at, slice_from, decode}
use xfuse.Codec as C
use xfuse.Codec.Rows.{rows}
use xfuse.Sb.{Sb, fsb_to_offset}
use xfuse.Dir.{
  Dir2LeafEntry, dir2_data_hdr_size, dir3_data_hdr_size, get_leaf_entry, get_dir2_data_hdr,
  get_dir3_data_hdr, get_block_tail,
}
use xfuse.Dir.Block.{
  Dir2Block, dir2_block_magic, dir3_block_magic, get_data_offset, read_leaf, block_disk_new,
  get_data_len, dir_block_size, block_new,
}

-- The index entry at an offset.
abbrev pub leaf_at : Bytes → ℕ → Dir2LeafEntry
leaf_at raw k = record { hashval = be_at raw k 4; address = be_at raw (k + 4) 4 }

module _ {bc : Bincode} (law : IsBigEndian bc) (raw : Bytes) (small : length raw < 2 ^ 63) where
  leaf_entry_at :
      (k : ℕ) → k + 8 ≤ length raw → decode (get_leaf_entry bc) (drop k raw) ≡ ok (leaf_at raw k)
  unfolding get_leaf_entry
  leaf_entry_at k h =
      rw (uint_at law raw k 4 (omega arith), uint_at law raw (k + 4) 4 (omega arith), C.◌>>=◌)

  read_leaf_at :
      (n off : ℕ)
      → off + n * 8 ≤ length raw
      → read_leaf bc n raw off ≡ ok (rows (leaf_at raw) 8 off n)
  unfolding read_leaf
  read_leaf_at zero off h = refl
  read_leaf_at (suc n) off h = rw (
    le→leb off (length raw) (omega arith),
    leaf_entry_at off (omega arith),
    add64_small off 8 (omega arith),
    read_leaf_at n (off + 8) (omega arith),
    ◌>>=◌,
  )

  hdr2_at : 64 ≤ length raw → decode (get_dir2_data_hdr bc) raw ≡ ok (be_at raw 0 4)
  unfolding get_dir2_data_hdr
  hdr2_at h = rw (
    uint_at law raw 0 4 (omega arith),
    uint_at law raw 4 4 (omega arith),
    uint_at law raw 8 4 (omega arith),
    uint_at law raw 12 4 (omega arith),
    C.◌>>=◌,
  )

  hdr3_at : 64 ≤ length raw → decode (get_dir3_data_hdr bc) raw ≡ ok (be_at raw 0 4)
  unfolding get_dir3_data_hdr
  hdr3_at h = rw (
    uint_at law raw 0 4 (omega arith),
    uint_at law raw 4 4 (omega arith),
    uint_at law raw 8 8 (omega arith),
    uint_at law raw 16 8 (omega arith),
    read_at law raw 24 16 (omega arith),
    uint_at law raw 40 8 (omega arith),
    uint_at law raw 48 4 (omega arith),
    uint_at law raw 52 4 (omega arith),
    uint_at law raw 56 4 (omega arith),
    uint_at law raw 60 4 (omega arith),
    C.◌>>=◌,
  )

  data_offset_at :
      64 ≤ length raw
      → get_data_offset bc raw ≡ (
          if be_at raw 0 4 == dir2_block_magic
          then ok dir2_data_hdr_size
          else if be_at raw 0 4 == dir3_block_magic
          then ok dir3_data_hdr_size
          else panic)
  unfolding get_data_offset
  data_offset_at h =
      rw (uint_at law raw 0 4 (omega arith))
        (elim (Bool-cases (be_at raw 0 4 == dir2_block_magic)) [
          | inl t ↦ rw (t, hdr2_at h, t, ◌>>=◌)
          | inr f ↦ elim (Bool-cases (be_at raw 0 4 == dir3_block_magic)) [
            | inl u ↦ rw (f, u, hdr3_at h, u, ◌>>=◌)
            | inr g ↦ rw (f, g)
          ]
        ])

  tail_at :
      (k : ℕ) → k + 8 ≤ length raw → decode (get_block_tail bc) (drop k raw) ≡ ok (be_at raw k 4)
  unfolding get_block_tail
  tail_at k h =
      rw (uint_at law raw k 4 (omega arith), uint_at law raw (k + 4) 4 (omega arith), C.◌>>=◌)

-- Where the index begins, and the directory whose records begin at `start`.
abbrev pub index_offset : Bytes → ℕ
index_offset raw = length raw - 8 - 8 * be_at raw (length raw - 8) 4

abbrev pub block_at : Bytes → ℕ → Dir2Block
block_at raw start = record {
  ents = rows (leaf_at raw) 8 (index_offset raw) (be_at raw (length raw - 8) 4);
  raw = take (index_offset raw) raw;
  data_offset = start;
}

module _ {bc : Bincode} (law : IsBigEndian bc) (sb : Sb) (device : Bytes) (start_block : ℕ) where
  abbrev block_bytes : Bytes
  block_bytes = take (dir_block_size sb) (drop (fsb_to_offset sb start_block) device)

  length-block_bytes :
      fsb_to_offset sb start_block + dir_block_size sb ≤ length device
      → length block_bytes ≡ dir_block_size sb
  length-block_bytes on_device = omega (
    arith,
    length-take (dir_block_size sb) (drop (fsb_to_offset sb start_block) device),
    length-drop (fsb_to_offset sb start_block) device,
  )

  built :
      (raw : Bytes) (size data_offset : ℕ)
      → raw ≡ take size (drop (fsb_to_offset sb start_block) device)
      → size ≡ dir_block_size sb
      → length raw ≡ size
      → size < 2 ^ 63
      → fsb_to_offset sb start_block + size ≤ length device
      → 8 + 8 * be_at raw (length raw - 8) 4 ≤ length raw
      → get_data_offset bc raw ≡ ok data_offset
      → block_new bc sb device start_block ≡ ok (block_at raw data_offset)
  unfolding block_new block_disk_new get_data_len
  built raw size data_offset e es len small on_device fits start =
      let count = be_at raw (length raw - 8) 4 in
      let last : sub64 size 8 ≡ length raw - 8 =
        sub64_small size 8 (omega arith) (omega arith) ∙ omega arith in
      let wide : mul64 8 count ≡ 8 * count = mul64_small 8 count (omega arith) in
      let index : sub64 (length raw - 8) (8 * count) ≡ index_offset raw =
        sub64_small (length raw - 8) (8 * count) (omega arith) (omega arith) in
      rw (
        sym es,
        le→leb (fsb_to_offset sb start_block + size) (length device) on_device,
        sym e,
        start,
        last,
        le→leb (length raw - 8) (length raw) (omega arith),
        tail_at law raw (omega arith) (length raw - 8) (omega arith),
        wide,
        index,
        read_leaf_at law raw (omega arith) count (index_offset raw) (omega arith),
        wide,
        index,
        le→leb (index_offset raw) (length raw) (omega arith),
        ◌>>=◌,
      )

  refused :
      (raw : Bytes) (size : ℕ)
      → raw ≡ take size (drop (fsb_to_offset sb start_block) device)
      → size ≡ dir_block_size sb
      → fsb_to_offset sb start_block + size ≤ length device
      → get_data_offset bc raw ≡ panic
      → block_new bc sb device start_block ≡ panic
  unfolding block_new block_disk_new
  refused raw size e es on_device start = rw (
    sym es,
    le→leb (fsb_to_offset sb start_block + size) (length device) on_device,
    sym e,
    start,
    ◌>>=◌,
  )

  -- A directory block that lies on the device whole, and whose index and tail leave room for the header,
  -- is read into the index before its tail, the bytes before the index, and the place of the first
  -- record, by the magic number of either format version; any other magic number is a panic.
  pub block_new_lem :
      fsb_to_offset sb start_block + dir_block_size sb ≤ length device
      → 72 + 8 * be_at block_bytes (dir_block_size sb - 8) 4 ≤ dir_block_size sb
      → block_new bc sb device start_block ≡ (
          if be_at block_bytes 0 4 == dir2_block_magic
          then ok (block_at block_bytes dir2_data_hdr_size)
          else if be_at block_bytes 0 4 == dir3_block_magic
          then ok (block_at block_bytes dir3_data_hdr_size)
          else panic)
  block_new_lem on_device room =
      let len = length-block_bytes on_device in
      let limit : dir_block_size sb < 2 ^ 32 = omega arith in
      let start = data_offset_at law block_bytes (omega arith) (omega arith) in
      let room' : 8 + 8 * be_at block_bytes (length block_bytes - 8) 4 ≤ length block_bytes =
        subst (λ z. 8 + 8 * be_at block_bytes (z - 8) 4 ≤ z) (sym len) (omega arith) in
      elim (Bool-cases (be_at block_bytes 0 4 == dir2_block_magic)) [
        | inl t ↦ rw t (
            built block_bytes (dir_block_size sb) dir2_data_hdr_size refl refl len (omega arith)
              on_device room' (rw t at start))
        | inr f ↦ elim (Bool-cases (be_at block_bytes 0 4 == dir3_block_magic)) [
          | inl u ↦
              rw (f, u)
                (built block_bytes (dir_block_size sb) dir3_data_hdr_size refl refl len
                  (omega arith) on_device room' (rw (f, u) at start))
          | inr g ↦
              rw (f, g)
                (refused block_bytes (dir_block_size sb) refl refl on_device (rw (f, g) at start))
        ]
      ]
