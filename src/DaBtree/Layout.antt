-- ===== src/DaBtree/Layout.antt =====
-- `XfsDa3Intnode` of src/libxfuse/da_btree.rs on disk.
use xfuse.Base.{
  ℕ, ◌+◌, ◌*◌, ◌≤◌, ◌≡◌, arith, length, take, drop, le→leb, ok, panic, ◌==◌, if◌then◌else◌,
  Bool-cases, inl, inr, ◌&&◌, err, length-drop, length-take, take-drop-take,
}
use xfuse.Codec.{Bytes, Bincode, IsBigEndian, be_at, uint_at, ◌>>=◌, bad_magic}
use xfuse.Codec.Rows.{rows, repeat_at}
use xfuse.Sb.{Sb}
use xfuse.DaBtree.Node.{
  da_node_magic, da3_node_magic, NodeEntry, Intnode, intnode, nothing, get_blkinfo, get_blkinfo3,
  get_node_hdr, get_node_hdr3, get_node_entry, peek_magic, get_intnode,
}

-- The entry at an offset, and the node whose entries begin at `off`.
abbrev pub entry_at : Bytes → ℕ → NodeEntry
entry_at raw k = record { hashval = be_at raw k 4; before = be_at raw (k + 4) 4 }

abbrev pub node_at : Bytes → ℕ → ℕ → ℕ → ℕ → Intnode
node_at raw magic count level off = intnode magic level (rows (entry_at raw) 8 off count) nothing

module _ {bc : Bincode} (law : IsBigEndian bc) (sb : Sb) (raw : Bytes) where
  get_node_entry_at :
      (k : ℕ)
      → k + 8 ≤ length raw
      → get_node_entry bc sb (drop k raw) ≡ ok (entry_at raw k, drop (k + 8) raw)
  unfolding get_node_entry
  get_node_entry_at k h =
      let e : k + 4 + 4 ≡ k + 8 = omega arith in
      rw (uint_at law raw k 4 (omega arith), uint_at law raw (k + 4) 4 (omega arith), e, ◌>>=◌)

  hdr_at :
      16 ≤ length raw
      → get_node_hdr bc sb raw
        ≡ ok (record { count = be_at raw 12 2; level = be_at raw 14 2 }, drop 16 raw)
  unfolding get_node_hdr get_blkinfo
  hdr_at h = rw (
    uint_at law raw 0 4 (omega arith),
    uint_at law raw 4 4 (omega arith),
    uint_at law raw 8 2 (omega arith),
    uint_at law raw 10 2 (omega arith),
    uint_at law raw 12 2 (omega arith),
    uint_at law raw 14 2 (omega arith),
    ◌>>=◌,
  )

  hdr3_at :
      64 ≤ length raw
      → get_node_hdr3 bc sb raw ≡ (
          if be_at raw 32 16 == sb.sb_uuid
          then (if be_at raw 8 2 == da3_node_magic
              then ok (record { count = be_at raw 56 2; level = be_at raw 58 2 }, drop 64 raw)
              else err bad_magic)
          else panic)
  unfolding get_node_hdr3 get_blkinfo3
  hdr3_at h =
      rw
        (
          uint_at law raw 0 4 (omega arith),
          uint_at law raw 4 4 (omega arith),
          uint_at law raw 8 2 (omega arith),
          uint_at law raw 10 2 (omega arith),
          uint_at law raw 12 4 (omega arith),
          uint_at law raw 16 8 (omega arith),
          uint_at law raw 24 8 (omega arith),
          uint_at law raw 32 16 (omega arith),
          uint_at law raw 48 8 (omega arith),
          ◌>>=◌,
        )
        (elim (Bool-cases (be_at raw 32 16 == sb.sb_uuid)) [
          | inr f ↦ rw f
          | inl t ↦ elim (Bool-cases (be_at raw 8 2 == da3_node_magic)) [
            | inr g ↦ rw (t, g)
            | inl u ↦ rw (
              t,
              u,
              uint_at law raw 56 2 (omega arith),
              uint_at law raw 58 2 (omega arith),
              uint_at law raw 60 4 (omega arith),
              ◌>>=◌,
            )
          ]
        ])

  pub peek_magic_at : 10 ≤ length raw → peek_magic bc sb raw ≡ ok (be_at raw 8 2, raw)
  unfolding peek_magic
  peek_magic_at h =
      let size : 2 ≤ length (drop 8 (take 10 raw)) =
        omega (arith, length-drop 8 (take 10 raw), length-take 10 raw) in
      rw (
        le→leb 10 (length raw) h,
        law.uint_ok 2 (drop 8 (take 10 raw)) size,
        take-drop-take 8 2 10 raw (omega arith),
      )

  -- A node that lies in the input whole is decoded from its places, by its magic number: that of
  -- either format version, where version 5 also asks for the UUID of the volume and panics without
  -- it, as any other magic number does.
  pub get_intnode_lem :
      64 ≤ length raw
      → 16 + be_at raw 12 2 * 8 ≤ length raw
      → 64 + be_at raw 56 2 * 8 ≤ length raw
      → get_intnode bc sb raw ≡ (
          if be_at raw 8 2 == da_node_magic
          then ok (
            node_at raw (be_at raw 8 2) (be_at raw 12 2) (be_at raw 14 2) 16,
            drop (16 + be_at raw 12 2 * 8) raw,
          )
          else if be_at raw 8 2 == da3_node_magic && be_at raw 32 16 == sb.sb_uuid
          then ok (
            node_at raw (be_at raw 8 2) (be_at raw 56 2) (be_at raw 58 2) 64,
            drop (64 + be_at raw 56 2 * 8) raw,
          )
          else panic)
  unfolding get_intnode
  get_intnode_lem long fits fits3 =
      rw (peek_magic_at (omega arith), ◌>>=◌)
        (elim (Bool-cases (be_at raw 8 2 == da_node_magic)) [
          | inl t ↦ rw (
            t,
            hdr_at (omega arith),
            repeat_at (get_node_entry bc sb) (entry_at raw) 8 raw get_node_entry_at (be_at raw 12 2)
                16 fits,
            ◌>>=◌,
          )
          | inr f ↦ elim (Bool-cases (be_at raw 8 2 == da3_node_magic)) [
            | inr g ↦ rw (f, g)
            | inl u ↦ elim (Bool-cases (be_at raw 32 16 == sb.sb_uuid)) [
              | inr v ↦ rw (f, u, hdr3_at long, v, ◌>>=◌)
              | inl v ↦ rw (
                f,
                u,
                hdr3_at long,
                v,
                u,
                repeat_at (get_node_entry bc sb) (entry_at raw) 8 raw get_node_entry_at
                    (be_at raw 56 2) 64 fits3,
                ◌>>=◌,
              )
            ]
          ]
        ])
