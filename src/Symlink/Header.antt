-- ===== src/Symlink/Header.antt =====
-- The header of a block of a symbolic link's target, `DsymlinkHdr` of src/libxfuse/symlink_extent.rs.
use xfuse.Base.{ℕ, ◌≤◌, ◌≡◌, refl, arith, length, ok}
use xfuse.Codec.{Bytes, Bincode, IsBigEndian, Get, pure, be_at, uint_at, read_at, decode, ◌>>=◌}

abbrev pub symlink_magic : ℕ
symlink_magic = 0x58534c4d

-- The size of a header on disk.
abbrev pub symlink_hdr_size : ℕ
symlink_hdr_size = 56

pub record DsymlinkHdr : Type 0 where
  pub sl_magic : ℕ
  pub sl_offset : ℕ
  pub sl_bytes : ℕ

unfoldable pub get_symlink_hdr : Bincode → Get DsymlinkHdr
get_symlink_hdr bc = do
  magic ← bc.uint 4
  offset ← bc.uint 4
  bytes ← bc.uint 4
  _ ← bc.uint 4
  _ ← bc.read 16
  _ ← bc.uint 8
  _ ← bc.uint 8
  _ ← bc.uint 8
  pure (record { sl_magic = magic; sl_offset = offset; sl_bytes = bytes })

module _ {bc : Bincode} (law : IsBigEndian bc) where
  pub get_symlink_hdr_lem :
      (bs : Bytes)
      → 56 ≤ length bs
      → decode (get_symlink_hdr bc) bs
        ≡ ok (record { sl_magic = be_at bs 0 4; sl_offset = be_at bs 4 4; sl_bytes = be_at bs 8 4 })
  unfolding get_symlink_hdr
  get_symlink_hdr_lem bs h =
      rw
        (
          uint_at law bs 0 4 (omega arith),
          uint_at law bs 4 4 (omega arith),
          uint_at law bs 8 4 (omega arith),
          uint_at law bs 12 4 (omega arith),
          read_at law bs 16 16 (omega arith),
          uint_at law bs 32 8 (omega arith),
          uint_at law bs 40 8 (omega arith),
          uint_at law bs 48 8 (omega arith),
          ◌>>=◌,
        )
        refl
