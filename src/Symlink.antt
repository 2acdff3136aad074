-- ===== src/Symlink.antt =====
-- Symbolic links whose target is in blocks: `get_target` of src/libxfuse/symlink_extent.rs.
pub mod Header
pub mod Target
use xfuse.Base.{
  ℕ, zero, suc, ◌≡◌, List, [], ◌∷◌, ◌++◌, Option, none, some, ◌==◌, if◌then◌else◌, add64, shl64,
  Outcome, ok, err, panic, ◌>>=◌, ◌>>◌, assert, unwrap, expect_some,
}
use xfuse.Codec.{Bytes, Bincode, decode}
use xfuse.Symlink.Header.{symlink_magic, symlink_hdr_size, get_symlink_hdr}
use xfuse.Sb.{Sb, fsb_to_offset, version}
use xfuse.Bmbt.{Bmx, get_extent}
use xfuse.BlockReader.{BlockReader, start, current, seek, read_exact}

-- `CString::new`, and where the bytes have a NUL the truncation before the first; the assertion on the
-- version is a debug assertion.
unfoldable pub c_string : Bytes → Bytes
c_string [] = []
c_string (b ∷ bs) = let rest = c_string bs in if b == 0 then [] else b ∷ rest

module _ (bc : Bincode) (sb : Sb) where
  -- The match on the version: how many bytes of the target follow, and the reader in front of them.
  -- `decode_from` takes the header's bytes from the reader, and a short read is a panic either way.
  unfoldable pub piece_size : BlockReader → ℕ → Outcome ℕ (ℕ × BlockReader)
  piece_size r blocks =
      if version sb == 5
      then (do
        (raw, r1) ← unwrap (read_exact r symlink_hdr_size)
        hdr ← decode (get_symlink_hdr bc) raw
        assert (hdr.sl_magic == symlink_magic)
        (pos, r2) ← unwrap (seek r1 (current hdr.sl_offset))
        ok (hdr.sl_bytes, r2))
      else if version sb == 4
      then ok (shl64 blocks sb.sb_blocklog, r)
      else panic

  -- The loop over the extents; out of fuel is a panic.
  unfoldable pub target_loop : ℕ → BlockReader → Bmx → ℕ → Bytes → Outcome ℕ Bytes
  unfolding piece_size
  target_loop zero r bmx dblock target = panic
  target_loop (suc fuel) r bmx dblock target = get_extent bmx dblock >>= λ extent.
      let rest = λ (r' : BlockReader) (d : ℕ) (t : Bytes). target_loop fuel r' bmx d t in
      elim extent.0 [
        | none ↦ ok target
        | some fsb ↦ do
          blocks ← expect_some extent.1
          (pos, r1) ← unwrap (seek r (start (fsb_to_offset sb fsb)))
          (bytes, r2) ← piece_size r1 blocks
          (piece, r3) ← unwrap (read_exact r2 bytes)
          rest r3 (add64 dblock blocks) (target ++ piece)
      ]

  unfoldable pub get_target : ℕ → BlockReader → Bmx → Outcome ℕ Bytes
  unfolding target_loop c_string
  get_target fuel r bmx = do target ← target_loop fuel r bmx 0 []; ok (c_string target)
