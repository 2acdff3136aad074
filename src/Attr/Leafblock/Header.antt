-- ===== src/Attr/Leafblock/Header.antt =====
-- The header of a block of an attribute's value, `AttrRmtHdr` of src/libxfuse/attr.rs.
use xfuse.Base.{ℕ}
use xfuse.Codec.{Get, ◌>>=◌, pure, Bincode}

-- The size of the header on disk.
abbrev pub rmt_hdr_size : ℕ
rmt_hdr_size = 56

-- `AttrRmtHdr`, of which `rm_bytes` is used.
unfoldable pub get_rm_bytes : Bincode → Get ℕ
get_rm_bytes bc = do
  _ ← bc.uint 4
  _ ← bc.uint 4
  rm_bytes ← bc.uint 4
  _ ← bc.uint 4
  _ ← bc.uint 16
  _ ← bc.uint 8
  _ ← bc.uint 8
  _ ← bc.uint 8
  pure rm_bytes
