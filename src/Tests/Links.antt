-- ===== src/Tests/Links.antt =====
-- src/libxfuse/symlink_extent.rs on a target of two blocks with headers.
use xfuse.Base.{
  ℕ, ◌≡◌, refl, List, [], ◌∷◌, ◌++◌, none, inr, false, arith, ok, replicate, length, ◌-◌,
}
use xfuse.Codec.{Bytes, slice_reader, slice_reader-IsBigEndian}
use xfuse.Codec.Encode.{be_bytes}
use xfuse.Sb.{Sb, fsb_to_offset, version}
use xfuse.Bmbt.{Bmx, get_extent}
use xfuse.BlockReader.{open_reader}
use xfuse.Symlink.{get_target}
use xfuse.Symlink.Target.{IsTarget, get_target_lem}
use xfuse.Tests.Superblock as S

abbrev link_sb : Sb
link_sb = record S.sb {
  sb_blocksize = 512;
  sb_blocklog = 9;
  sb_agblocks = 4;
  sb_agcount = 1;
  sb_agblklog = 2;
  sb_versionnum = 5;
}

-- A header that tells the bytes to be `skip` bytes behind it.
abbrev link_block : ℕ → ℕ → Bytes → Bytes
link_block skip n bytes =
    be_bytes 4 0x58534c4d
    ++ (be_bytes 4 skip
        ++ (be_bytes 4 n ++ (replicate 44 0 ++ (bytes ++ replicate (456 - length bytes) 0))))

abbrev link_dev : Bytes
link_dev =
    replicate 512 9
    ++ (link_block 0 2 (0x61 ∷ 0x62 ∷ []) ++ (replicate 512 9 ++ link_block 1 1 (0x2f ∷ 0x63 ∷ [])))

abbrev link_bmx : Bmx
link_bmx =
    record { br_startoff = 0; br_startblock = 1; br_blockcount = 1; br_flag = false }
    ∷ record { br_startoff = 1; br_startblock = 3; br_blockcount = 1; br_flag = false }
    ∷ []

abbrev pieces : List (ℕ × ℕ × Bytes)
pieces = (1, 1, 0x61 ∷ 0x62 ∷ []) ∷ (3, 1, 0x63 ∷ []) ∷ []

pieces-IsTarget : IsTarget link_sb link_dev link_bmx 0 pieces
unfolding get_extent fsb_to_offset version
pieces-IsTarget = (
  refl,
  omega arith,
  inr (record {
    version_5 = refl;
    magic = refl;
    some_bytes = omega arith;
    within = omega arith;
    piece_bytes = refl;
  }),
  (
    refl,
    omega arith,
    inr (record {
      version_5 = refl;
      magic = refl;
      some_bytes = omega arith;
      within = omega arith;
      piece_bytes = refl;
    }),
    (none, refl),
  ),
)

get_target_lem_example :
    get_target slice_reader link_sb 3 (open_reader link_dev 512) link_bmx
    ≡ ok (0x61 ∷ 0x62 ∷ 0x63 ∷ [])
get_target_lem_example =
    get_target_lem link_sb link_dev slice_reader-IsBigEndian 4 512 (omega arith) pieces
      (0x61 ∷ 0x62 ∷ 0x63 ∷ []) [] 3 (open_reader link_dev 512) link_bmx (omega arith)
      (record { device = refl; whole = refl; positive = omega arith; sized = refl }) pieces-IsTarget
      refl (omega arith, (omega arith, (omega arith, tt))) tt
