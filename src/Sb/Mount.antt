-- ===== src/Sb/Mount.antt =====
-- `Sb::from` of src/libxfuse/sb.rs from the reads on: the checks, each of which panics when it fails.
-- The reader is the device's bytes; the CRC-32C of the crc crate is a parameter.
use xfuse.Base.{
  ℕ, ◌-◌, ◌%◌, ◌^◌, Bool, not, ◌&&◌, ◌||◌, [], ◌∷◌, ◌++◌, ltb, leb, ◌==◌, if◌then◌else◌, ◌≡◌, ◌≤◌,
  arith, length, take, drop, ◌+◌, Outcome, ok, panic, unwrap, ◌>>=◌, ◌>>◌, assert, leb→le,
  Bool-cases, inl, inr, true, false, refl,
}
use xfuse.Codec.{Bytes, Bincode, IsBigEndian, be, be_at, read_at}
use xfuse.Sb.{Sb, attr2, crc, meta_uuid, needs_repair, large_extent_counters}
use xfuse.Sb.Read.{Fields, get_fields}
use xfuse.Sb.Layout.{layout, get_fields-layout}
use mathlib.Core.List.{reverse}

abbrev pub xfs_sb_magic : ℕ
xfs_sb_magic = 0x58465342

-- The struct literal at the end of `Sb::from`.
abbrev pub of_fields : Fields → Sb
of_fields f = record {
  sb_blocksize = f.geometry.sb_blocksize;
  sb_dblocks = f.geometry.sb_dblocks;
  sb_uuid = f.geometry.sb_uuid;
  sb_rootino = f.geometry.sb_rootino;
  sb_agblocks = f.geometry.sb_agblocks;
  sb_agcount = f.geometry.sb_agcount;
  sb_logblocks = f.geometry.sb_logblocks;
  sb_versionnum = f.geometry.sb_versionnum;
  sb_inodesize = f.geometry.sb_inodesize;
  sb_blocklog = f.counts.sb_blocklog;
  sb_inodelog = f.counts.sb_inodelog;
  sb_inopblog = f.counts.sb_inopblog;
  sb_agblklog = f.counts.sb_agblklog;
  sb_icount = f.counts.sb_icount;
  sb_ifree = f.counts.sb_ifree;
  sb_fdblocks = f.counts.sb_fdblocks;
  sb_dirblklog = f.features.sb_dirblklog;
  sb_features2 = f.features.sb_features2;
  sb_features_incompat = f.features.sb_features_incompat;
}

-- The panics after the checksum is computed, in the source's order; the flags of
-- `SbFeaturesIncompat` are bits 0 to 5, and `SbFeaturesLogIncompat` has none.
abbrev feature_checks : Fields → ℕ → ℕ → Outcome ℕ Sb
feature_checks f digest sb_crc =
    let v = f.geometry.sb_versionnum % 16 in
    let features2 = f.features.sb_features2 in
    let incompat = f.features.sb_features_incompat in
    do
      assert (v == 4 || v == 5)
      assert (attr2 features2)
      assert (not (v == 5 && not (crc features2)))
      assert (not (crc features2 && not (digest == sb_crc)))
      assert (not (meta_uuid incompat))
      assert (not (needs_repair incompat))
      assert (not (large_extent_counters incompat))
      ok (of_fields f)

module _ (bc : Bincode) (crc32 : Bytes → ℕ) where
  -- The second pass over the sector, after `seek(SeekFrom::Start(0))`.
  abbrev checksum_pass : Bytes → Fields → Outcome ℕ Sb
  checksum_pass disk f = do
    (buf_bcrc, at_crc) ← unwrap (bc.read 224 disk)
    (crc_bytes, after_crc) ← unwrap (bc.read 4 at_crc)
    assert (leb 228 f.geometry.sb_sectsize)
    (buf_acrc, _) ← unwrap (bc.read (f.geometry.sb_sectsize - 228) after_crc)
    feature_checks f (crc32 (buf_bcrc ++ (0 ∷ 0 ∷ 0 ∷ 0 ∷ [] ++ buf_acrc))) (be (reverse crc_bytes))

  unfoldable pub from : Bytes → Outcome ℕ Sb
  from disk = do
    (f, _) ← unwrap (get_fields bc disk)
    assert (f.geometry.sb_magicnum == xfs_sb_magic)
    assert (ltb f.features.sb_features_incompat (2 ^ 6))
    assert (f.features.sb_features_log_incompat == 0)
    checksum_pass disk f

-- What makes a device mountable, told of its first sector.
module _ (crc32 : Bytes → ℕ) (disk : Bytes) where
  -- The sector with its checksum field zeroed.
  abbrev pub zeroed : Bytes
  zeroed = take 224 disk ++ (0 ∷ 0 ∷ 0 ∷ 0 ∷ [] ++ take (be_at disk 102 2 - 228) (drop 228 disk))

  abbrev pub checksum_holds : Bool
  checksum_holds = crc32 zeroed == be (reverse (take 4 (drop 224 disk)))

  abbrev pub supported : ℕ → ℕ → ℕ → Bool
  supported v features2 incompat =
      (v == 4 || v == 5)
      && (attr2 features2
          && (not (v == 5 && not (crc features2))
              && (not (crc features2 && not checksum_holds)
                  && (not (meta_uuid incompat)
                      && (not (needs_repair incompat) && not (large_extent_counters incompat))))))

  abbrev pub mountable : Bool
  mountable =
      be_at disk 0 4 == xfs_sb_magic
      && (ltb (be_at disk 216 4) (2 ^ 6)
          && (be_at disk 220 4 == 0
              && (leb 228 (be_at disk 102 2)
                  && supported (be_at disk 100 2 % 16) (be_at disk 200 4) (be_at disk 216 4))))

feature_checks_lem :
    (f : Fields) (digest stored : ℕ) (crc32 : Bytes → ℕ) (disk : Bytes)
    → digest ≡ crc32 (zeroed crc32 disk)
    → stored ≡ be (reverse (take 4 (drop 224 disk)))
    → feature_checks f digest stored ≡ (
        if supported crc32 disk
          (f.geometry.sb_versionnum % 16)
          f.features.sb_features2
          f.features.sb_features_incompat
        then ok (of_fields f)
        else panic)
feature_checks_lem f digest stored crc32 disk p q = ground arith

three_checks :
    (a b c d : Bool) (x : Sb)
    → (assert {E = ℕ} a >> (assert b >> (assert c >> (if d then ok x else panic))))
      ≡ (if a && (b && (c && d)) then ok x else panic)
three_checks true b c d x = ground arith
three_checks false b c d x = refl

module _ {bc : Bincode} (law : IsBigEndian bc) (crc32 : Bytes → ℕ) (disk : Bytes) where
  abbrev in_sector : Bool
  in_sector = leb 228 (be_at disk 102 2)

  abbrev features_hold : Bool
  features_hold = supported crc32 disk (be_at disk 100 2 % 16) (be_at disk 200 4) (be_at disk 216 4)

  checksum_pass_lem :
      228 ≤ length disk
      → be_at disk 102 2 ≤ length disk
      → checksum_pass bc crc32 disk (layout disk)
        ≡ (if in_sector && features_hold then ok (of_fields (layout disk)) else panic)
  checksum_pass_lem long fits =
      rw (read_at law disk 0 224 (omega arith), read_at law disk 224 4 (omega arith))
        (elim (Bool-cases in_sector) [
          | inl e ↦
              rw (e, read_at law disk 228 (be_at disk 102 2 - 228) (bound e))
                (feature_checks_lem (layout disk) _ _ crc32 disk refl refl)
          | inr e ↦ rw e
        ])
    where
      bound : in_sector ≡ true → 228 + (be_at disk 102 2 - 228) ≤ length disk
      bound e = omega (arith, leb→le _ _ e)

  -- On a device that holds the first sector (228 bytes at least, and as many as its sector size
  -- says), `Sb::from` returns the fields at their on-disk places if the device is mountable (magic,
  -- known features, version 4 or 5, the checksum where there is one, no unsupported feature), and
  -- panics if it is not.
  pub from_lem :
      228 ≤ length disk
      → be_at disk 102 2 ≤ length disk
      → from bc crc32 disk ≡ (if mountable crc32 disk then ok (of_fields (layout disk)) else panic)
  unfolding from
  from_lem long fits =
      rw (get_fields-layout law disk (omega arith), ◌>>=◌, checksum_pass_lem long fits)
        (three_checks (be_at disk 0 4 == xfs_sb_magic) (ltb (be_at disk 216 4) 64)
          (be_at disk 220 4 == 0) (in_sector && features_hold) (of_fields (layout disk)))
