-- ===== src/Inode/Dinode/Address.antt =====
-- The places of inodes on the device in src/libxfuse/dinode.rs.
use xfuse.Base.{
  ℕ, ◌+◌, ◌*◌, ◌/◌, ◌%◌, ◌^◌, ◌≤◌, ◌<◌, ◌≡◌, sym, ap, ◌∙◌, arith, lt→ltb, u64_mod, add64, mul64,
  pos_pow, pow_sum, quotients, ok, inl, inr,
}
use xfuse.Sb.{Sb}
use xfuse.Sb.Address.{IsGeometry, IsBlock, linear, linear-lt, linear_mono, next_le, le_times}
use xfuse.Inode.Dinode.{inode_offset}
use native.Mathlib.Nat.{div-div-eq-div-mul, mod-eq_of_lt}

-- The inodes fill whole blocks, and an inode number fits in a word.
pub record IsInodeGeometry (sb : Sb) : Type 0 where
  pub blocks : IsGeometry sb
  pub packed : sb.sb_inopblog + sb.sb_inodelog ≡ sb.sb_blocklog

-- The block of an inode.
abbrev pub block_of_inode : Sb → ℕ → ℕ
block_of_inode sb ino = ino / 2 ^ sb.sb_inopblog

-- The place of an inode, told without words: its block's, and its own in the block.
abbrev pub inode_place : Sb → ℕ → ℕ
inode_place sb ino =
    linear sb (block_of_inode sb ino) * 2 ^ sb.sb_blocklog
    + ino % 2 ^ sb.sb_inopblog * 2 ^ sb.sb_inodelog

-- The sum of `inode_offset`, where nothing wraps.
words :
    (q b r s p i : ℕ)
    → 0 < p
    → (q * b + r) * p + s * i < u64_mod
    → add64 (add64 (mul64 q b * p % u64_mod) (r * p % u64_mod)) (s * i % u64_mod)
      ≡ (q * b + r) * p + s * i
words q b r s p i pos fit =
    let spread : (q * b + r) * p ≡ q * b * p + r * p = grind arith in
    let le = le_times (q * b) p pos in
    let small : mul64 q b ≡ q * b = mod-eq_of_lt (omega (arith, le, spread, fit)) in
    rw small (omega (arith, spread, fit))

module _ (sb : Sb) (geo : IsInodeGeometry sb) where
  block_size : 2 ^ sb.sb_blocklog ≡ 2 ^ sb.sb_inopblog * 2 ^ sb.sb_inodelog
  block_size = ap (λ k. 2 ^ k) (sym geo.packed) ∙ pow_sum sb.sb_inopblog sb.sb_inodelog

  -- An inode lies in its block.
  inside_block :
      (ino : ℕ)
      → ino % 2 ^ sb.sb_inopblog * 2 ^ sb.sb_inodelog + 2 ^ sb.sb_inodelog ≤ 2 ^ sb.sb_blocklog
  inside_block ino =
      let lt : ino % 2 ^ sb.sb_inopblog < 2 ^ sb.sb_inopblog =
        grind (arith, pos_pow sb.sb_inopblog) in
      omega (
        arith,
        block_size,
        next_le (ino % 2 ^ sb.sb_inopblog) (2 ^ sb.sb_inopblog) (2 ^ sb.sb_inodelog) lt,
      )

  place_fits :
      (ino : ℕ)
      → IsBlock sb (block_of_inode sb ino)
      → inode_place sb ino + 2 ^ sb.sb_inodelog < u64_mod
  place_fits ino b =
      let below = linear-lt sb (block_of_inode sb ino) b in
      let row =
        next_le (linear sb (block_of_inode sb ino)) (sb.sb_agcount * sb.sb_agblocks)
          (2 ^ sb.sb_blocklog) below in
      omega (arith, row, inside_block ino, geo.blocks.device_fits)

  inode_offset_lem :
      (ino : ℕ) → IsBlock sb (block_of_inode sb ino) → inode_offset sb ino ≡ ok (inode_place sb ino)
  unfolding inode_offset
  inode_offset_lem ino b =
      let p = sb.sb_inopblog in
      let a = sb.sb_agblklog in
      let high : (a + p) % 256 % 64 ≡ p + a =
        omega (arith, geo.packed, geo.blocks.blocklog_high, geo.blocks.agblklog_high) in
      let p_word : p % 64 ≡ p = omega (arith, geo.packed, geo.blocks.blocklog_high) in
      let a_word : a % 64 ≡ a = omega (arith, geo.blocks.agblklog_high) in
      let bl_word : sb.sb_blocklog % 64 ≡ sb.sb_blocklog =
        omega (arith, geo.blocks.blocklog_high) in
      let il_word : sb.sb_inodelog % 64 ≡ sb.sb_inodelog =
        omega (arith, geo.packed, geo.blocks.blocklog_high) in
      let group : ino / 2 ^ (p + a) ≡ ino / 2 ^ p / 2 ^ a =
        ap (λ z. ino / z) (pow_sum p a) ∙ sym (div-div-eq-div-mul ino (2 ^ p) (2 ^ a)) in
      rw (high, p_word, a_word, bl_word, il_word, group, lt→ltb _ _ b.group)
        (ap ok (
          words (ino / 2 ^ p / 2 ^ a) sb.sb_agblocks (ino / 2 ^ p % 2 ^ a) (ino % 2 ^ p)
            (2 ^ sb.sb_blocklog) (2 ^ sb.sb_inodelog) (pos_pow sb.sb_blocklog)
            (omega (arith, place_fits ino b))))

  place_disjoint :
      (ino ino' : ℕ)
      → IsBlock sb (block_of_inode sb ino)
      → IsBlock sb (block_of_inode sb ino')
      → ino < ino'
      → inode_place sb ino + 2 ^ sb.sb_inodelog ≤ inode_place sb ino'
  place_disjoint ino ino' b b' lt = elim (quotients (2 ^ sb.sb_inopblog) ino ino' (pos_pow _) lt) [
    | inl later ↦ omega (
      arith,
      inside_block ino,
      next_le (linear sb (block_of_inode sb ino)) (linear sb (block_of_inode sb ino'))
          (2 ^ sb.sb_blocklog)
          (linear_mono sb (block_of_inode sb ino) (block_of_inode sb ino') b later),
    )
    | inr (same, next) ↦
        let row =
          next_le (ino % 2 ^ sb.sb_inopblog) (ino' % 2 ^ sb.sb_inopblog) (2 ^ sb.sb_inodelog)
            next in
        rw same (omega (arith, row))
  ]

  -- For a superblock of valid geometry whose inodes fill whole blocks, an inode whose number names a
  -- block of the device is read at its place in that block, and nothing wraps; two such inodes never
  -- overlap: their places keep the order of their numbers and lie at least an inode apart.
  pub inode_offset_disjoint :
      (ino ino' : ℕ)
      → IsBlock sb (block_of_inode sb ino)
      → IsBlock sb (block_of_inode sb ino')
      → ino < ino'
      → (inode_offset sb ino ≡ ok (inode_place sb ino))
        × (inode_offset sb ino' ≡ ok (inode_place sb ino'))
        × (inode_place sb ino + 2 ^ sb.sb_inodelog ≤ inode_place sb ino')
        × (inode_place sb ino' + 2 ^ sb.sb_inodelog
            ≤ sb.sb_agcount * sb.sb_agblocks * 2 ^ sb.sb_blocklog)
  inode_offset_disjoint ino ino' b b' lt = (
    inode_offset_lem ino b,
    inode_offset_lem ino' b',
    place_disjoint ino ino' b b' lt,
    omega (
      arith,
      inside_block ino',
      next_le (linear sb (block_of_inode sb ino')) (sb.sb_agcount * sb.sb_agblocks)
          (2 ^ sb.sb_blocklog) (linear-lt sb (block_of_inode sb ino') b'),
    ),
  )
