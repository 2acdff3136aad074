-- ===== src/Sb/Address.antt =====
-- The addresses of src/libxfuse/sb.rs: `fsb_to_daddr` and `fsb_to_offset`.
use xfuse.Base.{
  ℕ, ◌+◌, ◌-◌, ◌*◌, ◌/◌, ◌%◌, ◌^◌, ◌≤◌, ◌<◌, ◌≡◌, ap, ◌∙◌, sym, arith, u64_mod, inl, inr,
}
use xfuse.Sb.{Sb, fsb_to_daddr, fsb_to_offset}
use native.Mathlib.Nat.{mod-eq_of_lt}
use xfuse.Base.{pos_pow, index_lt, row_major, quotients, mul_lt, pow_nine}

-- The superblock's geometry: blocks of 512 bytes to 64 KiB, allocation groups that are addressed by
-- `sb_agblklog` bits, and a device below 2^63 bytes.
pub record IsGeometry (sb : Sb) : Type 0 where
  pub blocklog_low : 9 ≤ sb.sb_blocklog
  pub blocklog_high : sb.sb_blocklog ≤ 16
  pub agblklog_high : sb.sb_agblklog ≤ 32
  pub agblocks_fit : sb.sb_agblocks ≤ 2 ^ sb.sb_agblklog
  pub device_fits : sb.sb_agcount * sb.sb_agblocks * 2 ^ sb.sb_blocklog < u64_mod

-- A file system block number that names a block of the device: the group number in the high bits and
-- the block within the group in the low `sb_agblklog` bits.
pub record IsBlock (sb : Sb) (fsb : ℕ) : Type 0 where
  pub group : fsb / 2 ^ sb.sb_agblklog < sb.sb_agcount
  pub within : fsb % 2 ^ sb.sb_agblklog < sb.sb_agblocks

-- The block's number on the device, counted without the gaps between groups.
abbrev pub linear : Sb → ℕ → ℕ
linear sb fsb = fsb / 2 ^ sb.sb_agblklog * sb.sb_agblocks + fsb % 2 ^ sb.sb_agblklog

pub linear-lt :
    (sb : Sb) (fsb : ℕ) → IsBlock sb fsb → linear sb fsb < sb.sb_agcount * sb.sb_agblocks
linear-lt sb fsb b = index_lt _ _ _ _ b.group b.within

pub linear_mono : (sb : Sb) (f g : ℕ) → IsBlock sb f → f < g → linear sb f < linear sb g
linear_mono sb f g b h = elim (quotients (2 ^ sb.sb_agblklog) f g (pos_pow _) h) [
  | inl lt ↦ row_major _ _ _ _ _ b.within lt
  | inr (e, lt) ↦ rw e (omega arith)
]

pub next_le : (a b p : ℕ) → a < b → a * p + p ≤ b * p
next_le a b p h = grind arith

pub le_times : (s p : ℕ) → 0 < p → s ≤ s * p
le_times s p h = grind arith

wrap_free :
    (x y p : ℕ)
    → 0 < p
    → (x + y) * (p * 2 ^ 9) < u64_mod
    → ((x % u64_mod + y) % u64_mod * p % u64_mod ≡ (x + y) * p)
      × ((x + y) * p * 2 ^ 9 % u64_mod ≡ (x + y) * (p * 2 ^ 9))
wrap_free x y p h f =
    (ap (λ s. s * p % u64_mod) (small ∙ small') ∙ mod-eq_of_lt (omega arith), omega arith)
  where
    small : (x % u64_mod + y) % u64_mod ≡ (x + y) % u64_mod
    small = omega arith

    small' : (x + y) % u64_mod ≡ x + y
    small' = mod-eq_of_lt (omega (arith, le_times (x + y) p h))

module _ (sb : Sb) (geo : IsGeometry sb) (fsb : ℕ) (b : IsBlock sb fsb) where
  bytes_fit : linear sb fsb * 2 ^ sb.sb_blocklog < u64_mod
  bytes_fit = mul_lt _ _ _ _ (linear-lt sb fsb b) geo.device_fits

  shift_split : 2 ^ sb.sb_blocklog ≡ 2 ^ (sb.sb_blocklog - 9) * 2 ^ 9
  shift_split = ap (λ n. 2 ^ n) back ∙ pow_nine (sb.sb_blocklog - 9)
    where
      back : sb.sb_blocklog ≡ sb.sb_blocklog - 9 + 9
      back = omega (arith, geo.blocklog_low)

  -- In 512-byte units, and without the wrap-around of the machine words.
  fsb_to_daddr_lem : fsb_to_daddr sb fsb ≡ linear sb fsb * 2 ^ (sb.sb_blocklog - 9)
  unfolding fsb_to_daddr
  fsb_to_daddr_lem =
      rw (word, gap)
        (wrap_free (fsb / 2 ^ sb.sb_agblklog * sb.sb_agblocks) (fsb % 2 ^ sb.sb_agblklog)
          (2 ^ (sb.sb_blocklog - 9)) (pos_pow _) (rw shift_split at bytes_fit)).0
    where
      word : sb.sb_agblklog % 64 ≡ sb.sb_agblklog
      word = mod-eq_of_lt (omega (arith, geo.agblklog_high))

      gap : (sb.sb_blocklog + 256 - 9) % 256 % 64 ≡ sb.sb_blocklog - 9
      gap = omega (arith, geo.blocklog_low, geo.blocklog_high)

  -- On a device of the superblock's geometry the block with a given number begins at its linear number
  -- times the block size: nothing wraps.
  pub fsb_to_offset_lem : fsb_to_offset sb fsb ≡ linear sb fsb * 2 ^ sb.sb_blocklog
  unfolding fsb_to_offset
  fsb_to_offset_lem = rw fsb_to_daddr_lem (
      (wrap_free (fsb / 2 ^ sb.sb_agblklog * sb.sb_agblocks) (fsb % 2 ^ sb.sb_agblklog)
        (2 ^ (sb.sb_blocklog - 9)) (pos_pow _) (rw shift_split at bytes_fit)).1
      ∙ ap (λ p. linear sb fsb * p) (sym shift_split))

-- For a superblock of valid geometry, two different blocks of the device never overlap: their
-- offsets keep the order of their numbers and lie at least a block size apart.
pub fsb_to_offset_disjoint :
    (sb : Sb) (f g : ℕ)
    → IsGeometry sb
    → IsBlock sb f
    → IsBlock sb g
    → f < g
    → fsb_to_offset sb f + 2 ^ sb.sb_blocklog ≤ fsb_to_offset sb g
fsb_to_offset_disjoint sb f g geo bf bg h =
    rw (fsb_to_offset_lem sb geo f bf, fsb_to_offset_lem sb geo g bg)
      (next_le _ _ _ (linear_mono sb f g bf h))
