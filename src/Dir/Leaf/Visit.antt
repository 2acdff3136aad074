-- ===== src/Dir/Leaf/Visit.antt =====
-- The offsets of `next` of src/libxfuse/dir3_lf.rs, and a round of it at an offset of a block that the device
-- holds.
use xfuse.Base.{
  ℕ, zero, suc, ◌+◌, ◌-◌, ◌*◌, ◌/◌, ◌%◌, ◌^◌, ◌<◌, ◌≡◌, sym, ap, ◌∙◌, subst, ltb, lt→ltb, arith,
  length, Bool, ok, map_ok, bind_ok, ◌>>=◌, pos_pow, pow_sum, if◌then◌else◌,
}
use xfuse.Codec.{Bytes, Bincode}
use xfuse.Sb.{Sb}
use xfuse.Dir.Leaf.{Dfork, Blocks, dblksize, dblock_of}
use xfuse.Dir.Leaf.Cache.{Holds, IsBlocks, read_dblock_lem}
use xfuse.Dir.Leaf.Next.{header_size, in_block, visit}
use native.Mathlib.Nat.{div-div-eq-div-mul}

quotient : (b p x : ℕ) → x < p → ((b * p + x) / p ≡ b) × ((b * p + x) % p ≡ x)
quotient b p x h = (grind arith, grind arith)

module _ (sb : Sb) (small : sb.sb_blocklog + sb.sb_dirblklog < 32) where
  dblksize-factors : dblksize sb ≡ 2 ^ sb.sb_blocklog * 2 ^ sb.sb_dirblklog
  dblksize-factors =
      let e : (sb.sb_blocklog + sb.sb_dirblklog) % 256 % 64 ≡ sb.sb_blocklog + sb.sb_dirblklog =
        omega arith in
      ap (λ k. 2 ^ k) e ∙ pow_sum sb.sb_blocklog sb.sb_dirblklog

  -- Every offset in the directory block `b` is found to lie in it.
  dblock_at :
      (b x : ℕ) → x < dblksize sb → dblock_of sb (b * dblksize sb + x) ≡ b * 2 ^ sb.sb_dirblklog
  dblock_at b x h =
      let k : sb.sb_blocklog % 64 ≡ sb.sb_blocklog = omega arith in
      let l : sb.sb_dirblklog % 32 ≡ sb.sb_dirblklog = omega arith in
      rw (k, l)
        (ap (λ q. q * 2 ^ sb.sb_dirblklog)
          (div-div-eq-div-mul (b * dblksize sb + x) (2 ^ sb.sb_blocklog) (2 ^ sb.sb_dirblklog)
            ∙ ap (λ p. (b * dblksize sb + x) / p) (sym dblksize-factors)
            ∙ (quotient b (dblksize sb) x h).0))

pow_lt : (a b : ℕ) → a < b → 2 ^ a < 2 ^ b
pow_lt a zero h = absurd (omega arith)
pow_lt zero (suc b) h = omega (arith, pos_pow b)
pow_lt (suc a) (suc b) h = omega (arith, pow_lt a b (omega arith))

module _ (sb : Sb) (small : sb.sb_blocklog + sb.sb_dirblklog < 32) where
  pub size_small : dblksize sb < 2 ^ 32
  size_small =
      let e : (sb.sb_blocklog + sb.sb_dirblklog) % 256 % 64 ≡ sb.sb_blocklog + sb.sb_dirblklog =
        omega arith in
      subst (λ k. 2 ^ k < 2 ^ 32) (sym e) (pow_lt (sb.sb_blocklog + sb.sb_dirblklog) 32 small)

module _ (bc : Bincode) (sb : Sb) (device : Bytes) (dfork : Dfork)
    (small : sb.sb_blocklog + sb.sb_dirblklog < 32) where
  pub visit_at :
      (b x start : ℕ) (flag : Bool) (raw : Bytes) (blocks : Blocks)
      → x < dblksize sb
      → Holds bc sb device dfork (b * 2 ^ sb.sb_dirblklog) raw
      → b * 2 ^ sb.sb_dirblklog < 2 ^ 32
      → (if ltb 0 x then ok x else header_size bc sb raw) ≡ ok start
      → IsBlocks bc sb device dfork blocks
      → (blocks1 : Blocks) × (visit bc sb device dfork blocks flag (b * dblksize sb + x)
          ≡ map_ok
              (λ r. (r, blocks1))
              (in_block bc sb (length raw) raw (b * dblksize sb) flag (b * dblksize sb + x) start))
        × IsBlocks bc sb device dfork blocks1
  unfolding visit
  visit_at b x start flag raw blocks lt holds numbered at ok_blocks =
      let (blocks1, read, ok1) =
        read_dblock_lem bc sb device dfork blocks (b * 2 ^ sb.sb_dirblklog) raw holds ok_blocks in
      let block = dblock_at sb small b x lt in
      let place : (b * dblksize sb + x) % dblksize sb ≡ x = (quotient b (dblksize sb) x lt).1 in
      let start_of : b * dblksize sb + x - x ≡ b * dblksize sb = omega arith in
      (
        blocks1,
        rw
            (
              block,
              lt→ltb (b * 2 ^ sb.sb_dirblklog) (2 ^ 32) numbered,
              read,
              place,
              at,
              start_of,
              ◌>>=◌,
            )
            (bind_ok _ _),
        ok1,
      )
