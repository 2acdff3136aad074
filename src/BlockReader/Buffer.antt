-- ===== src/BlockReader/Buffer.antt =====
-- `set_bufsize` of src/libxfuse/block_reader.rs: the size is rounded up to whole sectors.
use xfuse.Base.{
  ℕ, zero, suc, ◌+◌, ◌-◌, ◌*◌, ◌/◌, ◌%◌, ◌^◌, ◌≤◌, ◌<◌, ◌≡◌, refl, ap, ◌∙◌, inl, inr, Bool-cases,
  ltb, if◌then◌else◌, arith, length, take, length-append, length-take, length-replicate, add64,
  sub64, add64_small, sub64_small, pos_pow, ltb→lt, ltb→le, replicate,
}
use native.Mathlib.Nat.{pow-le-pow_right}
use xfuse.Codec.{Bytes}
use xfuse.BlockReader.{BlockReader, bufsize, buffered, bit_and, resize, set_bufsize}

pow_half : (j : ℕ) → ((2 ^ suc j - 1) % 2 ≡ 1) × ((2 ^ suc j - 1) / 2 ≡ 2 ^ j - 1)
pow_half j = (omega (arith, pos_pow j), omega (arith, pos_pow j))

double : (j : ℕ) → 2 * 2 ^ j ≡ 2 ^ suc j
double j = omega arith

mod_half : (a p : ℕ) → 0 < p → a % 2 + 2 * (a / 2 % p) ≡ a % (2 * p)
mod_half a p h = grind arith

bit_and_zero : (bits a : ℕ) → bit_and bits a 0 ≡ 0
unfolding bit_and
bit_and_zero zero a = refl
bit_and_zero (suc bits) a = rw (bit_and_zero bits (a / 2)) (omega arith)

-- A mask of `j` ones keeps the remainder by `2 ^ j`.
bit_and_mask : (bits j a : ℕ) → j ≤ bits → bit_and bits a (2 ^ j - 1) ≡ a % 2 ^ j
unfolding bit_and
bit_and_mask zero zero a h = omega arith
bit_and_mask (suc bits) zero a h = bit_and_zero (suc bits) a ∙ omega arith
bit_and_mask zero (suc j) a h = absurd (omega arith)
bit_and_mask (suc bits) (suc j) a h =
    let (one, half) = pow_half j in
    rw (one, half, bit_and_mask bits j (a / 2) (omega arith))
      ((omega arith) ∙ mod_half a (2 ^ j) (pos_pow j) ∙ ap (λ z. a % z) (double j))

pub length-resize : (block : Bytes) (n : ℕ) → length (resize block n) ≡ n
length-resize block n = omega (
  arith,
  length-append (take n block) (replicate (n - length block) 0),
  length-take n block,
  length-replicate {A = ℕ} (n - length block) 0,
)

-- The size that `set_bufsize` computes for sectors of `p` bytes.
rounded :
    (p size : ℕ)
    → 0 < p
    → (if ltb 0 (size % p) then size + p - size % p else size) ≡ (size + p - 1) / p * p
rounded p size h = elim (Bool-cases (ltb 0 (size % p))) [
  | inl t ↦ rw t (up (ltb→lt 0 (size % p) t))
  | inr f ↦ rw f (same (ltb→le 0 (size % p) f))
]
  where
    up : 0 < size % p → size + p - size % p ≡ (size + p - 1) / p * p
    up lt = grind arith

    same : size % p ≤ 0 → size ≡ (size + p - 1) / p * p
    same le = grind arith

-- With sectors of a power of two below 2^32 and a size below 2^32, the buffer becomes the smallest
-- whole number of sectors that holds the size asked for, it is empty, and the device is the same.
pub set_bufsize_lem :
    (s : BlockReader) (size j : ℕ)
    → s.sectorsize ≡ 2 ^ j
    → j < 32
    → size < 2 ^ 32
    → let s' = set_bufsize s size in
      (bufsize s' ≡ (size + 2 ^ j - 1) / 2 ^ j * 2 ^ j) × (buffered s' ≡ 0) × (s'.file ≡ s.file)
unfolding set_bufsize
set_bufsize_lem s size j e small lt =
    let fits : 2 ^ j ≤ 2 ^ 32 =
      pow-le-pow_right {n = 2} (omega arith) {i = j} {j = 32} (omega arith) in
    let new = (if ltb 0 (size % 2 ^ j) then sub64 (add64 size (2 ^ j)) (size % 2 ^ j) else size) in
    let mask : bit_and 64 size (sub64 s.sectorsize 1) ≡ size % 2 ^ j =
      (rw (e, sub64_small (2 ^ j) 1 (omega (arith, pos_pow j)) (omega arith))
        (bit_and_mask 64 j size (omega arith))) in
    let size_eq : new ≡ (size + 2 ^ j - 1) / 2 ^ j * 2 ^ j =
      rw
        (
          add64_small size (2 ^ j) (omega arith),
          sub64_small (size + 2 ^ j) (size % 2 ^ j) (grind arith) (omega arith),
        )
        (rounded (2 ^ j) size (pos_pow j)) in
    let len = length-resize s.block new in
    (rw (mask, e) (len ∙ size_eq), rw (mask, e) (omega (arith, len)), refl)
