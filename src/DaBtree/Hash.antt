-- ===== src/DaBtree/Hash.antt =====
-- `hashname` of src/libxfuse/da_btree.rs: the 32-bit hash of a name.
pub mod Xor
pub mod Bytewise
use xfuse.Base.{ℕ, zero, suc, ◌+◌, ◌-◌, ◌*◌, ◌/◌, ◌%◌, ◌^◌, [], ◌∷◌}
use xfuse.Codec.{Bytes}

-- `a ^ b`, the low `bits` of it.
unfoldable pub xor : ℕ → ℕ → ℕ → ℕ
xor zero a b = 0
xor (suc bits) a b = (a % 2 + b % 2) % 2 + 2 * xor bits (a / 2) (b / 2)

-- `a ^ b`, `a << k` and `a.rotate_left(k)` of a u32.
abbrev pub xor32 : ℕ → ℕ → ℕ
xor32 a b = xor 32 a b

abbrev pub shl32 : ℕ → ℕ → ℕ
shl32 a k = a * 2 ^ k % 2 ^ 32

abbrev pub rotate_left : ℕ → ℕ → ℕ
rotate_left a k = a * 2 ^ k % 2 ^ 32 + a / 2 ^ (32 - k)

-- The loop of `hashname`, four bytes a round, and the match on the bytes that are left.
unfoldable pub hash_rounds : ℕ → Bytes → ℕ
hash_rounds hash (a ∷ b ∷ c ∷ d ∷ rest) =
    hash_rounds
      (xor32 (xor32 (xor32 (xor32 (shl32 a 21) (shl32 b 14)) (shl32 c 7)) d) (rotate_left hash 28))
      rest
hash_rounds hash (a ∷ b ∷ c ∷ []) =
    xor32 (xor32 (xor32 (shl32 a 14) (shl32 b 7)) c) (rotate_left hash 21)
hash_rounds hash (a ∷ b ∷ []) = xor32 (xor32 (shl32 a 7) b) (rotate_left hash 14)
hash_rounds hash (a ∷ []) = xor32 a (rotate_left hash 7)
hash_rounds hash [] = hash

unfoldable pub hashname : Bytes → ℕ
unfolding hash_rounds
hashname name = hash_rounds 0 name
