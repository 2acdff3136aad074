-- ===== src/DaBtree/Hash/Bytewise.antt =====
-- `hashname` of src/libxfuse/da_btree.rs takes four bytes a round; the hash is told byte by byte.
use xfuse.Base.{ℕ, ◌^◌, ◌<◌, ◌≡◌, refl, sym, ap, ◌∙◌, arith, [], ◌∷◌, All}
use xfuse.Codec.{Bytes}
use xfuse.DaBtree.Hash.{xor32, shl32, rotate_left, hash_rounds, hashname}
use xfuse.DaBtree.Hash.Xor.{
  xor_lt, xor_comm, xor_assoc, rotate-xor, rotate_lt, rotate-rotate, rotate-rotate14,
  rotate-rotate21,
}
use mathlib.Core.List.{foldl}

-- One byte: the hash is rotated by seven bits and the byte is mixed in.
abbrev pub mix : ℕ → ℕ → ℕ
mix hash b = xor32 b (rotate_left hash 7)

mix_lt : (h b : ℕ) → mix h b < 2 ^ 32
mix_lt h b = xor_lt 32 b (rotate_left h 7)

-- The next byte, when the hash so far is `w ^ r`.
mix-xor :
    (w r c : ℕ)
    → w < 2 ^ 32
    → r < 2 ^ 32
    → mix (xor32 w r) c ≡ xor32 (xor32 (rotate_left w 7) c) (rotate_left r 7)
mix-xor w r c lw lr =
    ap (λ z. xor32 c z) (rotate-xor w r lw lr)
    ∙ sym (xor_assoc 32 c (rotate_left w 7) (rotate_left r 7))
    ∙ ap (λ z. xor32 z (rotate_left r 7)) (xor_comm 32 c (rotate_left w 7))

rotate_byte : (a : ℕ) → a < 256 → rotate_left a 7 ≡ shl32 a 7
rotate_byte a h = omega arith

rotate-shl7 : (a : ℕ) → a < 256 → rotate_left (shl32 a 7) 7 ≡ shl32 a 14
rotate-shl7 a h = omega arith

rotate-shl14 : (a : ℕ) → a < 256 → rotate_left (shl32 a 14) 7 ≡ shl32 a 21
rotate-shl14 a h = omega arith

shl_lt : (a k : ℕ) → shl32 a k < 2 ^ 32
shl_lt a k = omega arith

rotations_lt : (h : ℕ) → h < 2 ^ 32 → (rotate_left h 14 < 2 ^ 32) × (rotate_left h 21 < 2 ^ 32)
rotations_lt h lt = (omega arith, omega arith)

module _ (hash : ℕ) (lt : hash < 2 ^ 32) where
  two : (a b : ℕ) → a < 256 → mix (mix hash a) b ≡ xor32 (xor32 (shl32 a 7) b) (rotate_left hash 14)
  two a b la =
      mix-xor a (rotate_left hash 7) b (omega arith) (rotate_lt hash lt)
      ∙ rw (rotate_byte a la, rotate-rotate hash lt)

  three :
      (a b c : ℕ)
      → a < 256
      → b < 256
      → mix (mix (mix hash a) b) c
        ≡ xor32 (xor32 (xor32 (shl32 a 14) (shl32 b 7)) c) (rotate_left hash 21)
  three a b c la lb =
      ap (λ z. mix z c) (two a b la)
      ∙ mix-xor (xor32 (shl32 a 7) b) (rotate_left hash 14) c (xor_lt 32 (shl32 a 7) b)
          (rotations_lt hash lt).0
      ∙ rw (
        rotate-xor (shl32 a 7) b (shl_lt a 7) (omega arith),
        rotate-shl7 a la,
        rotate_byte b lb,
        rotate-rotate14 hash lt,
      )

  four :
      (a b c d : ℕ)
      → a < 256
      → b < 256
      → c < 256
      → mix (mix (mix (mix hash a) b) c) d
        ≡ xor32
            (xor32 (xor32 (xor32 (shl32 a 21) (shl32 b 14)) (shl32 c 7)) d)
            (rotate_left hash 28)
  four a b c d la lb lc =
      ap (λ z. mix z d) (three a b c la lb)
      ∙ mix-xor (xor32 (xor32 (shl32 a 14) (shl32 b 7)) c) (rotate_left hash 21) d
          (xor_lt 32 (xor32 (shl32 a 14) (shl32 b 7)) c) (rotations_lt hash lt).1
      ∙ rw (
        rotate-xor (xor32 (shl32 a 14) (shl32 b 7)) c (xor_lt 32 (shl32 a 14) (shl32 b 7))
            (omega arith),
        rotate-xor (shl32 a 14) (shl32 b 7) (shl_lt a 14) (shl_lt b 7),
        rotate-shl14 a la,
        rotate-shl7 b lb,
        rotate_byte c lc,
        rotate-rotate21 hash lt,
      )

abbrev IsByte : ℕ → Type 0
IsByte b = b < 256

hash_rounds-eq-fold :
    (hash : ℕ) (name : Bytes)
    → hash < 2 ^ 32
    → All IsByte name
    → (hash_rounds hash name ≡ foldl mix hash name) × (hash_rounds hash name < 2 ^ 32)
unfolding hash_rounds
hash_rounds-eq-fold hash [] lt h = (refl, lt)
hash_rounds-eq-fold hash (a ∷ []) lt h = (refl, mix_lt hash a)
hash_rounds-eq-fold hash (a ∷ b ∷ []) lt (la, h) = (sym (two hash lt a b la), xor_lt 32 _ _)
hash_rounds-eq-fold hash (a ∷ b ∷ c ∷ []) lt (la, (lb, h)) =
    (sym (three hash lt a b c la lb), xor_lt 32 _ _)
hash_rounds-eq-fold hash (a ∷ b ∷ c ∷ d ∷ rest) lt (la, (lb, (lc, (ld, h)))) =
    let (e, small) =
      hash_rounds-eq-fold
        (xor32 (xor32 (xor32 (xor32 (shl32 a 21) (shl32 b 14)) (shl32 c 7)) d)
          (rotate_left hash 28))
        rest (xor_lt 32 _ _) h in
    (e ∙ ap (λ z. foldl mix z rest) (sym (four hash lt a b c d la lb lc)), small)

-- The hash of a name is what mixing in its bytes one by one makes, from 0 on, each time rotating the
-- hash by seven bits; it fits 32 bits.
pub hashname-eq-fold :
    (name : Bytes) → All IsByte name → (hashname name ≡ foldl mix 0 name) × (hashname name < 2 ^ 32)
unfolding hashname
hashname-eq-fold name h = hash_rounds-eq-fold 0 name (omega arith) h
