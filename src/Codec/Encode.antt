-- ===== src/Codec/Encode.antt =====
-- The big-endian encoding that the decoders of src/libxfuse/utils.rs invert.
use xfuse.Base.{
  ℕ, zero, suc, ◌+◌, ◌*◌, ◌/◌, ◌%◌, ◌^◌, ◌<◌, ◌≡◌, ◌≢◌, refl, ap, subst, ◌∙◌, List, [], ◌∷◌, ◌++◌,
  arith, length, length-append, take, drop, ok, Bool, true, false, ◌&&◌, ◌==◌, ◌↔◌, All,
}
use xfuse.Codec.{Bytes, Get, ◌>>=◌, repeat, Bincode, IsBigEndian, be}
use mathlib.Core.List.{foldl-append, append_assoc}

-- The `n` bytes of `v`, highest first.
abbrev pub be_bytes : ℕ → ℕ → Bytes
be_bytes zero v = []
be_bytes (suc n) v = be_bytes n (v / 256) ++ (v % 256 ∷ [])

pub length-be_bytes : (n v : ℕ) → length (be_bytes n v) ≡ n
length-be_bytes zero v = refl
length-be_bytes (suc n) v =
    length-append (be_bytes n (v / 256)) (v % 256 ∷ []) ∙ omega (arith, length-be_bytes n (v / 256))

be-append : (xs : Bytes) (b : ℕ) → be (xs ++ (b ∷ [])) ≡ be xs * 256 + b
be-append xs b = foldl-append (λ acc c. acc * 256 + c) 0 xs (b ∷ [])

be-be_bytes : (n v : ℕ) → v < 256 ^ n → be (be_bytes n v) ≡ v
be-be_bytes zero v h = omega arith
be-be_bytes (suc n) v h =
    be-append (be_bytes n (v / 256)) (v % 256)
    ∙ omega (arith, be-be_bytes n (v / 256) (omega arith))

module _ {ℓ} {A : Type ℓ} where
  pub take-append : (xs ys : List A) → take (length xs) (xs ++ ys) ≡ xs
  take-append [] ys = refl
  take-append (x ∷ xs) ys = ap (λ t. x ∷ t) (take-append xs ys)

  pub drop-append : (xs ys : List A) → drop (length xs) (xs ++ ys) ≡ ys
  drop-append [] ys = refl
  drop-append (x ∷ xs) ys = drop-append xs ys

module _ {bc : Bincode} (law : IsBigEndian bc) where
  pub read-append : (xs rest : Bytes) → bc.read (length xs) (xs ++ rest) ≡ ok (xs, rest)
  read-append xs rest =
      law.read_ok (length xs) (xs ++ rest) (omega (arith, length-append xs rest))
      ∙ rw (take-append xs rest, drop-append xs rest)

  pub uint-be_bytes :
      (n v : ℕ) (rest : Bytes) → v < 256 ^ n → bc.uint n (be_bytes n v ++ rest) ≡ ok (v, rest)
  uint-be_bytes n v rest h =
      law.uint_ok n (be_bytes n v ++ rest) (omega (arith, length-append (be_bytes n v) rest, size))
      ∙ rw (front, back, be-be_bytes n v h)
    where
      size : length (be_bytes n v) ≡ n
      size = length-be_bytes n v

      front : take n (be_bytes n v ++ rest) ≡ be_bytes n v
      front = subst (λ k. take k (be_bytes n v ++ rest) ≡ be_bytes n v) size (take-append _ rest)

      back : drop n (be_bytes n v ++ rest) ≡ rest
      back =
          subst (λ k. drop k (be_bytes n v ++ rest) ≡ rest) size (drop-append (be_bytes n v) rest)

-- Equality of byte strings, as `OsStr` and slices compare.
abbrev pub bytes_eq : Bytes → Bytes → Bool
bytes_eq [] [] = true
bytes_eq (a ∷ as') (b ∷ bs) = a == b && bytes_eq as' bs
bytes_eq _ _ = false

pub bytes_eq_iff : (xs ys : Bytes) → (bytes_eq xs ys ≡ true) ↔ (xs ≡ ys)
bytes_eq_iff [] [] = (λ _. refl, λ _. refl)
bytes_eq_iff [] (b ∷ bs) = (λ e. cc, λ e. cc)
bytes_eq_iff (a ∷ xs) [] = (λ e. cc, λ e. cc)
bytes_eq_iff (a ∷ xs) (b ∷ ys) = ground (arith, bytes_eq_iff xs ys)

pub bytes_eq-false : (x y : Bytes) → bytes_eq x y ≡ false → x ≢ y
bytes_eq-false x y f e = let t = (bytes_eq_iff x y).1 e in absurd (ground arith)

abbrev pub encode_all : {A : Type 0} → (A → Bytes) → List A → Bytes
encode_all enc [] = []
encode_all enc (a ∷ rest) = enc a ++ encode_all enc rest

-- A decoder that reads one value back off the front of any input reads a row of them back.
pub repeat-encode_all :
    {A : Type 0} (g : Get A) (enc : A → Bytes) (xs : List A) (rest : Bytes)
    → All (λ a. (more : Bytes) → g (enc a ++ more) ≡ ok (a, more)) xs
    → repeat (length xs) g (encode_all enc xs ++ rest) ≡ ok (xs, rest)
unfolding repeat
repeat-encode_all g enc [] rest h = refl
repeat-encode_all g enc (a ∷ xs) rest (h, hs) = rw (
  append_assoc (enc a) (encode_all enc xs) rest,
  h (encode_all enc xs ++ rest),
  repeat-encode_all g enc xs rest hs,
  ◌>>=◌,
)
