-- ===== src/Tests/Hashes.antt =====
-- The hash of src/libxfuse/da_btree.rs on a name of five bytes.
use xfuse.Base.{◌^◌, ◌<◌, ◌≡◌, refl, [], ◌∷◌, arith}
use xfuse.Codec.{Bytes}
use xfuse.DaBtree.Hash.{xor, hash_rounds, hashname}
use xfuse.DaBtree.Hash.Bytewise.{mix, hashname-eq-fold}
use mathlib.Core.List.{foldl}

abbrev hello : Bytes
hello = b'h' ∷ b'e' ∷ b'l' ∷ b'l' ∷ b'o' ∷ []

hashname-eq-fold_example : (hashname hello ≡ foldl mix 0 hello) × (hashname hello < 2 ^ 32)
hashname-eq-fold_example =
    hashname-eq-fold hello
      (omega arith, (omega arith, (omega arith, (omega arith, (omega arith, tt)))))

collision : hashname (0x40 ∷ 0xe2 ∷ []) ≡ hashname (0x41 ∷ 0x62 ∷ [])
unfolding hashname hash_rounds xor
collision = refl
