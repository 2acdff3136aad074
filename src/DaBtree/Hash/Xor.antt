-- ===== src/DaBtree/Hash/Xor.antt =====
-- The exclusive or of words, and how it meets rotations.
use xfuse.Base.{subst, ℕ, zero, suc, ◌+◌, ◌*◌, ◌/◌, ◌%◌, ◌^◌, ◌<◌, ◌≡◌, refl, sym, ap, ◌∙◌, arith}
use xfuse.DaBtree.Hash.{xor, xor32, rotate_left}

pub xor_lt : (n a b : ℕ) → xor n a b < 2 ^ n
unfolding xor
xor_lt zero a b = omega arith
xor_lt (suc n) a b = omega (arith, xor_lt n (a / 2) (b / 2))

pub xor_comm : (n a b : ℕ) → xor n a b ≡ xor n b a
unfolding xor
xor_comm zero a b = refl
xor_comm (suc n) a b = omega (arith, xor_comm n (a / 2) (b / 2))

halves : (n a b : ℕ) → xor (suc n) a b / 2 ≡ xor n (a / 2) (b / 2)
unfolding xor
halves n a b = omega arith

parity : (n a b : ℕ) → xor (suc n) a b % 2 ≡ (a % 2 + b % 2) % 2
unfolding xor
parity n a b = omega arith

pub xor_assoc : (n a b c : ℕ) → xor n (xor n a b) c ≡ xor n a (xor n b c)
unfolding xor
xor_assoc zero a b c = refl
xor_assoc (suc n) a b c =
    rw (halves n a b, halves n b c, parity n a b, parity n b c)
      (omega (arith, xor_assoc n (a / 2) (b / 2) (c / 2)))

doubled : (m h : ℕ) → 2 ^ suc m * h ≡ 2 * (2 ^ m * h)
doubled m h = grind arith

-- The low and the high digits are taken apart.
pub xor_join :
    (m k l h l' h' : ℕ)
    → l < 2 ^ m
    → l' < 2 ^ m
    → xor (m + k) (l + 2 ^ m * h) (l' + 2 ^ m * h') ≡ xor m l l' + 2 ^ m * xor k h h'
unfolding xor
xor_join zero k l h l' h' lt lt' =
    let e : l + 2 ^ 0 * h ≡ h = omega arith in
    let e' : l' + 2 ^ 0 * h' ≡ h' = omega arith in
    let z : 0 + k ≡ k = omega arith in rw (e, e', z) (omega arith)
xor_join (suc m) k l h l' h' lt lt' =
    let e : (l + 2 ^ suc m * h) / 2 ≡ l / 2 + 2 ^ m * h = omega (arith, doubled m h) in
    let e' : (l' + 2 ^ suc m * h') / 2 ≡ l' / 2 + 2 ^ m * h' = omega (arith, doubled m h') in
    let p : (l + 2 ^ suc m * h) % 2 ≡ l % 2 = omega (arith, doubled m h) in
    let p' : (l' + 2 ^ suc m * h') % 2 ≡ l' % 2 = omega (arith, doubled m h') in
    let z : suc m + k ≡ suc (m + k) = omega arith in
    rw (z, e, e', p, p')
      (omega (
        arith,
        xor_join m k (l / 2) h (l' / 2) h' (omega arith) (omega arith),
        doubled m (xor k h h'),
      ))

-- A rotation by seven bits, of a word that is taken apart at bit 25.
rotated : (l h : ℕ) → l < 2 ^ 25 → h < 2 ^ 7 → rotate_left (l + 2 ^ 25 * h) 7 ≡ h + 2 ^ 7 * l
rotated l h lt lt' = omega arith

rotate-xor_parts :
    (l h l' h' : ℕ)
    → l < 2 ^ 25
    → l' < 2 ^ 25
    → h < 2 ^ 7
    → h' < 2 ^ 7
    → rotate_left (xor32 (l + 2 ^ 25 * h) (l' + 2 ^ 25 * h')) 7
      ≡ xor32 (rotate_left (l + 2 ^ 25 * h) 7) (rotate_left (l' + 2 ^ 25 * h') 7)
rotate-xor_parts l h l' h' a b c d =
    ap (λ z. rotate_left z 7) (xor_join 25 7 l h l' h' a b)
    ∙ rotated (xor 25 l l') (xor 7 h h') (xor_lt 25 l l') (xor_lt 7 h h')
    ∙ sym (xor_join 7 25 h l h' l' c d)
    ∙ rw (rotated l h a c, rotated l' h' b d)

parts : (a : ℕ) → a % 2 ^ 25 + 2 ^ 25 * (a / 2 ^ 25) ≡ a
parts a = omega arith

-- A rotation by seven bits is linear.
pub rotate-xor :
    (a b : ℕ)
    → a < 2 ^ 32
    → b < 2 ^ 32
    → rotate_left (xor32 a b) 7 ≡ xor32 (rotate_left a 7) (rotate_left b 7)
rotate-xor a b la lb =
    subst (λ z. rotate_left (xor32 z b) 7 ≡ xor32 (rotate_left z 7) (rotate_left b 7)) (parts a)
      (subst
        (λ z.
          rotate_left (xor32 (a % 2 ^ 25 + 2 ^ 25 * (a / 2 ^ 25)) z) 7
          ≡ xor32 (rotate_left (a % 2 ^ 25 + 2 ^ 25 * (a / 2 ^ 25)) 7) (rotate_left z 7))
        (parts b)
        (rotate-xor_parts (a % 2 ^ 25) (a / 2 ^ 25) (b % 2 ^ 25) (b / 2 ^ 25) (omega arith)
          (omega arith) (omega arith) (omega arith)))

pub rotate_lt : (a : ℕ) → a < 2 ^ 32 → rotate_left a 7 < 2 ^ 32
rotate_lt a h = omega arith

pub rotate-rotate : (a : ℕ) → a < 2 ^ 32 → rotate_left (rotate_left a 7) 7 ≡ rotate_left a 14
rotate-rotate a h = omega arith

pub rotate-rotate14 : (a : ℕ) → a < 2 ^ 32 → rotate_left (rotate_left a 14) 7 ≡ rotate_left a 21
rotate-rotate14 a h = omega arith

pub rotate-rotate21 : (a : ℕ) → a < 2 ^ 32 → rotate_left (rotate_left a 21) 7 ≡ rotate_left a 28
rotate-rotate21 a h = omega arith
