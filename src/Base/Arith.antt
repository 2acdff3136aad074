-- ===== src/Base/Arith.antt =====
-- Facts on products, quotients and powers that the components share.
use Prim.Native.Nat.{ℕ, zero, suc, ◌+◌, ◌*◌, ◌/◌, ◌%◌, ◌^◌, ◌≤◌, ◌<◌}
use mathlib.Core.Path.{◌≡◌, ap, sym, ◌∙◌}
use mathlib.Core.Logic.{◌⊎◌, inl, inr}
use xfuse.Base.Tests.{Bool-cases, ltb, ltb→lt, ltb→le}
use native.Mathlib.Omega.{arith}
use native.Mathlib.Nat.{div-add-mod}
use native.Mathlib.Numerals.{towards_suc}

pub pos_pow : (k : ℕ) → 0 < 2 ^ k
pos_pow zero = omega arith
pos_pow (suc k) = omega (arith, pos_pow k)

pub div_facts :
    (p a x : ℕ) → 0 < p → (a * p / p ≡ a) × (x < a * p → x / p < a) × (x / p < a → x ≤ a * p)
div_facts p a x h = (grind arith, grind arith, grind arith)

pub div_le : (p a x : ℕ) → 0 < p → a ≤ x → a / p ≤ x / p
div_le p a x h le = grind arith

pub index_lt : (r c w h : ℕ) → r < h → c < w → r * w + c < h * w
index_lt r c w h p q = grind arith

-- A lexicographic order is the order of the numbers.
pub row_major : (r r' c c' w : ℕ) → c < w → r < r' → r * w + c < r' * w + c'
row_major r r' c c' w p q = grind arith

same_quotient : (p q a b r s : ℕ) → p * q + r ≡ a → p * q + s ≡ b → a < b → r < s
same_quotient p q a b r s e f h = omega arith

split_le : {q q' : ℕ} → q ≤ q' → (q < q') ⊎ (q' ≡ q)
split_le h = grind arith

pub quotients : (p a b : ℕ) → 0 < p → a < b → (a / p < b / p) ⊎ ((b / p ≡ a / p) × (a % p < b % p))
quotients p a b h lt = elim (split_le (div_le p a b h (omega arith))) [
  | inl l ↦ inl l
  | inr e ↦ inr (
    e,
    same_quotient p (a / p) a b (a % p) (b % p) (div-add-mod a p)
        (ap (λ q. p * q + b % p) (sym e) ∙ div-add-mod b p) lt,
  )
]

pub pow_nine : (k : ℕ) → 2 ^ (k + 9) ≡ 2 ^ k * 2 ^ 9
pow_nine k = ap (λ n. 2 ^ n) (step k) ∙ simp towards_suc (omega arith)
  where
    step : (k : ℕ) → k + 9 ≡ (k + 8) + 1
    step k = omega arith

pub pow_sum : (a k : ℕ) → 2 ^ (a + k) ≡ 2 ^ a * 2 ^ k
pow_sum a zero = let e : a + 0 ≡ a = omega arith in rw e (omega arith)
pow_sum a (suc k) =
    let e : a + suc k ≡ suc (a + k) = omega arith in
    let twice : 2 ^ a * 2 ^ suc k ≡ 2 * (2 ^ a * 2 ^ k) = grind arith in
    rw e (omega (arith, pow_sum a k, twice))

pub mul_lt : (a n p m : ℕ) → a < n → n * p < m → a * p < m
mul_lt a n p m h f = grind arith

pub mul_le : (a b p : ℕ) → a ≤ b → a * p ≤ b * p
mul_le a b p h = grind arith

-- A position inside a device of whole blocks lies in a block that is there.
pub whole_block : (k n bs : ℕ) → k * bs < n * bs → k * bs + bs ≤ n * bs
whole_block k n bs h = elim (Bool-cases (ltb k n)) [
  | inl t ↦ let le = mul_le (suc k) n bs (ltb→lt k n t) in omega (arith, step, le)
  | inr f ↦ let le = mul_le n k bs (ltb→le k n f) in absurd (omega (arith, le))
]
  where
    step : suc k * bs ≡ k * bs + bs
    step = grind arith
