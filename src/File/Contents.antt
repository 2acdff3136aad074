-- ===== src/File/Contents.antt =====
-- What a file holds, told block by block: the device's bytes where a block is mapped, zeros in a hole.
use xfuse.Base.{
  ℕ, zero, suc, ◌+◌, ◌*◌, ◌<◌, ◌≡◌, sym, ap, ◌∙◌, [], ◌∷◌, ◌++◌, Option, none, some, arith, take,
  drop, replicate, take-take-drop, drop-drop,
}
use xfuse.Codec.{Bytes}
use mathlib.Core.List.{append_assoc}
use native.Mathlib.Nat.{zero-add, suc-add}

replicate_join :
    {A : Type 0} (a : A) (j k : ℕ) → replicate j a ++ replicate k a ≡ replicate (j + k) a
replicate_join a zero k = ap (λ n. replicate n a) (sym (zero-add k))
replicate_join a (suc j) k =
    ap (λ l. a ∷ l) (replicate_join a j k) ∙ ap (λ n. replicate n a) (sym (suc-add j k))

module _ (offset_of : ℕ → ℕ) (dev : Bytes) (bs : ℕ) (m : ℕ → Option ℕ) where
  abbrev pub block_bytes : Option ℕ → Bytes
  block_bytes none = replicate bs 0
  block_bytes (some f) = take bs (drop (offset_of f) dev)

  -- `k` blocks of the file from block `d` on.
  abbrev pub contents : ℕ → ℕ → Bytes
  contents d zero = []
  contents d (suc k) = block_bytes (m d) ++ contents (suc d) k

  pub contents_split : (d j k : ℕ) → contents d (j + k) ≡ contents d j ++ contents (d + j) k
  contents_split d zero k =
      ap (λ n. contents d n) (zero-add k) ∙ ap (λ e. contents e k) (omega arith)
  contents_split d (suc j) k =
      ap (λ n. contents d n) (suc-add j k)
      ∙ ap (λ c. block_bytes (m d) ++ c) (contents_split (suc d) j k)
      ∙ sym (append_assoc (block_bytes (m d)) (contents (suc d) j) (contents (suc d + j) k))
      ∙ ap (λ e. (block_bytes (m d) ++ contents (suc d) j) ++ contents e k) (omega arith)

  -- `k` blocks from block `d` on that lie in a row on the device from byte `o` on.
  abbrev pub InRow : ℕ → ℕ → ℕ → Type 0
  InRow d k o = (i : ℕ) → i < k → (f : ℕ) × (m (d + i) ≡ some f) × (offset_of f ≡ o + i * bs)

  head_bytes :
      (d o : ℕ) (f : ℕ)
      → m (d + 0) ≡ some f
      → offset_of f ≡ o + 0 * bs
      → block_bytes (m d) ≡ take bs (drop o dev)
  head_bytes d o f e at =
      ap block_bytes (ap m (omega arith) ∙ e) ∙ ap (λ x. take bs (drop x dev)) (at ∙ omega arith)

  pub contents_row : (k d o : ℕ) → InRow d k o → contents d k ≡ take (k * bs) (drop o dev)
  contents_row zero d o row = let e : 0 * bs ≡ 0 = omega arith in rw e
  contents_row (suc k) d o row =
      let (f, e, at) = row 0 (omega arith) in
      ap (λ c. block_bytes (m d) ++ c)
        (contents_row k (suc d) (o + bs) (λ i lt. later i lt (row (suc i) (omega arith))))
      ∙ ap (λ b. b ++ take (k * bs) (drop (o + bs) dev)) (head_bytes d o f e at)
      ∙ ap (λ x. take bs (drop o dev) ++ take (k * bs) x) (sym (drop-drop bs o dev))
      ∙ take-take-drop bs (k * bs) (drop o dev)
      ∙ ap (λ n. take n (drop o dev)) (grind arith)
    where
      later :
          (i : ℕ)
          → i < k
          → (f : ℕ) × (m (d + suc i) ≡ some f) × (offset_of f ≡ o + suc i * bs)
          → (f : ℕ) × (m (suc d + i) ≡ some f) × (offset_of f ≡ o + bs + i * bs)
      later i lt (f, e, at) = (f, ap m (omega arith) ∙ e, at ∙ grind arith)

  -- `k` blocks of a hole.
  pub contents_hole :
      (k d : ℕ) → ((i : ℕ) → i < k → m (d + i) ≡ none) → contents d k ≡ replicate (k * bs) 0
  contents_hole zero d hole = let e : 0 * bs ≡ 0 = omega arith in rw e
  contents_hole (suc k) d hole =
      ap (λ c. block_bytes (m d) ++ c)
        (contents_hole k (suc d) (λ i lt. ap m (omega arith) ∙ hole (suc i) (omega arith)))
      ∙ ap (λ o. block_bytes o ++ replicate (k * bs) 0) (ap m (omega arith) ∙ hole 0 (omega arith))
      ∙ replicate_join 0 bs (k * bs)
      ∙ ap (λ n. replicate n 0) (grind arith)
