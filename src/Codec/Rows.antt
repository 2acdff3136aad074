-- ===== src/Codec/Rows.antt =====
-- Rows of records of one width, as the decoding loops of src/libxfuse read them.
use xfuse.Base.{ℕ, zero, suc, ◌+◌, ◌*◌, ◌≤◌, ◌≡◌, ap, List, [], ◌∷◌, arith, length, drop, ok}
use xfuse.Codec.{Bytes, Get, ◌>>=◌, repeat}

-- `n` records of width `w`, the first at offset `off`; `f` tells the record at an offset.
abbrev pub rows : {A : Type 0} → (ℕ → A) → ℕ → ℕ → ℕ → List A
rows f w off zero = []
rows f w off (suc n) = f off ∷ rows f w (off + w) n

pub repeat_at :
    {A : Type 0} (g : Get A) (f : ℕ → A) (w : ℕ) (bs : Bytes)
    → ((k : ℕ) → k + w ≤ length bs → g (drop k bs) ≡ ok (f k, drop (k + w) bs))
    → (n off : ℕ) → off + n * w ≤ length bs
    → repeat n g (drop off bs) ≡ ok (rows f w off n, drop (off + n * w) bs)
unfolding repeat
repeat_at g f w bs step zero off h = ap (λ k. ok ([], drop k bs)) (omega arith)
repeat_at g f w bs step (suc n) off h =
    let e : off + w + n * w ≡ off + suc n * w = grind arith in
    rw (step off (grind arith), repeat_at g f w bs step n (off + w) (grind arith), ◌>>=◌)
      (ap (λ k. ok (f off ∷ rows f w (off + w) n, drop k bs)) e)
