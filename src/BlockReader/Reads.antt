-- ===== src/BlockReader/Reads.antt =====
-- The reads of src/libxfuse/block_reader.rs return the device's bytes from the position on.
use xfuse.Base.{
  ℕ, zero, suc, ◌+◌, ◌-◌, ◌*◌, ◌≤◌, ◌<◌, ◌≡◌, refl, sym, ap, ◌∙◌, subst, [], ◌++◌, leb, ◌==◌,
  if◌then◌else◌, arith, length, take, drop, drop-drop, length-drop, length-take, take-drop-take,
  take-take-drop, ok, false,
}
use xfuse.Codec.{Bytes}
use xfuse.BlockReader.{BlockReader, buffered, read, read_rounds, read_exact}
use xfuse.BlockReader.Position.{IsAt, At, IsAt-index, refill_if_empty_lem}

-- The bytes that `read` copies.
abbrev pub amount : ℕ → ℕ → ℕ
amount len avail = if leb len avail then len else avail

amount_bounds :
    (len avail : ℕ)
    → 1 ≤ len
    → 1 ≤ avail
    → (1 ≤ amount len avail) × (amount len avail ≤ len) × (amount len avail ≤ avail)
amount_bounds len avail h g = ground arith

buffered_bytes :
    (dev : Bytes) (blocks bs r k m : ℕ) (s : BlockReader)
    → IsAt dev blocks bs s r k
    → s.idx + m ≤ bs
    → take m (drop s.idx s.block) ≡ take m (drop r dev)
buffered_bytes dev blocks bs r k m s h fits =
    ap (λ b. take m (drop s.idx b)) h.content
    ∙ take-drop-take s.idx m bs (drop (k * bs) dev) fits
    ∙ ap (take m) (drop-drop s.idx (k * bs) dev)
    ∙ ap (λ z. take m (drop z dev)) (sym h.cursor)

moved :
    (dev : Bytes) (blocks bs r k m : ℕ) (s : BlockReader)
    → IsAt dev blocks bs s r k
    → s.idx + m ≤ bs
    → IsAt dev blocks bs (record s { idx = s.idx + m }) (r + m) k
moved dev blocks bs r k m s h fits =
    subst (λ z. IsAt dev blocks bs (record s { idx = s.idx + m }) z k) (omega (arith, h.cursor))
      (IsAt-index dev blocks bs r k (s.idx + m) s h fits)

-- On a device that is a whole number of buffers and with bytes left on it, `read` returns at least
-- one of them and at most what is asked for: the next ones. It leaves the reader behind them.
pub read_lem :
    (dev : Bytes) (blocks bs r len : ℕ) (s : BlockReader)
    → At dev blocks bs s r
    → 1 ≤ len
    → r < length dev
    → (m : ℕ) × (s' : BlockReader) × (read s len ≡ ok (take m (drop r dev), s'))
      × At dev blocks bs s' (r + m)
      × (1 ≤ m)
      × (m ≤ len)
      × (r + m ≤ length dev)
unfolding read
read_lem dev blocks bs r len s at h lt =
    let (s1, e, k, at1, more) = refill_if_empty_lem dev blocks bs r s at lt in
    let m = amount len (buffered s1) in
    let avail : buffered s1 ≡ bs - s1.idx = rw at1.sized in
    let (one, le, le') = amount_bounds len (buffered s1) h (omega (arith, avail)) in
    let fits : s1.idx + m ≤ bs = omega (arith, avail) in
    let bytes = buffered_bytes dev blocks bs r k m s1 at1 fits in
    (
      m,
      record s1 { idx = s1.idx + m },
      rw e (ap (λ b. ok (b, record s1 { idx = s1.idx + m })) bytes),
      (k, moved dev blocks bs r k m s1 at1 fits),
      one,
      le,
      omega (arith, at1.cursor, at1.within),
    )

length_slice : (m r : ℕ) (dev : Bytes) → r + m ≤ length dev → length (take m (drop r dev)) ≡ m
length_slice m r dev h = omega (arith, length-take m (drop r dev), length-drop r dev)

nonzero : (n : ℕ) → 1 ≤ n → (n == 0) ≡ false
nonzero n h = ground arith

slices :
    (m len r : ℕ) (dev : Bytes)
    → m ≤ len
    → take m (drop r dev) ++ take (len - m) (drop (r + m) dev) ≡ take len (drop r dev)
slices m len r dev h =
    ap (λ l. take m (drop r dev) ++ take (len - m) l) (sym (drop-drop m r dev))
    ∙ take-take-drop m (len - m) (drop r dev)
    ∙ ap (λ n. take n (drop r dev)) (omega arith)

read_rounds_lem :
    (fuel : ℕ) (dev : Bytes) (blocks bs r len : ℕ) (s : BlockReader)
    → At dev blocks bs s r
    → r + len ≤ length dev
    → len ≤ fuel
    → (s' : BlockReader) × (read_rounds fuel s len ≡ ok (take len (drop r dev), s'))
      × At dev blocks bs s' (r + len)
unfolding read_rounds
read_rounds_lem fuel dev blocks bs r zero s at h le =
    (s, done fuel, subst (At dev blocks bs s) (omega arith) at)
  where
    done : (fuel : ℕ) → read_rounds fuel s 0 ≡ ok ([], s)
    done zero = refl
    done (suc n) = refl
read_rounds_lem zero dev blocks bs r (suc len) s at h le = absurd (omega arith)
read_rounds_lem (suc fuel) dev blocks bs r (suc len) s at h le =
    let (m, s1, e, at1, one, m_le, fits) =
      read_lem dev blocks bs r (suc len) s at (omega arith) (omega arith) in
    let (s2, e2, at2) =
      read_rounds_lem fuel dev blocks bs (r + m) (suc len - m) s1 at1 (omega arith) (omega arith) in
    let size = length_slice m r dev fits in
    (
      s2,
      rw (nonzero (suc len) (omega arith), e, size, nonzero m one, e2)
          (ap (λ b. ok (b, s2)) (slices m (suc len) r dev m_le)),
      subst (At dev blocks bs s2) (omega arith) at2,
    )

-- On a device that is a whole number of buffers, a read of bytes that are on the device succeeds,
-- whatever is buffered: it returns them all and leaves the reader behind them.
pub read_exact_lem :
    (dev : Bytes) (blocks bs r len : ℕ) (s : BlockReader)
    → At dev blocks bs s r
    → r + len ≤ length dev
    → (s' : BlockReader) × (read_exact s len ≡ ok (take len (drop r dev), s'))
      × At dev blocks bs s' (r + len)
unfolding read_exact
read_exact_lem dev blocks bs r len s at h =
    read_rounds_lem len dev blocks bs r len s at h (omega arith)
