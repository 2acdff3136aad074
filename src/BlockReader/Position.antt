-- ===== src/BlockReader/Position.antt =====
-- src/libxfuse/block_reader.rs against its contract: whatever is buffered, the reader is at one
-- position of the device, and reads and seeks go by that position.
use xfuse.Base.{
  ℕ, suc, ◌+◌, ◌-◌, ◌*◌, ◌≤◌, ◌<◌, ◌≡◌, refl, sym, inl, inr, Bool-cases, ==_iff, ◌==◌, arith,
  length, take, drop, length-drop, length-take, ok, false, le→leb, whole_block, subst,
}
use xfuse.Codec.{Bytes}
use xfuse.BlockReader.{BlockReader, bufsize, buffered, refill, refill_if_empty}

-- The device is `blocks` buffers of `bs` bytes, and the reader stands at position `r` of it, in buffer
-- `k` or at its end.
pub record IsAt (dev : Bytes) (blocks bs : ℕ) (s : BlockReader) (r k : ℕ) : Type 0 where
  pub device : s.file ≡ dev
  pub whole : length dev ≡ blocks * bs
  pub positive : 0 < bs
  pub sized : bufsize s ≡ bs
  pub inside : s.idx ≤ bs
  pub ahead : s.position ≡ k * bs + bs
  pub content : s.block ≡ take bs (drop (k * bs) dev)
  pub cursor : r ≡ k * bs + s.idx
  pub within : k * bs + bs ≤ length dev

abbrev pub At : Bytes → ℕ → ℕ → BlockReader → ℕ → Type 0
At dev blocks bs s r = (k : ℕ) × IsAt dev blocks bs s r k

-- The buffer's index moves the position inside the buffer.
pub IsAt-index :
    (dev : Bytes) (blocks bs r k i : ℕ) (s : BlockReader)
    → IsAt dev blocks bs s r k
    → i ≤ bs
    → IsAt dev blocks bs (record s { idx = i }) (k * bs + i) k
IsAt-index dev blocks bs r k i s h fits = record {
  device = h.device;
  whole = h.whole;
  positive = h.positive;
  sized = h.sized;
  inside = fits;
  ahead = h.ahead;
  content = h.content;
  cursor = refl;
  within = h.within;
}

-- What a refill at the start of block `k` leaves.
pub refill_lem :
    (dev : Bytes) (blocks bs k : ℕ) (s : BlockReader)
    → s.file ≡ dev
    → length dev ≡ blocks * bs
    → 0 < bs
    → bufsize s ≡ bs
    → s.position ≡ k * bs
    → k * bs + bs ≤ length dev
    → let s' = record s { block = take bs (drop (k * bs) dev); position = k * bs + bs; idx = 0 } in
      (refill s ≡ ok s') × IsAt dev blocks bs s' (k * bs) k
unfolding refill
refill_lem dev blocks bs k s device whole positive sized at fits = (
  rw (device, sized, at, le→leb (k * bs + bs) (length dev) fits),
  record {
    device = device;
    whole = whole;
    positive = positive;
    sized = omega (arith, length-take bs (drop (k * bs) dev), length-drop (k * bs) dev);
    inside = omega arith;
    ahead = refl;
    content = refl;
    cursor = omega arith;
    within = fits;
  },
)

-- With a byte left on the device, a refill if the buffer is empty keeps the position and leaves a byte
-- in the buffer.
pub refill_if_empty_lem :
    (dev : Bytes) (blocks bs r : ℕ) (s : BlockReader)
    → At dev blocks bs s r
    → r < length dev
    → (s' : BlockReader) × (refill_if_empty s ≡ ok s')
      × (k : ℕ) × IsAt dev blocks bs s' r k
      × (s'.idx < bs)
unfolding refill_if_empty
refill_if_empty_lem dev blocks bs r s (k, h) lt = elim (Bool-cases (buffered s == 0)) [
  | inl t ↦
      let empty : bs - s.idx ≡ 0 = omega (arith, h.sized, (==_iff (buffered s) 0).0 t) in
      let at_end : r ≡ suc k * bs = (rw next (omega arith)) in
      let fits : suc k * bs + bs ≤ length dev =
        rw h.whole (whole_block (suc k) blocks bs (omega arith)) in
      let filled = record s {
        block = take bs (drop (suc k * bs) dev);
        position = suc k * bs + bs;
        idx = 0;
      } in
      let (e, at) =
        refill_lem dev blocks bs (suc k) s h.device h.whole h.positive h.sized (rw next h.ahead)
          fits in
      (
        filled,
        rw t e,
        suc k,
        subst (λ z. IsAt dev blocks bs filled z (suc k)) (sym at_end) at,
        h.positive,
      )
  | inr f ↦ (s, rw f, k, h, nonempty (buffered s) bs s.idx (rw h.sized) f)
]
  where
    next : suc k * bs ≡ k * bs + bs
    next = grind arith

    nonempty : (b n i : ℕ) → b ≡ n - i → (b == 0) ≡ false → i < n
    nonempty b n i e f = ground arith
