-- ===== src/BlockReader/Seeks.antt =====
-- The seeks of src/libxfuse/block_reader.rs: where they leave the reader, and the buffer's size.
use xfuse.Base.{
  ℕ, ◌+◌, ◌-◌, ◌*◌, ◌/◌, ◌^◌, ◌≤◌, ◌<◌, ◌≡◌, refl, sym, ap, ◌∙◌, inl, inr, Bool-cases, subst, ◌&&◌,
  ltb, leb, ◌==◌, arith, length, take, drop, ok, Bool, true, false, le→leb, lt→leb, lt→ltb, ltb→lt,
  add64, sub64, u64_mod, add64_small, sub64_small, whole_block,
}
use xfuse.Codec.{Bytes}
use xfuse.BlockReader.{BlockReader, start, current, bufsize, seek, seek_start}
use xfuse.BlockReader.Position.{IsAt, At, IsAt-index, refill_lem}

-- A reader of the device whose buffer has `bs` bytes; what is buffered and where it stands is open.
pub record IsReader (dev : Bytes) (blocks bs : ℕ) (s : BlockReader) : Type 0 where
  pub device : s.file ≡ dev
  pub whole : length dev ≡ blocks * bs
  pub positive : 0 < bs
  pub sized : bufsize s ≡ bs

quotient :
    (bs p blocks : ℕ)
    → 0 < bs
    → p < blocks * bs
    → (p / bs * bs ≤ p) × (p - p / bs * bs < bs) × (p / bs * bs + bs ≤ blocks * bs)
quotient bs p blocks pos h =
    (below, grind arith, whole_block (p / bs) blocks bs (omega (arith, below)))
  where
    below : p / bs * bs ≤ p
    below = grind arith

and_right : (a b : Bool) → (a && b) ≡ true → b ≡ true
and_right true b h = h
and_right false b h = absurd (ground arith)

zero_test : (n : ℕ) → 0 < n → (n == 0) ≡ false
zero_test n h = ground arith

-- On a device that is a whole number of buffers, a seek from the start to a byte of the device
-- succeeds from any state of the reader, returns the position and leaves the reader there.
pub seek_start_lem :
    (dev : Bytes) (blocks bs p : ℕ) (s : BlockReader)
    → IsReader dev blocks bs s
    → p < length dev
    → (s' : BlockReader) × (seek s (start p) ≡ ok (p, s')) × At dev blocks bs s' p
unfolding seek seek_start
seek_start_lem dev blocks bs p s h lt =
    let k = p / bs in
    let (below, rem, fits) = quotient bs p blocks h.positive (omega (arith, h.whole)) in
    let at_block = record s { position = k * bs } in
    let (_, at) =
      refill_lem dev blocks bs k at_block h.device h.whole h.positive h.sized refl
        (omega (arith, h.whole)) in
    let s1 = record s { block = take bs (drop (k * bs) dev); position = k * bs + bs; idx = 0 } in
    let p_eq : k * bs + (p - k * bs) ≡ p = omega arith in
    (
      record s1 { idx = p - k * bs },
      rw (
        h.sized,
        h.device,
        zero_test bs h.positive,
        lt→ltb (p - k * bs) bs rem,
        le→leb (k * bs + bs) (length dev) (omega (arith, h.whole)),
        p_eq,
      ),
      (
        k,
        subst (λ z. IsAt dev blocks bs (record s1 { idx = p - k * bs }) z k) p_eq
            (IsAt-index dev blocks bs (k * bs) k (p - k * bs) s1 at (omega arith)),
      ),
    )

pub At-IsReader :
    (dev : Bytes) (blocks bs r : ℕ) (s : BlockReader)
    → At dev blocks bs s r
    → IsReader dev blocks bs s
At-IsReader dev blocks bs r s (k, h) = record {
  device = h.device;
  whole = h.whole;
  positive = h.positive;
  sized = h.sized;
}

-- On a device that is a whole number of buffers and has less than 2^63 bytes, a seek by an offset,
-- positive or negative, to a byte of the device succeeds, returns the new position and leaves the
-- reader there, whether or not that byte is buffered.
pub seek_current_lem :
    (dev : Bytes) (blocks bs r offset : ℕ) (s : BlockReader)
    → At dev blocks bs s r
    → offset < u64_mod
    → length dev < 2 ^ 63
    → add64 r offset < length dev
    → (s' : BlockReader) × (seek s (current offset) ≡ ok (add64 r offset, s'))
      × At dev blocks bs s' (add64 r offset)
unfolding seek
seek_current_lem dev blocks bs r offset s (k, h) small size lt =
    let base : sub64 s.position (bufsize s) ≡ k * bs =
      sub64_small s.position (bufsize s) (omega (arith, h.ahead, h.sized))
        (omega (arith, h.ahead, h.within))
      ∙ omega (arith, h.ahead, h.sized) in
    let here : add64 (k * bs) s.idx ≡ r =
      add64_small (k * bs) s.idx (omega (arith, h.within, h.inside)) ∙ sym h.cursor in
    let new = add64 offset s.idx in
    elim (Bool-cases (ltb new (2 ^ 63) && ltb new (bufsize s))) [
      | inl t ↦
          let inside =
            ltb→lt new (bufsize s) (and_right (ltb new (2 ^ 63)) (ltb new (bufsize s)) t) in
          let target : k * bs + new ≡ add64 r offset = omega (arith, h.cursor, h.within, h.sized) in
          (
            record s { idx = new },
            rw (t, base)
                (ap (λ z. ok (z, record s { idx = new }))
                  (add64_small (k * bs) new (omega (arith, h.within, h.sized)) ∙ target)),
            (
              k,
              subst (λ z. IsAt dev blocks bs (record s { idx = new }) z k) target
                  (IsAt-index dev blocks bs r k new s h (omega (arith, h.sized))),
            ),
          )
      | inr f ↦
          let not_neg : leb (2 ^ 63) (add64 r offset) ≡ false =
            lt→leb (2 ^ 63) (add64 r offset) (omega arith) in
          let (s', e, at) =
            seek_start_lem dev blocks bs (add64 r offset) s (At-IsReader dev blocks bs r s (k, h))
              lt in
          (s', rw (f, base, here, not_neg) e, at)
    ]
