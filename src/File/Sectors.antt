-- ===== src/File/Sectors.antt =====
-- `read_sectors` of src/libxfuse/file.rs returns what the file holds.
use xfuse.Base.{
  ℕ, zero, suc, ◌+◌, ◌-◌, ◌*◌, ◌^◌, ◌≤◌, ◌<◌, ◌≡◌, sym, ap, ◌∙◌, inl, inr, Bool-cases, [], Option,
  none, some, arith, length, leb, ◌==◌, leb→le, le→leb, lt→leb, leb→lt, pos_pow, mul_le, add64,
  shl64, add64_small, u64_mod, Outcome, ok, false, div_facts,
}
use xfuse.Codec.{Bytes}
use xfuse.Sb.{Sb, fsb_to_offset}
use xfuse.Bmbt.Runs.{shl64_exact}
use xfuse.BlockReader.{BlockReader}
use xfuse.BlockReader.Seeks.{IsReader, At-IsReader, seek_start_lem}
use xfuse.BlockReader.Reads.{read_exact_lem}
use xfuse.File.{read_run, read_loop, read_sectors}
use mathlib.Core.List.{append-nil}
use native.Mathlib.Nat.{mul-sub, mul_comm}
use xfuse.File.Contents.{contents, contents_split, contents_row, contents_hole, InRow}

le_mul : (x p : ℕ) → 0 < p → x ≤ x * p
le_mul x p h = grind arith

mul_lt_mul : (a b p : ℕ) → a < b → 0 < p → a * p < b * p
mul_lt_mul a b p lt pos = let le = mul_le (suc a) b p lt in omega (arith, step, le)
  where
    step : suc a * p ≡ a * p + p
    step = grind arith

mul_sub : (a b p : ℕ) → a * p - b * p ≡ (a - b) * p
mul_sub a b p = omega (arith, mul_comm (a - b) p, mul_comm a p, mul_comm b p, mul-sub p a b)

zero_test : (n : ℕ) → 0 < n → (n == 0) ≡ false
zero_test n h = ground arith

module _ (sb : Sb) (extent : ℕ → Outcome ℕ (Option ℕ × ℕ)) (dev : Bytes) (m : ℕ → Option ℕ) where
  abbrev bs : ℕ
  bs = 2 ^ sb.sb_blocklog

  -- What an answer of `get_extent` at block `d` tells: the blocks of the run are a hole, or lie in a row
  -- on the device.
  abbrev pub Covers : ℕ → Option ℕ × ℕ → Type 0
  Covers d (none, n) = (0 < n) × ((d + n) * bs < u64_mod) × ((i : ℕ) → i < n → m (d + i) ≡ none)
  Covers d (some b, n) =
      (0 < n)
      × ((d + n) * bs < u64_mod)
      × InRow (fsb_to_offset sb) dev bs m d n (fsb_to_offset sb b)
      × (fsb_to_offset sb b + n * bs ≤ length dev)

  -- A file whose blocks below `limit` are told of right.
  pub record IsFile (limit : ℕ) : Type 0 where
    pub answers : (d : ℕ) → d < limit → (a : Option ℕ × ℕ) × (extent d ≡ ok a) × Covers d a
    pub small_log : sb.sb_blocklog < 64

  run_words :
      (d n : ℕ)
      → sb.sb_blocklog < 64
      → (d + n) * bs < u64_mod
      → (shl64 n sb.sb_blocklog ≡ n * bs) × (add64 d n ≡ d + n)
  run_words d n small fits = (
    shl64_exact n sb.sb_blocklog small (omega (arith, mul_le n (d + n) bs (omega arith))),
    add64_small d n (omega (arith, le_mul (d + n) bs (pos_pow sb.sb_blocklog))),
  )

  module _ (blocks size : ℕ) where
    read_run_lem :
        (r : BlockReader) (d j : ℕ) (a : Option ℕ × ℕ)
        → IsReader dev blocks size r
        → Covers d a
        → 1 ≤ j
        → j ≤ a.1
        → (r' : BlockReader) × (read_run sb extent r a.0 (j * bs)
            ≡ ok (contents (fsb_to_offset sb) dev bs m d j, r'))
          × IsReader dev blocks size r'
    unfolding read_run
    read_run_lem r d j (none, n) reader (pos, fits, hole) one le =
        let zeros = contents_hole (fsb_to_offset sb) dev bs m j d (λ i lt. hole i (omega arith)) in
        (r, ap (λ b. ok (b, r)) (sym zeros), reader)
    read_run_lem r d j (some b, n) reader (pos, fits, row, inside) one le =
        let o = fsb_to_offset sb b in
        let p = pos_pow sb.sb_blocklog in
        let some_bytes : 1 ≤ j * bs = omega (arith, p, mul_le 1 j bs one) in
        let within : o + j * bs ≤ length dev = omega (arith, mul_le j n bs le) in
        let (r1, e1, at1) = seek_start_lem dev blocks size o r reader (omega arith) in
        let (r2, e2, at2) = read_exact_lem dev blocks size o (j * bs) r1 at1 within in
        let bytes = contents_row (fsb_to_offset sb) dev bs m j d o (λ i lt. row i (omega arith)) in
        (
          r2,
          rw (e1, e2) (ap (λ c. ok (c, r2)) (sym bytes)),
          At-IsReader dev blocks size (o + j * bs) r2 at2,
        )

    nothing_left :
        (fuel : ℕ) (r : BlockReader) (d rest : ℕ)
        → rest ≡ 0
        → read_loop sb extent fuel r d rest ≡ ok ([], r)
    unfolding read_loop
    nothing_left zero r d rest e = rw e
    nothing_left (suc fuel) r d rest e = rw e

    -- The loop has read `k` blocks from block `d` on.
    abbrev Reads : ℕ → ℕ → Outcome ℕ (Bytes × BlockReader) → Type 0
    Reads d k o =
        (r' : BlockReader) × (o ≡ ok (contents (fsb_to_offset sb) dev bs m d k, r'))
        × IsReader dev blocks size r'

    covered :
        (d : ℕ) (a : Option ℕ × ℕ)
        → sb.sb_blocklog < 64
        → Covers d a
        → (0 < a.1) × (shl64 a.1 sb.sb_blocklog ≡ a.1 * bs) × (add64 d a.1 ≡ d + a.1)
    covered d (none, n) small (pos, fits, hole) =
        let (room, next) = run_words d n small fits in (pos, room, next)
    covered d (some b, n) small (pos, fits, row, inside) =
        let (room, next) = run_words d n small fits in (pos, room, next)

    -- The run holds all that is left.
    last_round :
        (fuel d k : ℕ) (a : Option ℕ × ℕ) (r : BlockReader)
        → sb.sb_blocklog < 64
        → IsReader dev blocks size r
        → extent d ≡ ok a
        → Covers d a
        → 1 ≤ k
        → k ≤ a.1
        → Reads d k (read_loop sb extent (suc fuel) r d (k * bs))
    unfolding read_loop
    last_round fuel d k a r small reader e covers one le =
        let (r1, e1, reader1) = read_run_lem r d k a reader covers one le in
        let (pos, room, next) = covered d a small covers in
        (
          r1,
          rw
              (
                zero_test (k * bs) (omega (arith, pos_pow sb.sb_blocklog, mul_le 1 k bs one)),
                e,
                room,
                le→leb (k * bs) (a.1 * bs) (mul_le k a.1 bs le),
                e1,
                nothing_left fuel r1 (add64 d a.1) (k * bs - k * bs) (omega arith),
              )
              (ap (λ c. ok (c, r1)) (append-nil (contents (fsb_to_offset sb) dev bs m d k))),
          reader1,
        )

    joined :
        (fuel d k : ℕ) (a : Option ℕ × ℕ) (r r1 r2 : BlockReader)
        → extent d ≡ ok a
        → shl64 a.1 sb.sb_blocklog ≡ a.1 * bs
        → add64 d a.1 ≡ d + a.1
        → a.1 < k
        → read_run sb extent r a.0 (a.1 * bs) ≡ ok (contents (fsb_to_offset sb) dev bs m d a.1, r1)
        → read_loop sb extent fuel r1 (d + a.1) ((k - a.1) * bs)
          ≡ ok (contents (fsb_to_offset sb) dev bs m (d + a.1) (k - a.1), r2)
        → read_loop sb extent (suc fuel) r d (k * bs)
          ≡ ok (contents (fsb_to_offset sb) dev bs m d k, r2)
    unfolding read_loop
    joined fuel d k a r r1 r2 e room next lt e1 e2 =
        rw
          (
            zero_test (k * bs) (omega (arith, pos_pow sb.sb_blocklog, mul_le 1 k bs (omega arith))),
            e,
            room,
            lt→leb (k * bs) (a.1 * bs) (mul_lt_mul a.1 k bs lt (pos_pow sb.sb_blocklog)),
            e1,
            next,
            mul_sub k a.1 bs,
            e2,
          )
          (ap (λ c. ok (c, r2))
            (sym (contents_split (fsb_to_offset sb) dev bs m d a.1 (k - a.1))
              ∙ ap (λ n. contents (fsb_to_offset sb) dev bs m d n) (omega arith)))

    -- More is left after the run.
    inner_round :
        (fuel d k : ℕ) (a : Option ℕ × ℕ) (r : BlockReader)
        → sb.sb_blocklog < 64
        → IsReader dev blocks size r
        → extent d ≡ ok a
        → Covers d a
        → a.1 < k
        → ((r1 : BlockReader)
            → IsReader dev blocks size r1
            → Reads (d + a.1) (k - a.1) (read_loop sb extent fuel r1 (d + a.1) ((k - a.1) * bs)))
        → Reads d k (read_loop sb extent (suc fuel) r d (k * bs))
    inner_round fuel d k a r small reader e covers lt rest =
        let (pos, room, next) = covered d a small covers in
        let (r1, e1, reader1) = read_run_lem r d a.1 a reader covers pos (omega arith) in
        let (r2, e2, reader2) = rest r1 reader1 in
        (r2, joined fuel d k a r r1 r2 e room next lt e1 e2, reader2)

    read_loop_lem :
        (fuel limit k d : ℕ) (r : BlockReader)
        → IsFile limit
        → IsReader dev blocks size r
        → d + k ≤ limit
        → k * bs ≤ fuel
        → Reads d k (read_loop sb extent fuel r d (k * bs))
    read_loop_lem fuel limit zero d r file reader inside le =
        (r, nothing_left fuel r d (0 * bs) (omega arith), reader)
    read_loop_lem zero limit (suc k) d r file reader inside le =
        absurd (omega (arith, pos_pow sb.sb_blocklog, mul_le 1 (suc k) bs (omega arith)))
    read_loop_lem (suc fuel) limit (suc k) d r file reader inside le =
        let (a, e, covers) = file.answers d (omega arith) in
        let (pos, room, next) = covered d a file.small_log covers in
        elim (Bool-cases (leb (suc k) a.1)) [
          | inl t ↦
              last_round fuel d (suc k) a r file.small_log reader e covers (omega arith)
                (leb→le (suc k) a.1 t)
          | inr f ↦
              let lt = leb→lt (suc k) a.1 f in
              let less =
                mul_lt_mul (suc k - a.1) (suc k) bs (omega arith) (pos_pow sb.sb_blocklog) in
              inner_round fuel d (suc k) a r file.small_log reader e covers lt (λ r1 reader1.
                read_loop_lem fuel limit (suc k - a.1) (d + a.1) r1 file reader1 (omega arith)
                  (omega arith))
        ]

    -- Read from the start of a block, whole blocks below the limit come back as the file holds them:
    -- the device's bytes where a block is mapped and zeros in a hole, runs and holes joined. This
    -- holds when `get_extent` answers right below the limit and the device is a whole number of
    -- buffers; the loop does not run out of rounds.
    pub read_sectors_lem :
        (limit k d : ℕ) (r : BlockReader)
        → IsFile limit
        → IsReader dev blocks size r
        → d + k ≤ limit
        → (r' : BlockReader) × (read_sectors sb extent r (d * bs) (k * bs)
            ≡ ok (contents (fsb_to_offset sb) dev bs m d k, r'))
          × IsReader dev blocks size r'
    unfolding read_sectors
    read_sectors_lem limit k d r file reader inside =
        let (r', e, reader') =
          read_loop_lem (k * bs) limit k d r file reader inside (omega arith) in
        (r', rw ((div_facts bs d 0 (pos_pow sb.sb_blocklog)).0) e, reader')
