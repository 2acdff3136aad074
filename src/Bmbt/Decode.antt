-- ===== src/Bmbt/Decode.antt =====
-- The 128-bit words of extent records (`Decode for BmbtRec` in src/libxfuse/bmbt_rec.rs).
use xfuse.Base.{ℕ, ◌+◌, ◌*◌, ◌/◌, ◌%◌, ◌^◌, ◌<◌, ◌≡◌, refl, Bool, true, false, not, ◌==◌, arith}
use xfuse.Bmbt.{BmbtRec, of_u128}

abbrev pub flag_bit : Bool → ℕ
flag_bit true = 1
flag_bit false = 0

-- The word of a record: from the top the flag, 54 bits of file block, 52 bits of disk block and 21 bits
-- of length.
abbrev pub to_u128 : BmbtRec → ℕ
to_u128 r =
    ((flag_bit r.br_flag * 2 ^ 54 + r.br_startoff) * 2 ^ 52 + r.br_startblock) * 2 ^ 21
    + r.br_blockcount

module _ (f o b c : ℕ) (ho : o < 2 ^ 54) (hb : b < 2 ^ 52) (hc : c < 2 ^ 21) where
  low :
      ((((f * 2 ^ 54 + o) * 2 ^ 52 + b) * 2 ^ 21 + c) % 2 ^ 21 ≡ c)
      × ((((f * 2 ^ 54 + o) * 2 ^ 52 + b) * 2 ^ 21 + c) / 2 ^ 21 ≡ (f * 2 ^ 54 + o) * 2 ^ 52 + b)
  low = (omega arith, omega arith)

  mid :
      (((f * 2 ^ 54 + o) * 2 ^ 52 + b) % 2 ^ 52 ≡ b)
      × (((f * 2 ^ 54 + o) * 2 ^ 52 + b) / 2 ^ 52 ≡ f * 2 ^ 54 + o)
  mid = (omega arith, omega arith)

  high : ((f * 2 ^ 54 + o) % 2 ^ 54 ≡ o) × ((f * 2 ^ 54 + o) / 2 ^ 54 ≡ f)
  high = (omega arith, omega arith)

flag_back : (f : Bool) → not (flag_bit f == 0) ≡ f
flag_back true = refl
flag_back false = refl

-- Every record whose fields have the widths of the format is read back from its word, also an empty one.
pub of_u128-to_u128 :
    (r : BmbtRec)
    → r.br_startoff < 2 ^ 54
    → r.br_startblock < 2 ^ 52
    → r.br_blockcount < 2 ^ 21
    → of_u128 (to_u128 r) ≡ r
unfolding of_u128
of_u128-to_u128 r ho hb hc =
    let f = flag_bit r.br_flag in
    let (c_eq, up) = low f r.br_startoff r.br_startblock r.br_blockcount ho hb hc in
    let (b_eq, up2) = mid f r.br_startoff r.br_startblock r.br_blockcount ho hb hc in
    let (o_eq, f_eq) = high f r.br_startoff r.br_startblock r.br_blockcount ho hb hc in
    rw (c_eq, up, b_eq, up2, o_eq, f_eq, flag_back r.br_flag)
