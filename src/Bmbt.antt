-- ===== src/Bmbt.antt =====
-- src/libxfuse/bmbt_rec.rs: extent records and the ordered extent list (`Bmx`).
pub mod Extents
pub mod Decode
pub mod Lookup
pub mod Runs
pub mod SeekBlocks
pub mod Seek
use xfuse.Base.{
  ℕ, zero, suc, ◌-◌, ◌/◌, ◌%◌, ◌^◌, Bool, not, ◌||◌, Option, none, some, List, [], ◌∷◌, leb, ltb,
  ◌==◌, if◌then◌else◌, length, get_elem?, keep, partition_point, add64, sub64, shl64, shr64,
  Outcome, ok, panic, ◌>>=◌, ◌>>◌, assert, index, expect_some, ok_or,
}
use mathlib.Core.Option

pub record BmbtRec : Type 0 where
  pub br_startoff : ℕ
  pub br_startblock : ℕ
  pub br_blockcount : ℕ
  pub br_flag : Bool

-- `Decode for BmbtRec`, from the 128-bit word on: `& ((1 << k) - 1)` is `% 2 ^ k`.
unfoldable pub of_u128 : ℕ → BmbtRec
of_u128 br =
    let br' = br / 2 ^ 21 in
    let br'' = br' / 2 ^ 52 in
    record {
      br_startoff = br'' % 2 ^ 54;
      br_startblock = br' % 2 ^ 52;
      br_blockcount = br % 2 ^ 21;
      br_flag = not (br'' / 2 ^ 54 == 0);
    }

-- The value of `Bmx(Vec<BmbtRec>)`.
abbrev pub Bmx : Type 0
Bmx = List BmbtRec

-- `Bmx::new` and `From for Bmx`: unwritten extents are dropped.
unfoldable pub new : List BmbtRec → Bmx
new bmx = keep (λ rec. not rec.br_flag) bmx

abbrev pub errno_enxio : ℕ
errno_enxio = 6

abbrev pub seek_hole : ℕ
seek_hole = 4

abbrev pub seek_data : ℕ
seek_data = 3

-- The arms of `match self.0.partition_point(..)` in `get_extent`.
abbrev get_extent_at : Bmx → ℕ → ℕ → Outcome ℕ (Option ℕ × Option ℕ)
get_extent_at bmx dblock zero =
    ok (none, Option.map (λ (b : BmbtRec). sub64 b.br_startoff dblock) (get_elem? bmx 0))
get_extent_at bmx dblock (suc i) = do
  entry ← index bmx i
  let skip = sub64 dblock entry.br_startoff
  let after =
      Option.map (λ (e : BmbtRec). sub64 (sub64 e.br_startoff entry.br_startoff) skip)
        (get_elem? bmx (suc i))
  if ltb dblock (add64 entry.br_startoff entry.br_blockcount)
      then (do
        assert (not entry.br_flag)
        ok (some (add64 entry.br_startblock skip), some (sub64 entry.br_blockcount skip)))
      else ok (none, after)

unfoldable pub get_extent : Bmx → ℕ → Outcome ℕ (Option ℕ × Option ℕ)
get_extent bmx dblock =
    get_extent_at bmx dblock (partition_point (λ entry. leb entry.br_startoff dblock) bmx)

-- `self.0.last()`.
abbrev pub last? : Bmx → Option BmbtRec
last? [] = none
last? (r ∷ []) = some r
last? (r ∷ q ∷ rs) = last? (q ∷ rs)

-- The scan of `lseek` for the next hole, from index `j` with `rounds` left of
-- `for j in (i - 1)..self.0.len() - 1`, and what follows that loop.
unfoldable pub next_hole : Bmx → ℕ → ℕ → ℕ → Outcome ℕ ℕ
next_hole bmx blocklog j zero = do
  entry ← expect_some (last? bmx)
  ok (shl64 (add64 entry.br_startoff entry.br_blockcount) blocklog)
next_hole bmx blocklog j (suc rounds) =
    let rest = next_hole bmx blocklog (suc j) rounds in
    do
      before ← index bmx j
      after ← index bmx (suc j)
      let br_end = add64 before.br_startoff before.br_blockcount
      if ltb br_end after.br_startoff then ok (shl64 br_end blocklog) else rest

-- The arms of `match self.0.partition_point(..)` in `lseek`.
unfoldable pub lseek_at : Bmx → ℕ → ℕ → ℕ → ℕ → Outcome ℕ ℕ
unfolding next_hole
lseek_at bmx blocklog offset whence zero =
    if whence == seek_hole
    then ok offset
    else ok_or (Option.map (λ (b : BmbtRec). shl64 b.br_startoff blocklog) (get_elem? bmx 0))
        errno_enxio
lseek_at bmx blocklog offset whence (suc i) = do
  cur_entry ← index bmx i
  let br_end = add64 cur_entry.br_startoff cur_entry.br_blockcount
  let rounds = length bmx - 1 - i
  let next = Option.map (λ (e : BmbtRec). shl64 e.br_startoff blocklog) (get_elem? bmx (suc i))
  if ltb (shr64 offset blocklog) br_end
      then (if whence == seek_hole then next_hole bmx blocklog i rounds else ok offset)
      else (if whence == seek_hole then ok offset else ok_or next errno_enxio)

-- `blocklog` is the superblock's `sb_blocklog`.
unfoldable pub lseek : Bmx → ℕ → ℕ → ℕ → Outcome ℕ ℕ
unfolding lseek_at
lseek bmx blocklog offset whence =
    let dblock = shr64 offset blocklog in
    lseek_at bmx blocklog offset whence
      (partition_point (λ entry. leb entry.br_startoff dblock) bmx)

-- `map_dblock` from `let rec = &self.0[i - 1]` on, for a partition point `i + 1`.
abbrev map_dblock_at : Bmx → ℕ → ℕ → Outcome ℕ (Option ℕ)
map_dblock_at bmx dblock i = do
  rec ← index bmx i
  if ltb dblock rec.br_startoff || leb (add64 rec.br_startoff rec.br_blockcount) dblock
      then ok none
      else ok (some (sub64 (add64 rec.br_startblock dblock) rec.br_startoff))

-- `self.0[i - 1]` comes before the test `i == 0`: for `i == 0` the index is out of bounds.
unfoldable pub map_dblock : Bmx → ℕ → Outcome ℕ (Option ℕ)
map_dblock bmx dblock = elim (partition_point (λ rec. leb rec.br_startoff dblock) bmx) [
  | zero ↦ panic
  | suc i ↦ map_dblock_at bmx dblock i
]
