-- ===== src/Bmbt/Extents.antt =====
-- What an extent list of src/libxfuse/bmbt_rec.rs means, told without search: the disk block behind
-- each block of the file, and the lists for which that is well defined.
use xfuse.Base.{
  ℕ, ◌+◌, ◌-◌, ◌^◌, ◌≤◌, ◌<◌, ◌≡◌, refl, Bool, false, not, ◌&&◌, Option, none, some, List, [], ◌∷◌,
  arith, leb, ltb, if◌then◌else◌, keep,
}
use xfuse.Bmbt.{BmbtRec, Bmx, new}

abbrev pub contains : BmbtRec → ℕ → Bool
contains r d = leb r.br_startoff d && ltb d (r.br_startoff + r.br_blockcount)

-- The disk block behind block `d` of the file; `none` is a hole.
abbrev pub mapped : Bmx → ℕ → Option ℕ
mapped [] d = none
mapped (r ∷ rs) d =
    if contains r d then some (r.br_startblock + (d - r.br_startoff)) else mapped rs d

-- A record whose fields have the widths of the on-disk format, and which is not empty.
pub record IsRecord (r : BmbtRec) : Type 0 where
  pub off_fits : r.br_startoff < 2 ^ 54
  pub block_fits : r.br_startblock < 2 ^ 52
  pub count_fits : r.br_blockcount < 2 ^ 21
  pub nonempty : 0 < r.br_blockcount

abbrev pub Precedes : BmbtRec → List BmbtRec → Type 0
Precedes r [] = Unit {0}
Precedes r (q ∷ qs) = r.br_startoff + r.br_blockcount ≤ q.br_startoff

-- Records in file order that do not overlap, as they stand on disk.
abbrev pub IsOrdered : List BmbtRec → Type 0
IsOrdered [] = Unit {0}
IsOrdered (r ∷ rs) = IsRecord r × Precedes r rs × IsOrdered rs

abbrev pub AllWritten : List BmbtRec → Type 0
AllWritten [] = Unit {0}
AllWritten (r ∷ rs) = (r.br_flag ≡ false) × AllWritten rs

-- An ordered list of written extents.
abbrev pub IsBmx : Bmx → Type 0
IsBmx bmx = IsOrdered bmx × AllWritten bmx

-- Nothing is mapped below the first record, nor by a record past its end.
abbrev pub Below : ℕ → Bmx → Type 0
Below d [] = Unit {0}
Below d (r ∷ rs) = d < r.br_startoff

pub mapped-Below : (bmx : Bmx) (d : ℕ) → IsOrdered bmx → Below d bmx → mapped bmx d ≡ none
mapped-Below [] d o b = refl
mapped-Below (r ∷ []) d o b = ground arith
mapped-Below (r ∷ q ∷ rs) d (h, p, o) b = ground (arith, h, mapped-Below (q ∷ rs) d o (omega arith))

pub mapped_skip :
    (r : BmbtRec) (rs : Bmx) (d : ℕ)
    → r.br_startoff + r.br_blockcount ≤ d
    → mapped (r ∷ rs) d ≡ mapped rs d
mapped_skip r rs d h = ground arith

pub mapped_head :
    (r : BmbtRec) (rs : Bmx) (d : ℕ)
    → r.br_startoff ≤ d
    → d < r.br_startoff + r.br_blockcount
    → mapped (r ∷ rs) d ≡ some (r.br_startblock + (d - r.br_startoff))
mapped_head r rs d lo hi = ground arith

Precedes-keep :
    (r : BmbtRec) (rs : List BmbtRec)
    → Precedes r rs
    → IsOrdered rs
    → Precedes r (keep (λ rec. not rec.br_flag) rs)
Precedes-keep r [] p o = tt
Precedes-keep r (q ∷ []) p o = ground arith
Precedes-keep r (q ∷ s ∷ rs) p (h, ps, o) =
    ground (arith, h, Precedes-keep r (s ∷ rs) (omega arith) o)

-- Of an ordered list of records `Bmx::new` leaves an ordered list of written extents.
pub new-IsBmx : (rs : List BmbtRec) → IsOrdered rs → IsBmx (new rs)
unfolding new
new-IsBmx [] o = (tt, tt)
new-IsBmx (r ∷ rs) (h, p, o) =
    let (os, ws) = new-IsBmx rs o in ground (arith, Precedes-keep r rs p o, os, ws)
