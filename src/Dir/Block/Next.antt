-- ===== src/Dir/Block/Next.antt =====
-- `next` in a block directory (src/libxfuse/dir3_block.rs) against the records of the block.
use xfuse.Base.{
  bind_ok, nat_eq-false, ℕ, zero, suc, ◌+◌, ◌^◌, ◌≤◌, ◌<◌, ◌≡◌, sym, subst, List, [], ◌∷◌, ◌++◌,
  lt→ltb, le→ltb, ◌==◌, ==_iff, arith, length, length-drop, drop, true, false, Outcome, ok, err,
  map_ok, add64_small, ◌>>=◌,
}
use xfuse.Codec.{Bytes, Bincode, IsBigEndian, be_at}
use xfuse.Sb.{Sb}
use xfuse.FileType.{enoent}
use xfuse.Dir.{Dir2DataEntry}
use xfuse.Dir.Entry.{record_size}
use xfuse.Dir.Sf.{Dirent, kind_of}
use xfuse.Dir.Block.{Dir2Block, next_rounds, block_next}
use xfuse.Dir.Block.Records.{
  used_inside, unused_inside, Rec, used, unused, IsRecords, IsRecords-used, record_size_pos,
  unused_at, used_at, tag_at,
}

-- What `next` tells of an entry.
abbrev pub dirent_of : Dir2DataEntry → Outcome ℕ Dirent
dirent_of e =
    map_ok (λ kind. record { ino = e.inumber; offset = e.tag; kind = kind; name = e.name })
      (kind_of e.ftype)

-- The first entry of the records.
abbrev pub first_used : List Rec → Outcome ℕ Dirent
first_used [] = err enoent
first_used (used e ∷ rs) = dirent_of e
first_used (unused len ∷ rs) = first_used rs

dirent_bind :
    (e : Dir2DataEntry)
    → (kind_of e.ftype >>= λ kind.
        ok (record { ino = e.inumber; offset = e.tag; kind = kind; name = e.name }))
      ≡ dirent_of e
dirent_bind e = bind_ok (kind_of e.ftype) _

module _ {bc : Bincode} (law : IsBigEndian bc) (sb : Sb) (raw : Bytes)
    (small : length raw < 2 ^ 63) where
  -- With `next` set, the first entry is returned.
  from_record :
      (rs : List Rec) (fuel off : ℕ)
      → IsRecords sb raw off rs
      → length raw ≤ off + fuel
      → next_rounds bc sb fuel raw true off ≡ first_used rs
  unfolding next_rounds
  from_record [] zero off h le = rw (le→ltb off (length raw) (omega (arith, h)), next_rounds)
  from_record [] (suc fuel) off h le = rw (le→ltb off (length raw) (omega (arith, h)), next_rounds)
  from_record (used e ∷ rs) zero off (u, h) le = absurd (omega (arith, used_inside sb raw off e u))
  from_record (unused len ∷ rs) zero off (u, h) le =
      absurd (omega (arith, unused_inside sb raw off len u, u.least))
  from_record (used e ∷ rs) (suc fuel) off (u, h) le =
      let inside = used_inside sb raw off e u in
      let size = length-drop off raw in
      rw
        (
          lt→ltb off (length raw) (omega arith),
          tag_at sb raw law off (omega arith),
          nat_eq-false _ _ u.not_free,
          (used_at sb raw law off e u).0,
          ◌>>=◌,
        )
        (dirent_bind e)
  from_record (unused len ∷ rs) (suc fuel) off (u, h) le =
      let inside = unused_inside sb raw off len u in
      let size = length-drop off raw in
      let six = u.least in
      let free : (be_at (drop off raw) 0 2 == 0xffff) ≡ true = (==_iff _ _).1 u.free in
      rw
        (
          lt→ltb off (length raw) (omega arith),
          tag_at sb raw law off (omega arith),
          free,
          unused_at sb raw law off len u,
          add64_small off len (omega arith),
          ◌>>=◌,
        )
        (from_record rs fuel (off + len) h (omega arith))

  -- Without it, the entry at the cursor is passed over first.
  behind_record :
      (rs : List Rec) (e : Dir2DataEntry) (fuel off : ℕ)
      → IsRecords sb raw off (used e ∷ rs)
      → length raw ≤ off + fuel
      → next_rounds bc sb fuel raw false off ≡ first_used rs
  unfolding next_rounds
  behind_record rs e zero off (u, h) le = absurd (omega (arith, used_inside sb raw off e u))
  behind_record rs e (suc fuel) off (u, h) le =
      let inside = used_inside sb raw off e u in
      let size = length-drop off raw in
      let n = record_size sb (be_at (drop off raw) 8 1) in
      let pos = record_size_pos sb raw (be_at (drop off raw) 8 1) in
      rw
        (
          lt→ltb off (length raw) (omega arith),
          tag_at sb raw law off (omega arith),
          nat_eq-false _ _ u.not_free,
          (used_at sb raw law off e u).1,
          add64_small off n (omega (arith, u.fits)),
          ◌>>=◌,
        )
        (from_record rs fuel (off + n) h (omega arith))

from_zero : (n : ℕ) → 0 + n ≡ n
from_zero n = omega arith

-- In a block whose data region is a row of records that carry their offsets as tags, `next` from
-- cursor 0 returns the first entry, and from the tag of an entry the first one behind it, past any
-- unused space; when there is none it fails with ENOENT. It ends, whatever the records are.
pub block_next_lem :
    {bc : Bincode} (law : IsBigEndian bc) (sb : Sb) (dir : Dir2Block) (rs : List Rec)
    → IsRecords sb dir.raw dir.data_offset rs
    → 0 < dir.data_offset
    → 0 < length dir.raw
    → length dir.raw < 2 ^ 63
    → (block_next bc sb dir 0 ≡ first_used rs)
      × ((front back : List Rec) (e : Dir2DataEntry)
          → rs ≡ front ++ (used e ∷ back)
          → block_next bc sb dir e.tag ≡ first_used back)
unfolding block_next
block_next_lem {bc} law sb dir rs h start some_bytes small = (
  rw (lt→ltb 0 (length dir.raw) some_bytes, from_zero dir.data_offset)
      (from_record law sb dir.raw small rs (length dir.raw) dir.data_offset h (omega arith)),
  behind,
)
  where
    cursor :
        (off : ℕ) (back : List Rec) (e : Dir2DataEntry)
        → 0 < off
        → e.tag ≡ off
        → IsRecords sb dir.raw off (used e ∷ back)
        → block_next bc sb dir off ≡ first_used back
    cursor off back e pos tag (u, r) =
        let inside = used_inside sb dir.raw off e u in
        rw
          (
            lt→ltb off (2 ^ 63) (omega arith),
            lt→ltb off (length dir.raw) (omega arith),
            nat_eq-false off 0 (λ z. absurd (omega arith)),
            block_next,
          )
          (behind_record law sb dir.raw small back e (length dir.raw) off (u, r) (omega arith))

    behind :
        (front back : List Rec) (e : Dir2DataEntry)
        → rs ≡ front ++ (used e ∷ back)
        → block_next bc sb dir e.tag ≡ first_used back
    behind front back e split =
        let (at, le, r) =
          IsRecords-used sb dir.raw front back e dir.data_offset
            (subst (IsRecords sb dir.raw dir.data_offset) split h) in
        let tag = r.0.tagged in
        subst (λ z. block_next bc sb dir z ≡ first_used back) (sym tag)
          (cursor at back e (omega arith) tag r)
