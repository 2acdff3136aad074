-- ===== src/Dir/Block/Records.antt =====
-- The records of a directory block, one behind the other: entries and unused space.
use xfuse.Base.{
  ℕ, ◌+◌, ◌-◌, ◌≤◌, ◌<◌, ◌≡◌, ◌≢◌, sym, ap, List, [], ◌∷◌, ◌++◌, arith, length, length-drop, drop,
  ok, le→ltb,
}
use xfuse.Codec.{Bytes, Bincode, IsBigEndian, be_at, uint_at, consume_at, ◌>>=◌, decode}
use xfuse.Sb.{Sb}
use xfuse.Dir.{Dir2DataEntry, get_data_unused, get_data_entry, get_length}
use xfuse.Dir.Entry.{record_size, entry_at, get_data_entry_lem}

pub data Rec : Type 0 where
  used : Dir2DataEntry → Rec
  unused : ℕ → Rec

module _ (sb : Sb) (raw : Bytes) where
  -- The entry at an offset; its tag is the offset.
  pub record IsUsed (off : ℕ) (e : Dir2DataEntry) : Type 0 where
    pub not_free : be_at (drop off raw) 0 2 ≢ 0xffff
    pub name_fits : be_at (drop off raw) 8 1 < 256
    pub fits : record_size sb (be_at (drop off raw) 8 1) ≤ length (drop off raw)
    pub decoded : e ≡ entry_at sb (drop off raw) (be_at (drop off raw) 8 1)
    pub tagged : e.tag ≡ off

  -- `len` bytes of unused space at an offset.
  pub record IsUnused (off len : ℕ) : Type 0 where
    pub free : be_at (drop off raw) 0 2 ≡ 0xffff
    pub size : be_at (drop off raw) 2 2 ≡ len
    pub least : 6 ≤ len
    pub fits : len ≤ length (drop off raw)

  -- The records from an offset to the end.
  abbrev pub IsRecords : ℕ → List Rec → Type 0
  IsRecords off [] = off ≡ length raw
  IsRecords off (used e ∷ rs) =
      IsUsed off e × IsRecords (off + record_size sb (be_at (drop off raw) 8 1)) rs
  IsRecords off (unused len ∷ rs) = IsUnused off len × IsRecords (off + len) rs

  pub record_size_pos : (n : ℕ) → 8 ≤ record_size sb n
  record_size_pos n = ground arith

  pub used_inside : (off : ℕ) (e : Dir2DataEntry) → IsUsed off e → off + 8 ≤ length raw
  used_inside off e u =
      omega (arith, u.fits, record_size_pos (be_at (drop off raw) 8 1), length-drop off raw)

  pub unused_inside : (off len : ℕ) → IsUnused off len → off + len ≤ length raw
  unused_inside off len u = omega (arith, u.fits, u.least, length-drop off raw)

  pub IsRecords-used :
      (front back : List Rec) (e : Dir2DataEntry) (off : ℕ)
      → IsRecords off (front ++ (used e ∷ back))
      → (at : ℕ) × (off ≤ at) × IsRecords at (used e ∷ back)
  IsRecords-used [] back e off h = (off, omega arith, h)
  IsRecords-used (used f ∷ front) back e off (u, h) =
      let (at, le, h') =
        IsRecords-used front back e (off + record_size sb (be_at (drop off raw) 8 1)) h in
      (at, omega arith, h')
  IsRecords-used (unused len ∷ front) back e off (u, h) =
      let (at, le, h') = IsRecords-used front back e (off + len) h in (at, omega arith, h')

  module _ {bc : Bincode} (law : IsBigEndian bc) where
    pub unused_at :
        (off len : ℕ) → IsUnused off len → decode (get_data_unused bc) (drop off raw) ≡ ok len
    unfolding get_data_unused
    unused_at off len u =
        let d = drop off raw in
        rw
          (
            uint_at law d 0 2 (omega (arith, u.least, u.fits)),
            uint_at law d 2 2 (omega (arith, u.least, u.fits)),
            u.size,
            le→ltb len 6 u.least,
            consume_at law d 4 (len - 6) (omega (arith, u.least, u.fits)),
            uint_at law d (4 + (len - 6)) 2 (omega (arith, u.least, u.fits)),
            ◌>>=◌,
          )
          (ap ok u.size)

    pub used_at :
        (off : ℕ) (e : Dir2DataEntry)
        → IsUsed off e
        → (decode (get_data_entry bc sb) (drop off raw) ≡ ok e)
          × (get_length bc sb (drop off raw) ≡ ok (record_size sb (be_at (drop off raw) 8 1)))
    used_at off e u =
        let (p, q) = get_data_entry_lem law sb (drop off raw) u.name_fits u.fits in
        (rw p (ap ok (sym u.decoded)), q)

    pub tag_at :
        (off : ℕ)
        → 2 ≤ length (drop off raw)
        → decode (bc.uint 2) (drop off raw) ≡ ok (be_at (drop off raw) 0 2)
    tag_at off h = rw (uint_at law (drop off raw) 0 2 h)
