-- ===== src/Dir/Entry.antt =====
-- The decoders of src/libxfuse/dir3.rs take as many bytes as the on-disk sizes say.
use xfuse.Base.{
  ℕ, ◌+◌, ◌-◌, ◌*◌, ◌/◌, ◌%◌, ◌≤◌, ◌<◌, ◌≡◌, subst, sym, none, some, true, false, arith, length,
  take, drop, ok, if◌then◌else◌, Bool-cases, inl, inr,
}
use xfuse.Codec.{Bytes, Bincode, IsBigEndian, be_at, uint_at, read_at, consume_at, ◌>>=◌}
use xfuse.Sb.{Sb, has_ftype}
use xfuse.Dir.{Dir2DataEntry, get_length, get_data_entry}

-- The size of a record: 8 bytes of inode number, the length byte, the name, the type byte if the file
-- system has it and 2 bytes of tag, rounded up to a multiple of 8.
abbrev pub record_size : Sb → ℕ → ℕ
record_size sb n = if has_ftype sb then (n + 12 + 7) / 8 * 8 else (n + 11 + 7) / 8 * 8

-- Where the tag stands: the padding is what is missing to 2 below a multiple of 8.
typed_tag : (n : ℕ) → n < 256 → 9 + n + 1 + (4 + 256 - n) % 8 ≡ (n + 12 + 7) / 8 * 8 - 2
typed_tag n h = omega arith

untyped_tag : (n : ℕ) → n < 256 → 9 + n + (5 + 256 - n) % 8 ≡ (n + 11 + 7) / 8 * 8 - 2
untyped_tag n h = omega arith

-- The record that stands at the head of `raw`.
abbrev pub entry_at : Sb → Bytes → ℕ → Dir2DataEntry
entry_at sb raw n = record {
  inumber = be_at raw 0 8;
  name = take n (drop 9 raw);
  ftype = if has_ftype sb then some (be_at raw (9 + n) 1) else none;
  tag = be_at raw (record_size sb n - 2) 2;
}

module _ {bc : Bincode} (law : IsBigEndian bc) (sb : Sb) (raw : Bytes) where
  abbrev namelen : ℕ
  namelen = be_at raw 8 1

  get_length_at : 9 ≤ length raw → get_length bc sb raw ≡ ok (record_size sb namelen)
  unfolding get_length
  get_length_at long = rw (uint_at law raw 8 1 long) (ground arith)

  typed :
      has_ftype sb ≡ true
      → namelen < 256
      → (namelen + 12 + 7) / 8 * 8 ≤ length raw
      → get_data_entry bc sb raw
        ≡ ok (entry_at sb raw namelen, drop ((namelen + 12 + 7) / 8 * 8) raw)
  unfolding get_data_entry
  typed t small fits = rw (
    uint_at law raw 0 8 (omega arith),
    uint_at law raw 8 1 (omega arith),
    read_at law raw 9 namelen (omega arith),
    t,
    uint_at law raw (9 + namelen) 1 (omega arith),
    t,
    consume_at law raw (9 + namelen + 1) ((4 + 256 - namelen) % 8) (omega arith),
    typed_tag namelen small,
    uint_at law raw ((namelen + 12 + 7) / 8 * 8 - 2) 2 (omega arith),
    back,
    ◌>>=◌,
  )
    where
      back : (namelen + 12 + 7) / 8 * 8 - 2 + 2 ≡ (namelen + 12 + 7) / 8 * 8
      back = omega arith

  untyped :
      has_ftype sb ≡ false
      → namelen < 256
      → (namelen + 11 + 7) / 8 * 8 ≤ length raw
      → get_data_entry bc sb raw
        ≡ ok (entry_at sb raw namelen, drop ((namelen + 11 + 7) / 8 * 8) raw)
  unfolding get_data_entry
  untyped t small fits = rw (
    uint_at law raw 0 8 (omega arith),
    uint_at law raw 8 1 (omega arith),
    read_at law raw 9 namelen (omega arith),
    t,
    t,
    consume_at law raw (9 + namelen) ((5 + 256 - namelen) % 8) (omega arith),
    untyped_tag namelen small,
    uint_at law raw ((namelen + 11 + 7) / 8 * 8 - 2) 2 (omega arith),
    back,
    ◌>>=◌,
  )
    where
      back : (namelen + 11 + 7) / 8 * 8 - 2 + 2 ≡ (namelen + 11 + 7) / 8 * 8
      back = omega arith

  -- A record that lies in the block whole is decoded from its places, and what decoding it takes is
  -- what `get_length` says.
  pub get_data_entry_lem :
      namelen < 256
      → record_size sb namelen ≤ length raw
      → (get_data_entry bc sb raw ≡ ok (entry_at sb raw namelen, drop (record_size sb namelen) raw))
        × (get_length bc sb raw ≡ ok (record_size sb namelen))
  get_data_entry_lem small fits = elim (Bool-cases (has_ftype sb)) [
    | inl t ↦
        let fits' : (namelen + 12 + 7) / 8 * 8 ≤ length raw = (rw t at fits) in
        (
          subst (λ z. get_data_entry bc sb raw ≡ ok (entry_at sb raw namelen, drop z raw))
              (sym (size_typed t)) (typed t small fits'),
          get_length_at (omega arith),
        )
    | inr t ↦
        let fits' : (namelen + 11 + 7) / 8 * 8 ≤ length raw = (rw t at fits) in
        (
          subst (λ z. get_data_entry bc sb raw ≡ ok (entry_at sb raw namelen, drop z raw))
              (sym (size_untyped t)) (untyped t small fits'),
          get_length_at (omega arith),
        )
  ]
    where
      size_typed : has_ftype sb ≡ true → record_size sb namelen ≡ (namelen + 12 + 7) / 8 * 8
      size_typed t = rw t

      size_untyped : has_ftype sb ≡ false → record_size sb namelen ≡ (namelen + 11 + 7) / 8 * 8
      size_untyped t = rw t
