-- ===== src/Dir/SfLaws.antt =====
-- Short form directories of src/libxfuse/dir3_sf.rs: what is read back, found and listed.
use xfuse.Base.{
  lt→ltb, ℕ, ◌-◌, ◌^◌, ◌≤◌, ◌<◌, ◌≡◌, ◌≢◌, refl, Option, none, some, List, [], ◌∷◌, ◌++◌, ltb, true,
  false, if◌then◌else◌, ok, err, length, All, Bool-cases, inl, inr, le→leb, lt→leb, map_ok,
}
use xfuse.Codec.{Bytes, Bincode, IsBigEndian, ◌>>=◌}
use xfuse.Codec.Encode.{
  be_bytes, uint-be_bytes, read-append, bytes_eq, bytes_eq_iff, encode_all, repeat-encode_all,
}
use xfuse.Sb.{Sb, has_ftype}
use xfuse.Dir.{get_ftype}
use xfuse.Dir.Sf.{
  Dir2Sf, Dir2SfEntry, new_entry, dot, dot_dot, ft_dir, get_sf_hdr, get_sf_entry, get_dir2_sf,
  lookup, lookup_from, next, kind_of, no_more,
}
use xfuse.FileType.{enoent}
use mathlib.Core.List.{append_assoc}

-- The bytes of the optional file type.
abbrev pub ftype_bytes : Option ℕ → Bytes
ftype_bytes none = []
ftype_bytes (some t) = be_bytes 1 t

abbrev pub IsFtype : Sb → Option ℕ → Type 0
IsFtype sb none = has_ftype sb ≡ false
IsFtype sb (some t) = (has_ftype sb ≡ true) × (t < 256)

-- An entry on disk, with an inode number of `w` bytes.
abbrev pub encode_entry : ℕ → Dir2SfEntry → Bytes
encode_entry w e =
    be_bytes 1 (length e.name)
    ++ (be_bytes 2 e.offset ++ (e.name ++ (ftype_bytes e.ftype ++ be_bytes w e.inumber)))

pub record IsEntry (sb : Sb) (w : ℕ) (e : Dir2SfEntry) : Type 0 where
  pub name_fits : length e.name < 256
  pub offset_fits : e.offset < 65536
  pub ftype_fits : IsFtype sb e.ftype
  pub ino_fits : e.inumber < 256 ^ w

abbrev pub width : ℕ → ℕ
width i8count = if ltb 0 i8count then 8 else 4

abbrev pub encode_sf : ℕ → ℕ → List Dir2SfEntry → Bytes
encode_sf i8count parent es =
    be_bytes 1 (length es)
    ++ (be_bytes 1 i8count
        ++ (be_bytes (width i8count) parent ++ encode_all (encode_entry (width i8count)) es))

module _ {bc : Bincode} (law : IsBigEndian bc) (sb : Sb) where
  get_ftype-ftype_bytes :
      (t : Option ℕ) (more : Bytes)
      → IsFtype sb t
      → get_ftype bc sb (ftype_bytes t ++ more) ≡ ok (t, more)
  get_ftype-ftype_bytes none more h = rw h
  get_ftype-ftype_bytes (some t) more (h, lt) = rw (h, uint-be_bytes law 1 t more lt, ◌>>=◌)

  get_sf_entry-encode_entry :
      (w : ℕ) (e : Dir2SfEntry) (more : Bytes)
      → IsEntry sb w e
      → get_sf_entry bc sb w (encode_entry w e ++ more) ≡ ok (e, more)
  unfolding get_sf_entry
  get_sf_entry-encode_entry w e more h =
      let tail = be_bytes w e.inumber ++ more in
      rw (
        append_assoc e.name (ftype_bytes e.ftype ++ be_bytes w e.inumber) more,
        append_assoc (ftype_bytes e.ftype) (be_bytes w e.inumber) more,
        uint-be_bytes law 1 (length e.name)
            (be_bytes 2 e.offset ++ (e.name ++ (ftype_bytes e.ftype ++ tail))) h.name_fits,
        uint-be_bytes law 2 e.offset (e.name ++ (ftype_bytes e.ftype ++ tail)) h.offset_fits,
        read-append law e.name (ftype_bytes e.ftype ++ tail),
        get_ftype-ftype_bytes e.ftype tail h.ftype_fits,
        uint-be_bytes law w e.inumber more h.ino_fits,
        ◌>>=◌,
      )

  get_sf_hdr-encode :
      (n i8count parent : ℕ) (more : Bytes)
      → n < 256
      → i8count < 256
      → parent < 256 ^ width i8count
      → get_sf_hdr bc
          (be_bytes 1 n ++ (be_bytes 1 i8count ++ (be_bytes (width i8count) parent ++ more)))
        ≡ ok (record { count = n; i8count = i8count; parent = parent }, more)
  unfolding get_sf_hdr
  get_sf_hdr-encode n i8count parent more hn hi hp = rw (
    uint-be_bytes law 1 n (be_bytes 1 i8count ++ (be_bytes (width i8count) parent ++ more)) hn,
    uint-be_bytes law 1 i8count (be_bytes (width i8count) parent ++ more) hi,
    uint-be_bytes law (width i8count) parent more hp,
    ◌>>=◌,
  )

  All-entries :
      (w : ℕ) (es : List Dir2SfEntry)
      → All (IsEntry sb w) es
      → All
          (λ e. (more : Bytes) → get_sf_entry bc sb w (encode_entry w e ++ more) ≡ ok (e, more))
          es
  All-entries w [] h = tt
  All-entries w (e ∷ es) (h, hs) =
      (λ more. get_sf_entry-encode_entry w e more h, All-entries w es hs)

  -- A short form directory of less than 256 entries that is written in the on-disk format, every
  -- field in its width, is read back whole, with "." and ".." in front; what follows it is left.
  pub get_dir2_sf-encode_sf :
      (i8count parent : ℕ) (es : List Dir2SfEntry) (more : Bytes)
      → length es < 256
      → i8count < 256
      → parent < 256 ^ width i8count
      → All (IsEntry sb (width i8count)) es
      → get_dir2_sf bc sb (encode_sf i8count parent es ++ more)
        ≡ ok (new_entry dot ft_dir 1 (2 ^ 64 - 1) ∷ new_entry dot_dot ft_dir 2 parent ∷ es, more)
  unfolding get_dir2_sf
  get_dir2_sf-encode_sf i8count parent es more hn hi hp hes = rw (
    append_assoc (be_bytes (width i8count) parent) (encode_all (encode_entry (width i8count)) es)
        more,
    get_sf_hdr-encode (length es) i8count parent
        (encode_all (encode_entry (width i8count)) es ++ more) hn hi hp,
    repeat-encode_all (get_sf_entry bc sb (width i8count)) (encode_entry (width i8count)) es more
        (All-entries (width i8count) es hes),
    ◌>>=◌,
  )

-- No entry of the list has the name.
abbrev pub Absent : Bytes → Dir2Sf → Type 0
Absent name es = All (λ (e : Dir2SfEntry). e.name ≢ name) es

lookup_from-Absent :
    (inode : Option ℕ) (es : Dir2Sf) (name : Bytes)
    → Absent name es
    → lookup_from inode es name ≡ inode
unfolding lookup_from
lookup_from-Absent inode [] name h = refl
lookup_from-Absent inode (e ∷ es) name (h, hs) = elim (Bool-cases (bytes_eq e.name name)) [
  | inl t ↦ absurd (h ((bytes_eq_iff e.name name).0 t))
  | inr f ↦ rw f (lookup_from-Absent inode es name hs)
]

lookup_from_last :
    (inode : Option ℕ) (front : Dir2Sf) (e : Dir2SfEntry) (back : Dir2Sf)
    → Absent e.name back
    → lookup_from inode (front ++ (e ∷ back)) e.name ≡ some e.inumber
unfolding lookup_from
lookup_from_last inode [] e back h =
    rw ((bytes_eq_iff e.name e.name).1 refl, lookup_from)
      (lookup_from-Absent (some e.inumber) back e.name h)
lookup_from_last inode (f ∷ front) e back h =
    lookup_from_last (if bytes_eq f.name e.name then some f.inumber else inode) front e back h

-- `lookup` finds an entry that no later one of the same name follows.
pub lookup_last :
    (front : Dir2Sf) (e : Dir2SfEntry) (back : Dir2Sf)
    → Absent e.name back
    → lookup (front ++ (e ∷ back)) e.name ≡ ok e.inumber
unfolding lookup
lookup_last front e back h = rw (lookup_from_last none front e back h, lookup)

-- `lookup` of a name that no entry has is ENOENT.
pub lookup-Absent : (es : Dir2Sf) (name : Bytes) → Absent name es → lookup es name ≡ err enoent
unfolding lookup
lookup-Absent es name h = rw (lookup_from-Absent none es name h, lookup)

-- The entries at or before a cursor that is not negative are passed over, and the first one after it is returned with
-- its file type, or with the error for an unknown type.
pub next_lem :
    (front : Dir2Sf) (e : Dir2SfEntry) (back : Dir2Sf) (offset : ℕ)
    → offset < 2 ^ 63
    → All (λ (f : Dir2SfEntry). f.offset ≤ offset) front
    → offset < e.offset
    → next (front ++ (e ∷ back)) offset
      ≡ map_ok
          (λ kind. record { ino = e.inumber; offset = e.offset; kind = kind; name = e.name })
          (kind_of e.ftype)
unfolding next
next_lem [] e back offset pos h lt = rw (lt→ltb _ _ pos, lt→leb _ _ lt)
next_lem (f ∷ front) e back offset pos (h, hs) lt =
    rw (lt→ltb _ _ pos, le→leb _ _ h) (next_lem front e back offset pos hs lt)

-- When every entry is at or before a cursor that is not negative, `next` returns -1: the listing has ended.
pub next_end :
    (es : Dir2Sf) (offset : ℕ)
    → offset < 2 ^ 63
    → All (λ (f : Dir2SfEntry). f.offset ≤ offset) es
    → next es offset ≡ err no_more
unfolding next
next_end [] offset pos h = refl
next_end (e ∷ es) offset pos (h, hs) = rw (lt→ltb _ _ pos, le→leb _ _ h) (next_end es offset pos hs)
