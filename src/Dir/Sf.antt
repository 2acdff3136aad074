-- ===== src/Dir/Sf.antt =====
-- src/libxfuse/dir3_sf.rs: short form directories, whose entries stand in the inode.
use xfuse.Base.{
  Bool, ltb, ◌&&◌, ℕ, ◌-◌, ◌^◌, Option, none, some, List, [], ◌∷◌, ltb, leb, if◌then◌else◌, Outcome,
  ok, err, panic, map_ok,
}
use xfuse.Codec.{Bytes, Get, ◌>>=◌, pure, Bincode, repeat}
use xfuse.Codec.Encode.{bytes_eq}
use xfuse.Sb.{Sb}
use xfuse.Dir.{get_ftype}
use xfuse.FileType.{FileType, of_type, get_file_type, enoent}

pub record Dir2SfHdr : Type 0 where
  pub count : ℕ
  pub i8count : ℕ
  pub parent : ℕ

-- `Dir2SfEntry64`; `Dir2SfEntry32` has the same fields and is converted to it.
pub record Dir2SfEntry : Type 0 where
  pub offset : ℕ
  pub name : Bytes
  pub ftype : Option ℕ
  pub inumber : ℕ

-- The value of `Dir2Sf { list }`.
abbrev pub Dir2Sf : Type 0
Dir2Sf = List Dir2SfEntry

abbrev pub ft_dir : ℕ
ft_dir = 2

abbrev pub dot : Bytes
dot = b'.' ∷ []

abbrev pub dot_dot : Bytes
dot_dot = b'.' ∷ b'.' ∷ []

-- `Dir2SfEntry64::new`.
abbrev pub new_entry : Bytes → ℕ → ℕ → ℕ → Dir2SfEntry
new_entry name ftype offset inumber = record {
  offset = offset;
  name = name;
  ftype = some ftype;
  inumber = inumber;
}

module _ (bc : Bincode) where
  unfoldable pub get_sf_hdr : Get Dir2SfHdr
  get_sf_hdr = do
    count ← bc.uint 1
    i8count ← bc.uint 1
    parent ← bc.uint (if ltb 0 i8count then 8 else 4)
    pure (record { count = count; i8count = i8count; parent = parent })

  -- `Decode for Dir2SfEntry64` and `Decode for Dir2SfEntry32` differ in the width of the inode number.
  unfoldable pub get_sf_entry : Sb → ℕ → Get Dir2SfEntry
  get_sf_entry sb ino_bytes = do
    namelen ← bc.uint 1
    offset ← bc.uint 2
    name ← bc.read namelen
    ftype ← get_ftype bc sb
    inumber ← bc.uint ino_bytes
    pure (record { offset = offset; name = name; ftype = ftype; inumber = inumber })

  -- `Decode for Dir2Sf`: "." and ".." are not on disk.
  unfoldable pub get_dir2_sf : Sb → Get Dir2Sf
  unfolding get_sf_hdr repeat get_sf_entry
  get_dir2_sf sb = do
    hdr ← get_sf_hdr
    entries ← repeat hdr.count (get_sf_entry sb (if ltb 0 hdr.i8count then 8 else 4))
    pure (new_entry dot ft_dir 1 (2 ^ 64 - 1) ∷ new_entry dot_dot ft_dir 2 hdr.parent ∷ entries)

-- `set_ino`: `self.list[0].inumber = ino`.
unfoldable pub set_ino : Dir2Sf → ℕ → Outcome ℕ Dir2Sf
set_ino [] ino = panic
set_ino (e ∷ es) ino = ok (record e { inumber = ino } ∷ es)

-- The loop of `lookup`: a later entry of the same name replaces an earlier one.
unfoldable pub lookup_from : Option ℕ → Dir2Sf → Bytes → Option ℕ
lookup_from inode [] name = inode
lookup_from inode (e ∷ es) name =
    lookup_from (if bytes_eq e.name name then some e.inumber else inode) es name

unfoldable pub lookup : Dir2Sf → Bytes → Outcome ℕ ℕ
unfolding lookup_from
lookup list name = elim (lookup_from none list name) [ some ino ↦ ok ino | none ↦ err enoent ]

-- A dirent as `Dir3::next` returns it.
pub record Dirent : Type 0 where
  pub ino : ℕ
  pub offset : ℕ
  pub kind : Option FileType
  pub name : Bytes

-- `match entry.ftype { Some(ftype) => Some(get_file_type(..)?), None => None }`.
abbrev pub kind_of : Option ℕ → Outcome ℕ (Option FileType)
kind_of none = ok none
kind_of (some t) = map_ok some (get_file_type (of_type t))

-- `Err(-1)` at the end, here as the 32-bit pattern of -1.
abbrev pub no_more : ℕ
no_more = 2 ^ 32 - 1

-- The test `i64::from(entry.offset) <= offset`: the cursor is signed, as its bit pattern.
abbrev pub passed_over : (entry_offset offset : ℕ) → Bool
passed_over entry_offset offset = ltb offset (2 ^ 63) && leb entry_offset offset

unfoldable pub next : Dir2Sf → ℕ → Outcome ℕ Dirent
next [] offset = err no_more
next (e ∷ es) offset =
    let rest = next es offset in
    if passed_over e.offset offset
    then rest
    else map_ok (λ kind. record { ino = e.inumber; offset = e.offset; kind = kind; name = e.name })
        (kind_of e.ftype)
