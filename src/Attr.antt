-- ===== src/Attr.antt =====
-- src/libxfuse/attr.rs and src/libxfuse/attr_shortform.rs: name spaces, and the attributes that stand in
-- the inode. `enoattr` is libc's ENOATTR, whose number is the platform's.
pub mod Interface
pub mod ShortformDecode
pub mod ShortformLaws
pub mod Overflow
pub mod Leafblock
pub mod Leaf
pub mod Leaves
pub mod Node
pub mod Bptree
pub mod Fork
use xfuse.Base.{
  ℕ, ◌+◌, ◌-◌, ◌*◌, ◌/◌, ◌%◌, ◌^◌, Bool, List, [], ◌∷◌, ◌++◌, leb, ◌==◌, if◌then◌else◌, length,
  take, drop, Outcome, ok, err, panic, ◌>>=◌,
}
use xfuse.Codec.{Bytes, slice_to, slice_from}
use xfuse.Codec.Encode.{bytes_eq}

abbrev pub secure : Bytes
secure = b's' ∷ b'e' ∷ b'c' ∷ b'u' ∷ b'r' ∷ b'e' ∷ b'.' ∷ []

abbrev pub trusted : Bytes
trusted = b't' ∷ b'r' ∷ b'u' ∷ b's' ∷ b't' ∷ b'e' ∷ b'd' ∷ b'.' ∷ []

abbrev pub user : Bytes
user = b'u' ∷ b's' ∷ b'e' ∷ b'r' ∷ b'.' ∷ []

-- `XFS_ATTR_SECURE` is bit 2 and `XFS_ATTR_ROOT` is bit 1.
abbrev pub get_namespace_from_flags : ℕ → Bytes
get_namespace_from_flags flags =
    if flags / 4 % 2 == 1 then secure else if flags / 2 % 2 == 1 then trusted else user

abbrev pub get_namespace_size_from_flags : ℕ → ℕ
get_namespace_size_from_flags flags = length (get_namespace_from_flags flags)

abbrev pub add32 : ℕ → ℕ → ℕ
add32 a b = (a + b) % 2 ^ 32

pub record AttrSfEntry : Type 0 where
  pub namelen : ℕ
  pub flags : ℕ
  pub nameval : Bytes

pub record AttrShortform : Type 0 where
  pub list : List AttrSfEntry
  pub total_size : ℕ

-- The size that the loop of `Decode for AttrShortform` adds up.
abbrev pub sum_sizes : ℕ → List AttrSfEntry → ℕ
sum_sizes total [] = total
sum_sizes total (e ∷ es) =
    sum_sizes (add32 total (add32 (add32 (get_namespace_size_from_flags e.flags) e.namelen) 1)) es

-- The loop of `AttrShortform::list`, without the entries before.
unfoldable pub list_from : List AttrSfEntry → Outcome ℕ Bytes
list_from [] = ok []
list_from (e ∷ es) = do
  name ← slice_to e.nameval e.namelen
  rest ← list_from es
  ok (get_namespace_from_flags e.flags ++ (name ++ (0 ∷ rest)))

module _ (enoattr : ℕ) where
  -- The loop of `AttrShortform::get`.
  unfoldable pub get_from : List AttrSfEntry → Bytes → Outcome ℕ Bytes
  get_from [] name = err enoattr
  get_from (e ∷ es) name =
      let rest = get_from es name in
      do
        entry_name ← slice_to e.nameval e.namelen
        if bytes_eq name entry_name then slice_from e.nameval e.namelen else rest
