-- ===== src/Attr/Leafblock/Listing.antt =====
-- `list` and `get_total_size` of src/libxfuse/attr.rs: the names of a block, each behind its name space and
-- closed by a NUL, and their size.
use xfuse.Base.{
  ℕ, ◌+◌, ◌^◌, ◌<◌, ◌≤◌, ◌≡◌, refl, sym, ap, ◌∙◌, List, [], ◌∷◌, ◌++◌, arith, length, length-append,
  length-take, take, le→leb, ok, ◌>>=◌,
}
use xfuse.Codec.{Bytes, slice_to}
use xfuse.Attr.{get_namespace_from_flags, get_namespace_size_from_flags, add32}
use xfuse.Attr.Leafblock.{AttrLeafEntry, AttrLeafName, local, remote, AttrLeafblock}
use xfuse.Attr.Leafblock.Operations.{
  namelen, name, total_from, leaf_total_size, list_onto, leaf_list,
}
use mathlib.Core.List.{append_assoc, append-nil, map}
use mathlib.Core.Path.{fun_ext}

-- The bytes of a name.
unfoldable pub name_bytes : AttrLeafName → Bytes
name_bytes (local l) = take l.namelen l.nameval
name_bytes (remote r) = take r.namelen r.name

-- The name is as long as its length says.
abbrev pub IsNamed : AttrLeafName → Type 0
IsNamed (local l) = l.namelen ≤ length l.nameval
IsNamed (remote r) = r.namelen ≤ length r.name

abbrev pub AreNamed : List AttrLeafName → Type 0
AreNamed [] = Unit
AreNamed (n ∷ ns) = IsNamed n × AreNamed ns

-- What `listxattr` shows of a list of entries.
abbrev pub names_of : List AttrLeafEntry → List AttrLeafName → Bytes
names_of (e ∷ es) (n ∷ ns) =
    get_namespace_from_flags e.flags ++ (name_bytes n ++ (0 ∷ names_of es ns))
names_of _ _ = []

name_lem : (n : AttrLeafName) → IsNamed n → name n ≡ ok (name_bytes n)
unfolding name name_bytes
name_lem (local l) h = rw (le→leb l.namelen (length l.nameval) h)
name_lem (remote r) h = rw (le→leb r.namelen (length r.name) h)

length-name_bytes : (n : AttrLeafName) → IsNamed n → length (name_bytes n) ≡ namelen n
unfolding name_bytes namelen
length-name_bytes (local l) h = omega (arith, length-take l.namelen l.nameval)
length-name_bytes (remote r) h = omega (arith, length-take r.namelen r.name)

regroup :
    (list space bytes rest : Bytes)
    → (((list ++ space) ++ bytes) ++ (0 ∷ [])) ++ rest ≡ list ++ (space ++ (bytes ++ (0 ∷ rest)))
regroup list space bytes rest = simp append_assoc

pub list_onto_lem :
    (es : List AttrLeafEntry) (ns : List AttrLeafName) (list : Bytes)
    → AreNamed ns
    → list_onto list es ns ≡ ok (list ++ names_of es ns)
unfolding list_onto
list_onto_lem [] [] list h = ap ok (sym (append-nil list))
list_onto_lem [] (n ∷ ns) list h = ap ok (sym (append-nil list))
list_onto_lem (e ∷ es) [] list h = ap ok (sym (append-nil list))
list_onto_lem (e ∷ es) (n ∷ ns) list (h, hs) =
    let space = get_namespace_from_flags e.flags in
    rw (name_lem n h, list_onto)
      (list_onto_lem es ns (((list ++ space) ++ name_bytes n) ++ (0 ∷ [])) hs
        ∙ ap ok (regroup list space (name_bytes n) (names_of es ns)))

pub total_from_lem :
    (es : List AttrLeafEntry) (ns : List AttrLeafName) (total : ℕ)
    → AreNamed ns
    → total + length (names_of es ns) < 2 ^ 32
    → total_from total es ns ≡ total + length (names_of es ns)
unfolding total_from
total_from_lem [] [] total h lt = omega arith
total_from_lem [] (n ∷ ns) total h lt = omega arith
total_from_lem (e ∷ es) [] total h lt = omega arith
total_from_lem (e ∷ es) (n ∷ ns) total (h, hs) lt =
    let a = get_namespace_size_from_flags e.flags in
    let rest = length (names_of es ns) in
    let tail : length (name_bytes n ++ (0 ∷ names_of es ns)) ≡ namelen n + (1 + rest) =
      omega (arith, length-append (name_bytes n) (0 ∷ names_of es ns), length-name_bytes n h) in
    let size : length (names_of (e ∷ es) (n ∷ ns)) ≡ a + (namelen n + (1 + rest)) = omega (
      arith,
      tail,
      length-append (get_namespace_from_flags e.flags) (name_bytes n ++ (0 ∷ names_of es ns)),
    ) in
    let step : add32 total (add32 (add32 a (namelen n)) 1) ≡ total + (a + (namelen n + 1)) =
      omega (arith, size, lt) in
    total_from_lem es ns (add32 total (add32 (add32 a (namelen n)) 1)) hs
      (omega (arith, step, size, lt))
    ∙ omega (arith, step, size)

-- The block whose remote values have not been read.
abbrev pub blank : AttrLeafName → AttrLeafName
blank (local l) = local l
blank (remote r) = remote (record r { value = [] })

abbrev pub blank_block : AttrLeafblock → AttrLeafblock
blank_block leaf = record leaf { names = map blank leaf.names }

total_from-blank :
    (es : List AttrLeafEntry) (ns : List AttrLeafName) (total : ℕ)
    → total_from total es (map blank ns) ≡ total_from total es ns
unfolding total_from namelen
total_from-blank [] [] total = refl
total_from-blank [] (n ∷ ns) total = refl
total_from-blank (e ∷ es) [] total = refl
total_from-blank (e ∷ es) (local l ∷ ns) total = total_from-blank es ns _
total_from-blank (e ∷ es) (remote r ∷ ns) total = total_from-blank es ns _

list_onto-blank :
    (es : List AttrLeafEntry) (ns : List AttrLeafName) (list : Bytes)
    → list_onto list es (map blank ns) ≡ list_onto list es ns
unfolding list_onto name
list_onto-blank [] [] list = refl
list_onto-blank [] (n ∷ ns) list = refl
list_onto-blank (e ∷ es) [] list = refl
list_onto-blank (e ∷ es) (local l ∷ ns) list =
    ap (λ k. slice_to l.nameval l.namelen >>= k) (fun_ext λ bytes. list_onto-blank es ns _)
list_onto-blank (e ∷ es) (remote r ∷ ns) list =
    ap (λ k. slice_to r.name r.namelen >>= k) (fun_ext λ bytes. list_onto-blank es ns _)

-- Reading values does not change what is listed, nor its size.
pub leaf_list-blank :
    (leaf : AttrLeafblock) (list : Bytes) → leaf_list (blank_block leaf) list ≡ leaf_list leaf list
unfolding leaf_list
leaf_list-blank leaf list = list_onto-blank leaf.entries leaf.names list

pub leaf_total_size-blank :
    (leaf : AttrLeafblock) → leaf_total_size (blank_block leaf) ≡ leaf_total_size leaf
unfolding leaf_total_size
leaf_total_size-blank leaf = total_from-blank leaf.entries leaf.names 0
