-- ===== src/Attr/Leafblock/Operations.antt =====
-- The operations of `AttrLeafblock` in src/libxfuse/attr.rs.
use xfuse.Base.{
  ℕ, zero, suc, List, [], ◌∷◌, ◌++◌, Option, none, some, Outcome, ok, err, ◌>>=◌, index,
}
use xfuse.Codec.{Bytes, Bincode, slice_to}
use xfuse.Sb.{Sb}
use xfuse.Attr.{get_namespace_from_flags, get_namespace_size_from_flags, add32}
use xfuse.Attr.Leafblock.{AttrLeafEntry, AttrLeafName, local, remote, AttrLeafblock}
use xfuse.Attr.Leafblock.Value.{value}
use mathlib.Core.List.{map}

unfoldable pub namelen : AttrLeafName → ℕ
namelen (local l) = l.namelen
namelen (remote r) = r.namelen

unfoldable pub name : AttrLeafName → Outcome ℕ Bytes
name (local l) = slice_to l.nameval l.namelen
name (remote r) = slice_to r.name r.namelen

-- The loop of `get_total_size`, over entries and names together.
unfoldable pub total_from : ℕ → List AttrLeafEntry → List AttrLeafName → ℕ
unfolding namelen
total_from total (e ∷ es) (n ∷ ns) =
    total_from (add32 total (add32 (add32 (get_namespace_size_from_flags e.flags) (namelen n)) 1))
      es ns
total_from total _ _ = total

unfoldable pub leaf_total_size : AttrLeafblock → ℕ
unfolding total_from
leaf_total_size leaf = total_from 0 leaf.entries leaf.names

-- The loop of `list`, which writes behind what the list holds.
unfoldable pub list_onto : Bytes → List AttrLeafEntry → List AttrLeafName → Outcome ℕ Bytes
unfolding name
list_onto list (e ∷ es) (n ∷ ns) = do
  bytes ← name n
  list_onto (((list ++ get_namespace_from_flags e.flags) ++ bytes) ++ (0 ∷ [])) es ns
list_onto list _ _ = ok list

unfoldable pub leaf_list : AttrLeafblock → Bytes → Outcome ℕ Bytes
unfolding list_onto
leaf_list leaf list = list_onto list leaf.entries leaf.names

-- Write at an index that is there.
abbrev pub set : List AttrLeafName → ℕ → AttrLeafName → List AttrLeafName
set [] i n = []
set (m ∷ ns) zero n = n ∷ ns
set (m ∷ ns) (suc i) n = m ∷ set ns i n

-- `search` stands for the standard library's `binary_search_by_key`, which of several entries that have
-- the hash may return any. The value is returned with the block that keeps it.
unfoldable pub leaf_get :
    (List ℕ → ℕ → Option ℕ)
    → ℕ
    → Bincode
    → Sb
    → Bytes
    → (ℕ → Outcome ℕ ℕ)
    → ℕ
    → AttrLeafblock
    → ℕ
    → Outcome ℕ (Bytes × AttrLeafblock)
unfolding value
leaf_get search enoattr bc sb device map_dblock fuel leaf hash =
    elim (search (map (λ (e : AttrLeafEntry). e.hashval) leaf.entries) hash) [
      | none ↦ err enoattr
      | some i ↦ do
        n ← index leaf.names i
        (v, n1) ← value bc sb device map_dblock fuel n
        ok (v, record leaf { names = set leaf.names i n1 })
    ]
