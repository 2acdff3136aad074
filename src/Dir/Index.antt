-- ===== src/Dir/Index.antt =====
-- The hash index of a directory: the entries of a leaf, sorted by hash, and the range of those that
-- have one hash (`Dir2Block::get_addresses` of src/libxfuse/dir3_block.rs and
-- `Dir2LeafNDisk::get_address_range` of src/libxfuse/dir3_lf.rs).
pub mod Range
pub mod Names
use xfuse.Base.{
  ℕ, suc, ◌+◌, ◌-◌, ◌*◌, ◌%◌, ◌^◌, List, [], ◌∷◌, Bool, ltb, if◌then◌else◌, take, drop,
  partition_point,
}
use xfuse.Dir.{Dir2LeafEntry}
use mathlib.Core.List.{map}

-- `Iterator::find` over the indices of a slice, `unwrap_or` its length.
abbrev pub find_index : {A : Type 0} → (A → Bool) → List A → ℕ
find_index p [] = 0
find_index p (x ∷ xs) = if p x then 0 else suc (find_index p xs)

-- `i..j`.
unfoldable pub get_address_range : List Dir2LeafEntry → ℕ → ℕ × ℕ
get_address_range ents hash =
    let i = partition_point (λ (ent : Dir2LeafEntry). ltb ent.hashval hash) ents in
    (i, i + find_index (λ (ent : Dir2LeafEntry). ltb hash ent.hashval) (drop i ents))

-- `ent.address << 3` of a u32.
abbrev pub byte_address : Dir2LeafEntry → ℕ
byte_address ent = ent.address * 2 ^ 3 % 2 ^ 32

unfoldable pub get_addresses : List Dir2LeafEntry → ℕ → List ℕ
unfolding get_address_range
get_addresses ents hash =
    let (i, j) = get_address_range ents hash in map byte_address (take (j - i) (drop i ents))
