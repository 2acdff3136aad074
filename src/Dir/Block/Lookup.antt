-- ===== src/Dir/Block/Lookup.antt =====
-- `lookup` in a block directory (src/libxfuse/dir3_block.rs): the hash index against a plain search.
use xfuse.Base.{◌<◌, ◌≡◌, refl, ap, ◌∙◌, List, [], ◌∷◌, lt→ltb, length, drop, keep, ok, ◌>>=◌}
use xfuse.Codec.{Bytes, Bincode, decode}
use xfuse.Sb.{Sb}
use xfuse.Dir.{Dir2DataEntry, Dir2LeafEntry, get_data_entry}
use xfuse.Dir.Index.{byte_address}
use xfuse.Dir.Index.Range.{IsIndex, has_hash, get_addresses-keep}
use xfuse.Dir.Index.Names.{by_name, IsIndexOf, by_name-keep}
use xfuse.Dir.Block.{Dir2Block, lookup_addresses, block_lookup}
use xfuse.DaBtree.Hash.{hashname}
use mathlib.Core.List.{map}

module _ (bc : Bincode) (sb : Sb) (raw : Bytes) where
  -- The entry of the index gives the address of the record, and the hash of its name.
  pub record Points (ent : Dir2LeafEntry) (e : Dir2DataEntry) : Type 0 where
    pub inside : byte_address ent < length raw
    pub read_back : decode (get_data_entry bc sb) (drop (byte_address ent) raw) ≡ ok e
    pub hashed : ent.hashval ≡ hashname e.name

  lookup_all :
      (ents : List Dir2LeafEntry) (es : List Dir2DataEntry) (name : Bytes)
      → IsIndexOf Points ents es
      → lookup_addresses bc sb raw name (map byte_address ents) ≡ by_name name es
  unfolding lookup_addresses
  lookup_all [] [] name h = refl
  lookup_all [] (e ∷ es) name h = absurd h
  lookup_all (ent ∷ ents) [] name h = absurd h
  lookup_all (ent ∷ ents) (e ∷ es) name (p, h) = rw (
    lt→ltb (byte_address ent) (length raw) p.inside,
    p.read_back,
    ◌>>=◌,
    lookup_all ents es name h,
  )

-- When the index of a block directory is sorted by hash and gives, for each of the directory's entries,
-- its record and the hash of its name, then `lookup` returns what a search through all entries by name
-- returns: the inode number of the entry, and ENOENT when no entry has the name. Names whose hashes
-- collide are told apart.
pub block_lookup-by_name :
    (bc : Bincode) (sb : Sb) (dir : Dir2Block) (es : List Dir2DataEntry) (name : Bytes)
    → IsIndex dir.ents
    → IsIndexOf (Points bc sb dir.raw) dir.ents es
    → block_lookup bc sb dir name ≡ by_name name es
unfolding block_lookup
block_lookup-by_name bc sb dir es name s h =
    let (kept, h', q) =
      by_name-keep (Points bc sb dir.raw) (λ ent e p. p.hashed) dir.ents es name h in
    ap (lookup_addresses bc sb dir.raw name) (get_addresses-keep dir.ents (hashname name) s)
    ∙ lookup_all bc sb dir.raw (keep (has_hash (hashname name)) dir.ents) kept name h'
    ∙ q
