-- ===== src/Attr/Leafblock/Decode.antt =====
-- `Decode for AttrLeafblock` of src/libxfuse/attr.rs: the entries of a block, and a name for each.
use xfuse.Base.{
  ◌%◌, List, [], ◌∷◌, leb, ◌==◌, if◌then◌else◌, length, drop, Outcome, ok, panic, map_ok, ◌>>=◌,
}
use xfuse.Codec.{Bytes, Get, DecodeError, Bincode, repeat}
use xfuse.Codec as C
use xfuse.Sb.{Sb}
use xfuse.Attr.Leafblock.{
  AttrLeafHdr, AttrLeafEntry, AttrLeafName, local, remote, AttrLeafblock, get_attr_leaf_hdr,
  get_attr_leaf_entry, get_local, get_remote,
}

-- The value of a decoder, with its errors.
abbrev value_of : {A : Type 0} → Outcome DecodeError (A × Bytes) → Outcome DecodeError A
value_of {A} o = map_ok (λ (r : A × Bytes). r.0) o

module _ (bc : Bincode) (sb : Sb) where
  -- The name of an entry; `XFS_ATTR_LOCAL` is bit 0. An index past the block is a panic.
  unfoldable pub name_at : Bytes → AttrLeafEntry → Outcome DecodeError AttrLeafName
  unfolding get_local get_remote
  name_at raw e =
      if leb e.nameidx (length raw)
      then (if e.flags % 2 == 1
          then map_ok local (value_of (get_local bc (drop e.nameidx raw)))
          else map_ok remote (value_of (get_remote bc (drop e.nameidx raw))))
      else panic

  unfoldable pub names_at : Bytes → List AttrLeafEntry → Outcome DecodeError (List AttrLeafName)
  unfolding name_at
  names_at raw [] = ok []
  names_at raw (e ∷ es) = do name ← name_at raw e; names ← names_at raw es; ok (name ∷ names)

  -- The header and the entries; `Vec::with_capacity` takes the capacity asked for.
  unfoldable pub get_entries : Get (AttrLeafHdr × List AttrLeafEntry)
  unfolding get_attr_leaf_hdr get_attr_leaf_entry repeat
  get_entries =
      C.◌>>=◌ (get_attr_leaf_hdr bc sb)
        λ hdr. C.◌>>=◌ (repeat hdr.count (get_attr_leaf_entry bc)) λ entries. C.pure (hdr, entries)

  -- What is decoded of a whole block.
  unfoldable pub block_of : Bytes → Outcome DecodeError AttrLeafblock
  unfolding get_entries names_at
  block_of raw = do
    (hdr, entries) ← value_of (get_entries raw)
    names ← names_at raw entries
    ok (record { hdr = hdr; entries = entries; names = names })

  unfoldable pub get_attr_leafblock : Get AttrLeafblock
  unfolding block_of
  get_attr_leafblock bs = do
    (raw, rest) ← bc.read sb.sb_blocksize bs
    block ← block_of raw
    ok (block, rest)
