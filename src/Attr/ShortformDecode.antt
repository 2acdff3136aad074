-- ===== src/Attr/ShortformDecode.antt =====
-- The decoders of src/libxfuse/attr_shortform.rs.
use xfuse.Base.{◌+◌, ◌%◌}
use xfuse.Codec.{Get, pure, Bincode, repeat, ◌>>=◌}
use xfuse.Attr.{AttrSfEntry, AttrShortform, sum_sizes}

module _ (bc : Bincode) where
  -- The sum `namelen + valuelen` is taken on bytes.
  unfoldable pub get_attr_entry : Get AttrSfEntry
  get_attr_entry = do
    namelen ← bc.uint 1
    valuelen ← bc.uint 1
    flags ← bc.uint 1
    nameval ← bc.read ((namelen + valuelen) % 256)
    pure (record { namelen = namelen; flags = flags; nameval = nameval })

  unfoldable pub get_shortform : Get AttrShortform
  unfolding get_attr_entry repeat
  get_shortform = do
    _ ← bc.uint 2
    count ← bc.uint 1
    _ ← bc.uint 1
    list ← repeat count get_attr_entry
    pure (record { list = list; total_size = sum_sizes 0 list })
