-- ===== src/Tests/Attributes.antt =====
-- src/libxfuse/attr_shortform.rs on two attributes of the name "k".
use xfuse.Base.{◌≡◌, [], ◌∷◌, ◌++◌, arith, ok, replicate}
use xfuse.Codec.{slice_reader, slice_reader-IsBigEndian}
use xfuse.Codec.Encode.{be_bytes}
use xfuse.Attr.{AttrSfEntry, AttrShortform}
use xfuse.Attr.ShortformDecode.{get_attr_entry, get_shortform}
use xfuse.Attr.ShortformLaws.{
  IsEntry, listing, encode_shortform, attributes, get_shortform-encode_shortform,
}
use xfuse.Attr.Interface.{IsSized}
use xfuse.Attr.Overflow.{get_attr_entry_overflow}

abbrev trusted_k : AttrSfEntry
trusted_k = record { namelen = 1; flags = 2; nameval = b'k' ∷ 7 ∷ [] }

abbrev user_k : AttrSfEntry
user_k = record { namelen = 1; flags = 0; nameval = b'k' ∷ 8 ∷ 9 ∷ [] }

trusted-IsEntry : IsEntry trusted_k
trusted-IsEntry = record {
  name_inside = omega arith;
  nameval_fits = omega arith;
  flags_fit = omega arith;
}

user-IsEntry : IsEntry user_k
user-IsEntry = record {
  name_inside = omega arith;
  nameval_fits = omega arith;
  flags_fit = omega arith;
}

get_shortform-encode_shortform_example :
    (sf : AttrShortform) × (get_shortform slice_reader
        (encode_shortform 15 0 (trusted_k ∷ user_k ∷ []) ++ [])
      ≡ ok (sf, []))
    × (sf.list ≡ trusted_k ∷ user_k ∷ [])
    × IsSized (attributes 61) sf (listing (trusted_k ∷ user_k ∷ []))
get_shortform-encode_shortform_example =
    get_shortform-encode_shortform slice_reader-IsBigEndian 61 15 0 (trusted_k ∷ user_k ∷ []) []
      (omega arith) (omega arith) (omega arith) (trusted-IsEntry, (user-IsEntry, tt))

get_attr_entry_overflow_example :
    get_attr_entry slice_reader
      (be_bytes 1 6 ++ (be_bytes 1 250 ++ (be_bytes 1 0 ++ replicate 256 1)))
    ≡ ok (record { namelen = 6; flags = 0; nameval = [] }, replicate 256 1)
get_attr_entry_overflow_example =
    get_attr_entry_overflow slice_reader-IsBigEndian 6 250 0 (replicate 256 1) (omega arith)
      (omega arith) (omega arith) (omega arith) (omega arith)
