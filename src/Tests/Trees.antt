-- ===== src/Tests/Trees.antt =====
-- `map_block` of src/libxfuse/btree.rs in a B+tree of a root, a node and two leaves.
use xfuse.Base.{ℕ, refl, [], ◌∷◌, ◌++◌, arith, replicate, false}
use xfuse.Codec.{Bytes, slice_reader, repeat}
use xfuse.Codec.Encode.{be_bytes}
use xfuse.Sb.{fsb_to_offset, fsb_to_daddr}
use xfuse.Bmbt.{BmbtRec, Bmx, of_u128, new}
use xfuse.Bmbt.Decode.{to_u128}
use xfuse.Bmbt.Extents.{IsBmx}
use xfuse.Btree.Header.{get_btree_hdr, get_record}
use xfuse.Btree.Node.{
  btree, intermediate, empty, get_intermediate, intermediate_of, get_leaf, btree_new, cache_new,
}
use xfuse.Btree.Map.{load_block, map_block}
use xfuse.Btree.Search.{IsTree, Answers, map_block-Answers}
use xfuse.Tests.Names.{small, padded}

abbrev early : BmbtRec
early = record { br_startoff = 0; br_startblock = 100; br_blockcount = 4; br_flag = false }

abbrev late : BmbtRec
late = record { br_startoff = 10; br_startblock = 200; br_blockcount = 2; br_flag = false }

abbrev hdr : ℕ → ℕ → Bytes
hdr level numrecs =
    be_bytes 4 0x424d4150 ++ (be_bytes 2 level ++ (be_bytes 2 numrecs ++ replicate 16 0))

abbrev leaf_block : BmbtRec → Bytes
leaf_block r = padded (hdr 0 1 ++ be_bytes 16 (to_u128 r))

abbrev node_block : Bytes
node_block = padded (
    hdr 1 2
    ++ (be_bytes 8 0 ++ (be_bytes 8 10 ++ (replicate 224 0 ++ (be_bytes 8 1 ++ be_bytes 8 2)))))

abbrev tree_device : Bytes
tree_device = replicate 512 0 ++ (leaf_block early ++ (leaf_block late ++ node_block))

abbrev extents : Bmx
extents = early ∷ late ∷ []

early-IsBmx : IsBmx (early ∷ [])
early-IsBmx = (
  (
    record {
      off_fits = omega arith;
      block_fits = omega arith;
      count_fits = omega arith;
      nonempty = omega arith;
    },
    tt,
    tt,
  ),
  (refl, tt),
)

late-IsBmx : IsBmx (late ∷ [])
late-IsBmx = (
  (
    record {
      off_fits = omega arith;
      block_fits = omega arith;
      count_fits = omega arith;
      nonempty = omega arith;
    },
    tt,
    tt,
  ),
  (refl, tt),
)

tree_device-IsTree : IsTree slice_reader small tree_device 89 1 (0 ∷ []) (3 ∷ []) extents
unfolding load_block get_intermediate intermediate_of get_btree_hdr btree_new cache_new repeat
    get_leaf get_record of_u128 to_u128 new fsb_to_offset fsb_to_daddr
tree_device-IsTree = (
  0,
  10 ∷ [],
  1 ∷ 2 ∷ [],
  refl,
  (
    early ∷ [],
    late ∷ [],
    refl,
    omega arith,
    (refl, early-IsBmx),
    (omega arith, tt),
    (omega arith, tt),
    (refl, late-IsBmx),
  ),
)

map_block-Answers_example :
    Answers slice_reader small tree_device 89 1 (0 ∷ []) (3 ∷ []) extents 11 (
      map_block slice_reader small tree_device 89 2
        (btree 2 (0 ∷ []) (3 ∷ []) (intermediate empty))
        11)
map_block-Answers_example =
    map_block-Answers slice_reader small tree_device 89 1 2 0 [] (3 ∷ []) extents
      (intermediate empty) 11 tree_device-IsTree tt (omega arith)
