-- ===== src/Tests/Leaves.antt =====
-- src/libxfuse/dir3_lf.rs: the node directory of Tests/Names, in which a name is found in the second of two
-- leaves, behind one of the same hash in the first.
use xfuse.Base.{◌≡◌, refl, [], ◌∷◌, ◌++◌, arith, ok}
use xfuse.Codec.{slice_reader, repeat}
use xfuse.Sb.{fsb_to_offset, fsb_to_daddr, has_ftype, get_dir3_leaf_offset}
use xfuse.Bmbt.{map_dblock}
use xfuse.DaBtree.Node.{
  intnode, nothing, get_intnode, peek_magic, get_node_hdr, get_blkinfo, get_node_entry,
}
use xfuse.DaBtree.Hash.{hashname, hash_rounds, xor}
use xfuse.Dir.{get_data_entry, get_leaf_entry}
use xfuse.Dir.Index.Names.{IsIndexOf}
use xfuse.Dir.Leaf.{dfork_map_dblock, read_fsblock, load_dblock, open_leaf, leaf_lookup}
use xfuse.Dir.Leaf.Disk.{btree, get_leafn, get_leaf_hdr}
use xfuse.Dir.Leaf.Cache.{Holds}
use xfuse.Dir.Leaf.Rounds.{PointsTo, Answers}
use xfuse.Dir.Leaf.Level.{IsLevel}
use xfuse.Dir.Leaf.Lookup.{leaf_lookup-by_name}
use xfuse.Tests.Names.{
  small, device, fork, entries, a_b, root_block, leaf1_block, leaf2_block, leaf1, leaf2, data_block,
  index,
}

root-Holds : Holds slice_reader small device fork (get_dir3_leaf_offset small) root_block
unfolding load_dblock dfork_map_dblock read_fsblock fsb_to_offset fsb_to_daddr map_dblock
    get_dir3_leaf_offset
root-Holds = refl

root_opens :
    open_leaf slice_reader small device fork root_block
    ≡ ok (btree (intnode 0xfebe 1 index nothing))
unfolding open_leaf get_intnode peek_magic get_node_hdr get_blkinfo get_node_entry repeat
root_opens = refl

level : IsLevel slice_reader small device fork index (leaf1 ∷ leaf2 ∷ [])
unfolding load_dblock dfork_map_dblock read_fsblock fsb_to_offset fsb_to_daddr map_dblock get_leafn
    peek_magic get_leaf_hdr get_blkinfo get_leaf_entry repeat
level = (
  record {
    raw = leaf1_block;
    holds = refl;
    read_back = refl;
    sorted = (tt, tt);
    ends = ([], _, refl, refl);
  },
  refl,
  (
    record {
      raw = leaf2_block;
      holds = refl;
      read_back = refl;
      sorted = ((omega arith, tt), (tt, tt));
      ends = (_ ∷ [], _, refl, refl);
    },
    tt,
    tt,
  ),
)

points :
    IsIndexOf (PointsTo slice_reader small device fork) (leaf1.ents ++ (leaf2.ents ++ [])) entries
unfolding load_dblock dfork_map_dblock read_fsblock fsb_to_offset fsb_to_daddr map_dblock
    get_data_entry has_ftype hashname hash_rounds xor
points = (
  record {
    block = data_block;
    holds = refl;
    inside = omega arith;
    read_back = refl;
    hashed = refl;
  },
  (
    record {
      block = data_block;
      holds = refl;
      inside = omega arith;
      read_back = refl;
      hashed = refl;
    },
    (
      record {
        block = data_block;
        holds = refl;
        inside = omega arith;
        read_back = refl;
        hashed = refl;
      },
      tt,
    ),
  ),
)

a_b_hash : hashname a_b ≡ 0x20e2
unfolding hashname hash_rounds xor
a_b_hash = refl

leaf_lookup-by_name_example :
    Answers slice_reader small device fork
      (ok 132)
      (leaf_lookup slice_reader small device fork 9 [] a_b)
leaf_lookup-by_name_example =
    leaf_lookup-by_name slice_reader small device fork 9 a_b root_block
      (btree (intnode 0xfebe 1 index nothing)) (leaf1 ∷ leaf2 ∷ []) entries [] root-Holds root_opens
      (
        0,
        index,
        refl,
        refl,
        omega arith,
        (refl, ((omega arith, tt), (tt, tt))),
        level,
        λ e. absurd (omega (arith, e, a_b_hash)),
      )
      ((omega arith, (omega arith, tt)), ((omega arith, tt), (tt, tt))) points tt (omega arith)
