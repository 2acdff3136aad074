-- ===== src/Tests/Nodes.antt =====
-- src/libxfuse/da_btree.rs: a tree of two levels over the leaves of Tests/Names.
use xfuse.Base.{ℕ, ◌≡◌, refl, List, [], ◌∷◌, arith, some, ok, Outcome}
use xfuse.Codec.{slice_reader, repeat}
use xfuse.Sb.{fsb_to_offset, fsb_to_daddr}
use xfuse.DaBtree.Node.{
  NodeEntry, intnode, nothing, get_intnode, peek_magic, get_node_hdr, get_blkinfo, get_node_entry,
  from,
}
use xfuse.DaBtree.{load, node_lookup, first_block}
use xfuse.DaBtree.Search.{IsTree, Answers, node_lookup-Answers, first_block-Answers}
use xfuse.Tests.Names.{small, device, index}

-- Block 2 of the device is the child of a root with one entry.
abbrev root : List NodeEntry
root = record { hashval = 0x3d7a; before = 2 } ∷ []

abbrev identity : ℕ → Outcome ℕ ℕ
identity d = ok d

child_loads : load slice_reader small device identity 2 ≡ ok (intnode 0xfebe 1 index nothing)
unfolding load fsb_to_offset fsb_to_daddr from get_intnode peek_magic get_node_hdr get_blkinfo
    get_node_entry repeat
child_loads = refl

root-IsTree : IsTree slice_reader small device identity 1 root index
root-IsTree = (
  (
    index,
    [],
    refl,
    (
      0xfebe,
      index,
      child_loads,
      (refl, ((omega arith, tt), (tt, tt))),
      (_ ∷ [], _, refl, refl, (omega arith, tt)),
    ),
    refl,
  ),
  (tt, tt),
)

node_lookup-Answers_example :
    Answers slice_reader small device identity 0xfebe 2 root
      (some (record { hashval = 0x3d7a; before = 67108866 }))
      (node_lookup slice_reader small device identity 3 (intnode 0xfebe 2 root nothing) 0x3000)
node_lookup-Answers_example =
    node_lookup-Answers slice_reader small device identity 1 3 0xfebe root index nothing 0x3000
      root-IsTree tt (omega arith)

first_block-Answers_example :
    Answers slice_reader small device identity 0xfebe 2 root
      (some (record { hashval = 0x20e2; before = 67108865 }))
      (first_block slice_reader small device identity 3 (intnode 0xfebe 2 root nothing))
first_block-Answers_example =
    first_block-Answers slice_reader small device identity 1 3 0xfebe root
      (record { hashval = 0x3d7a; before = 67108866 } ∷ [])
      (record { hashval = 0x20e2; before = 67108865 }) nothing root-IsTree tt (omega arith)
