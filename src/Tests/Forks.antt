-- ===== src/Tests/Forks.antt =====
-- src/libxfuse/attr.rs and src/libxfuse/attr_node.rs: an attribute fork of a root, two leaves and a block of
-- a value.
use xfuse.Base.{
  ℕ, zero, suc, ◌≡◌, ◌≢◌, refl, List, [], ◌∷◌, ◌++◌, Option, none, some, ◌==◌, ==_iff,
  if◌then◌else◌, arith, ◌+◌, Outcome, ok, inl, inr, replicate, false, All, get_elem?, Bool-cases,
  ap, ◌-◌,
}
use xfuse.Codec.{Bytes, slice_reader, repeat}
use xfuse.Codec.Encode.{be_bytes}
use xfuse.Sb.{fsb_to_offset, fsb_to_daddr}
use xfuse.Bmbt.{Bmx, map_dblock}
use xfuse.DaBtree.Node.{intnode, NodeEntry, nothing, get_blkinfo, peek_magic}
use xfuse.Attr.{user}
use xfuse.Attr.Leafblock.{
  local, remote, AttrLeafblock, get_attr_leaf_hdr, get_attr_leaf_entry, get_local, get_remote,
}
use xfuse.Attr.Leafblock.Decode.{get_attr_leafblock, block_of, get_entries, names_at, name_at}
use xfuse.Attr.Leafblock.Value.{read_rmt}
use xfuse.Attr.Leafblock.Header.{get_rm_bytes}
use xfuse.Attr.Leafblock.Operations.{leaf_get}
use xfuse.Attr.Leafblock.Listing.{name_bytes}
use xfuse.Attr.Leafblock.Lookup.{IsSearch, Gets, leaf_get-Gets}
use xfuse.Attr.Leaf.{attr_map_dblock}
use xfuse.Attr.Leaves.{load_leaf}
use xfuse.Attr.Node.{AttrNode, attr_node_new, node_total_size, node_list}
use xfuse.Attr.Node.Listing.{IsNodeFork, node_list-IsNodeFork}
use xfuse.Attr.Bptree as P
use xfuse.Attr.Interface.{listxattr, data_of}
use xfuse.Attr.Fork.{Attributes, node}
use xfuse.Attr.Fork.Replies.{operations, Holds, listxattr-Holds}
use xfuse.Attr.Bptree.{AttrBtree, tree_map_dblock, tree_total_size, tree_list}
use xfuse.Attr.Bptree.Listing.{IsTreeFork, tree_list-IsTreeFork}
use xfuse.Tests.Names.{small, padded, header, index_bytes}

abbrev leaf_bytes : ℕ → ℕ → ℕ → ℕ → Bytes → Bytes
leaf_bytes forw hash nameidx flags name = padded (
    header forw 0xfbee 1 0
    ++ (replicate 16 0
        ++ (be_bytes 4 hash
            ++ (be_bytes 2 nameidx
                ++ (be_bytes 1 flags ++ ((0 ∷ []) ++ (replicate (nameidx - 40) 0 ++ name)))))))

-- A name `k` with the value `vw` in the block, and a name `r` whose value `xyz` is in block 3.
abbrev leaf1_block : Bytes
leaf1_block = leaf_bytes 2 7 64 1 (be_bytes 2 2 ++ (1 ∷ b'k' ∷ b'v' ∷ b'w' ∷ []))

abbrev leaf2_block : Bytes
leaf2_block = leaf_bytes 0 9 64 0 (be_bytes 4 3 ++ (be_bytes 4 3 ++ (1 ∷ b'r' ∷ [])))

abbrev value_block : Bytes
value_block =
    padded (replicate 8 0 ++ (be_bytes 4 3 ++ (replicate 44 0 ++ (b'x' ∷ b'y' ∷ b'z' ∷ []))))

abbrev root_block : Bytes
root_block = padded (header 0 0xfebe 2 1 ++ (index_bytes 7 1 ++ index_bytes 9 2))

abbrev device : Bytes
device = replicate 512 0 ++ (root_block ++ (leaf1_block ++ (leaf2_block ++ value_block)))

abbrev bmx : Bmx
bmx = record { br_startoff = 0; br_startblock = 1; br_blockcount = 4; br_flag = false } ∷ []

abbrev leaf1 : AttrLeafblock
leaf1 = record {
  hdr = record { forw = 2; count = 1 };
  entries = record { hashval = 7; nameidx = 64; flags = 1 } ∷ [];
  names = local (record { namelen = 1; nameval = b'k' ∷ b'v' ∷ b'w' ∷ [] }) ∷ [];
}

abbrev leaf2 : AttrLeafblock
leaf2 = record {
  hdr = record { forw = 0; count = 1 };
  entries = record { hashval = 9; nameidx = 64; flags = 0 } ∷ [];
  names =
      remote (record { valueblk = 3; valuelen = 3; namelen = 1; name = b'r' ∷ []; value = [] })
      ∷ [];
}

leaf2_read : load_leaf slice_reader small device (attr_map_dblock bmx) 2 ≡ ok leaf2
unfolding load_leaf attr_map_dblock fsb_to_offset fsb_to_daddr map_dblock get_attr_leafblock
    block_of get_entries names_at name_at get_attr_leaf_hdr get_attr_leaf_entry get_local get_remote
    get_blkinfo peek_magic repeat
leaf2_read = refl

abbrev suc_of : Option ℕ → Option ℕ
suc_of none = none
suc_of (some i) = some (suc i)

-- The place of the first key.
find_key : List ℕ → ℕ → Option ℕ
find_key [] key = none
find_key (k ∷ ks) key = if k == key then some 0 else suc_of (find_key ks key)

value_piece :
    read_rmt slice_reader small device (attr_map_dblock bmx) 3 ≡ ok (b'x' ∷ b'y' ∷ b'z' ∷ [])
unfolding read_rmt attr_map_dblock fsb_to_offset fsb_to_daddr map_dblock get_rm_bytes
value_piece = refl

hit_behind :
    (k : ℕ) (ks : List ℕ) (key i : ℕ) (o : Option ℕ)
    → ((j : ℕ) → o ≡ some j → get_elem? ks j ≡ some key)
    → suc_of o ≡ some i
    → get_elem? (k ∷ ks) i ≡ some key
hit_behind k ks key i none h e = cc
hit_behind k ks key zero (some j) h e = absurd (ground (arith, e))
hit_behind k ks key (suc i) (some j) h e = h i (ground (arith, e))

find_key_hit : (ks : List ℕ) (key i : ℕ) → find_key ks key ≡ some i → get_elem? ks i ≡ some key
unfolding find_key
find_key_hit [] key i e = cc
find_key_hit (k ∷ ks) key zero e = elim (Bool-cases (k == key)) [
  | inl t ↦ ap some ((==_iff k key).0 t)
  | inr f ↦ hit_behind k ks key zero (find_key ks key) (λ j p. find_key_hit ks key j p) (rw f at e)
]
find_key_hit (k ∷ ks) key (suc i) e = elim (Bool-cases (k == key)) [
  | inl t ↦ absurd (ground (arith, rw t at e))
  | inr f ↦
      hit_behind k ks key (suc i) (find_key ks key) (λ j p. find_key_hit ks key j p) (rw f at e)
]

miss_behind : (o : Option ℕ) → suc_of o ≡ none → o ≡ none
miss_behind none e = refl
miss_behind (some j) e = cc

find_key_miss : (ks : List ℕ) (key : ℕ) → find_key ks key ≡ none → All (λ (l : ℕ). l ≢ key) ks
unfolding find_key
find_key_miss [] key e = tt
find_key_miss (k ∷ ks) key e = elim (Bool-cases (k == key)) [
  | inl t ↦ absurd (cc (rw t at e))
  | inr f ↦ (
    λ p. absurd (cc (f, (==_iff k key).1 p)),
    find_key_miss ks key (miss_behind (find_key ks key) (rw f at e)),
  )
]

find_key-IsSearch : IsSearch find_key
find_key-IsSearch = record {
  hit = λ ks key i s e. find_key_hit ks key i e;
  miss = λ ks key s e. find_key_miss ks key e;
}

leaf_get-Gets_example :
    Gets slice_reader small device
      (attr_map_dblock bmx)
      2
      61
      leaf2.entries
      ((b'x' ∷ b'y' ∷ b'z' ∷ []) ∷ [])
      9
      (leaf_get find_key 61 slice_reader small device (attr_map_dblock bmx) 2 leaf2 9)
leaf_get-Gets_example =
    leaf_get-Gets slice_reader small device (attr_map_dblock bmx) 2 find_key find_key-IsSearch 61
      leaf2 leaf2.entries ((b'x' ∷ b'y' ∷ b'z' ∷ []) ∷ []) 9 (tt, tt) refl
      (
        refl,
        (
          (
            (b'x' ∷ b'y' ∷ b'z' ∷ []) ∷ [],
            omega arith,
            (omega arith, value_piece, omega arith),
            refl,
            inl refl,
          ),
          tt,
        ),
      )

abbrev index : List NodeEntry
index = record { hashval = 7; before = 1 } ∷ record { hashval = 9; before = 2 } ∷ []

abbrev fork : AttrNode
unfolding attr_node_new
fork = attr_node_new bmx (intnode 0xfebe 1 index nothing)

fork-IsNodeFork : IsNodeFork slice_reader small device 9 (leaf1 ∷ leaf2 ∷ []) fork
unfolding load_leaf attr_map_dblock fsb_to_offset fsb_to_daddr map_dblock get_attr_leafblock
    block_of get_entries names_at name_at get_attr_leaf_hdr get_attr_leaf_entry get_local get_remote
    get_blkinfo peek_magic repeat attr_node_new
fork-IsNodeFork = record {
  start = 1;
  root = record {
    magic = 0xfebe;
    levels = 0;
    btree = _;
    first = record { hashval = 7; before = 1 };
    others = record { hashval = 9; before = 2 } ∷ [];
    kids = nothing;
    is_node = refl;
    is_tree = (refl, ((omega arith, tt), (tt, tt)));
    is_cache = tt;
    deep = omega arith;
    begins = refl;
  };
  chain = (λ e. absurd (omega arith), refl, (λ e. absurd (omega arith), refl, refl));
  enough = omega arith;
  kept = tt;
  sized = inl refl;
}

node_list-IsNodeFork_example :
    ((a' : AttrNode) × (node_total_size slice_reader small device 9 fork ≡ ok (14, a'))
      × IsNodeFork slice_reader small device 9 (leaf1 ∷ leaf2 ∷ []) a')
    × ((a' : AttrNode) × (node_list slice_reader small device 9 fork
          ≡ ok ((user ++ (b'k' ∷ 0 ∷ [])) ++ (user ++ (b'r' ∷ 0 ∷ [])), a'))
        × IsNodeFork slice_reader small device 9 (leaf1 ∷ leaf2 ∷ []) a')
unfolding name_bytes
node_list-IsNodeFork_example =
    node_list-IsNodeFork slice_reader small device 9 (leaf1 ∷ leaf2 ∷ [])
      (omega arith, (omega arith, tt)) (omega arith) fork fork-IsNodeFork

-- The names take 14 bytes.
listxattr-Holds_example :
    (f' : Attributes) × (listxattr
        (operations slice_reader small device 9 61 (λ hashes hash. none))
        (some (node fork))
        20
      ≡ ok (data_of ((user ++ (b'k' ∷ 0 ∷ [])) ++ (user ++ (b'r' ∷ 0 ∷ []))), some f'))
    × Holds slice_reader small device 9 61 f'
        ((user ++ (b'k' ∷ 0 ∷ [])) ++ (user ++ (b'r' ∷ 0 ∷ [])))
unfolding name_bytes
listxattr-Holds_example =
    listxattr-Holds slice_reader small device 9 61 (node fork)
      ((user ++ (b'k' ∷ 0 ∷ [])) ++ (user ++ (b'r' ∷ 0 ∷ []))) 20 (λ hashes hash. none)
      (omega arith) (leaf1 ∷ leaf2 ∷ [], (omega arith, (omega arith, tt)), refl, fork-IsNodeFork)

-- The same blocks, in a B+tree of extents.
abbrev map_block : ℕ → Outcome ℕ (Option ℕ × Option ℕ)
map_block block = ok (some (block + 1), some 1)

abbrev tree_fork : AttrBtree
tree_fork = record {
  map_block = map_block;
  total_size = none;
  block0 = P.node (intnode 0xfebe 1 index nothing);
  leaves = [];
}

tree_fork-IsTreeFork : IsTreeFork slice_reader small device 9 61 leaf1 (leaf2 ∷ []) tree_fork
unfolding load_leaf tree_map_dblock fsb_to_offset fsb_to_daddr get_attr_leafblock block_of
    get_entries names_at name_at get_attr_leaf_hdr get_attr_leaf_entry get_local get_remote
    get_blkinfo peek_magic repeat
tree_fork-IsTreeFork = record {
  start = 1;
  root = record {
    magic = 0xfebe;
    levels = 0;
    btree = index;
    first = record { hashval = 7; before = 1 };
    others = record { hashval = 9; before = 2 } ∷ [];
    kids = nothing;
    is_node = refl;
    is_tree = (refl, ((omega arith, tt), (tt, tt)));
    is_cache = tt;
    deep = omega arith;
    begins = refl;
  };
  first = refl;
  chain = (λ e. absurd (omega arith), refl, refl);
  enough = omega arith;
  kept = tt;
  sized = inl refl;
}

tree_list-IsTreeFork_example :
    ((a' : AttrBtree) × (tree_total_size slice_reader small device 9 61 tree_fork ≡ ok (14, a'))
      × IsTreeFork slice_reader small device 9 61 leaf1 (leaf2 ∷ []) a')
    × ((a' : AttrBtree) × (tree_list slice_reader small device 9 61 tree_fork
          ≡ ok ((user ++ (b'k' ∷ 0 ∷ [])) ++ (user ++ (b'r' ∷ 0 ∷ [])), a'))
        × IsTreeFork slice_reader small device 9 61 leaf1 (leaf2 ∷ []) a')
unfolding name_bytes
tree_list-IsTreeFork_example =
    tree_list-IsTreeFork slice_reader small device 9 61 leaf1 (leaf2 ∷ [])
      (omega arith, (omega arith, tt)) (omega arith) tree_fork tree_fork-IsTreeFork
