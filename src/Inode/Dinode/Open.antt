-- ===== src/Inode/Dinode/Open.antt =====
-- What an inode is opened as in src/libxfuse/dinode.rs: a directory, a file, the target of a link, its
-- attributes.
use xfuse.Base.{
  ℕ, [], ◌∷◌, Option, none, some, ltb, ◌==◌, if◌then◌else◌, not, Outcome, ok, panic, map_ok, ◌>>=◌,
  ◌>>◌, assert,
}
use mathlib.Core.List.{any}
use xfuse.Codec.{Bytes, Bincode}
use xfuse.Sb.{Sb}
use xfuse.Bmbt as E
use xfuse.Btree.Node.{btree_new}
use xfuse.Btree.Map.{map_block}
use xfuse.BlockReader.{BlockReader}
use xfuse.Dir.Block.{block_new}
use xfuse.Dir.Directory.{Directory, sf, block, lf, from_bmx, from_btree}
use xfuse.Symlink.{get_target}
use xfuse.Attr.Fork as A
use xfuse.Attr.Bptree.{attr_btree_new}
use xfuse.File.Objects.{FileObject, file_extent_list, file_btree}
use xfuse.Inode.Forks.{rounds_of, Bmdr, DiU, bmx, bmbt, dir2_sf, symlink, attrsf, abmx, abmbt}
use xfuse.Inode.Dinode.{Dinode}

-- On a device; the descents run on fuel, and the error numbers are the platform's.
module _ (bc : Bincode) (sb : Sb) (device : Bytes) (fuel edestaddrreq : ℕ) where
  -- The answers of the B+tree at a root; what a search keeps never changes an answer.
  unfoldable pub tree_answers : Bmdr → ℕ → Outcome ℕ (Option ℕ × Option ℕ)
  unfolding map_block btree_new
  tree_answers root dblock =
      map_ok (λ r. r.0)
        (map_block bc sb device edestaddrreq fuel (btree_new root.bb_level root.keys root.pointers)
          dblock)

  -- The match of `get_dir`, for an inode that has no directory object yet.
  unfoldable pub open_dir : DiU → Outcome ℕ Directory
  unfolding block_new from_bmx from_btree E.new
  open_dir (dir2_sf dir) = ok (sf dir)
  open_dir (bmx (rec ∷ [])) = map_ok block (block_new bc sb device rec.br_startblock)
  open_dir (bmx recs) = ok (lf (from_bmx (E.new recs)))
  open_dir (bmbt root) = ok (lf (from_btree (tree_answers root)))
  open_dir _ = panic

  unfoldable pub get_dir : Dinode → Outcome ℕ (Directory × Dinode)
  unfolding open_dir
  get_dir d = elim d.directory [
    | some dir ↦ ok (dir, d)
    | none ↦ do dir ← open_dir d.di_u; ok (dir, record d { directory = some dir })
  ]

  unfoldable pub get_file : Dinode → Outcome ℕ FileObject
  unfolding E.new
  get_file d = elim d.di_u [
    | bmx recs ↦ ok (file_extent_list (E.new recs) d.di_core.di_size)
    | bmbt root ↦ ok (file_btree (tree_answers root) d.di_core.di_size)
    | _ ↦ panic
  ]

  -- `get_link_data`; a target in the inode that holds a NUL is a panic.
  unfoldable pub get_link_data : BlockReader → Dinode → Outcome ℕ Bytes
  unfolding get_target E.new
  get_link_data r d = elim d.di_u [
    | symlink target ↦ do assert (not (any target (λ (c : ℕ). c == 0))); ok target
    | bmx recs ↦ get_target bc sb fuel r (E.new recs)
    | _ ↦ panic
  ]

  -- The match of `get_attrs`, for an inode that has no attribute object yet.
  unfoldable pub open_attrs : Dinode → Outcome ℕ (Option A.Attributes)
  unfolding A.open_attributes attr_btree_new E.new
  open_attrs d = elim d.di_a [
    | some (attrsf attr) ↦ ok (some (A.sf attr))
    | some (abmx recs) ↦
        if ltb 0 (rounds_of 16 d.di_core.di_anextents)
        then map_ok some (A.open_attributes bc sb device (E.new recs))
        else ok none
    | some (abmbt root) ↦
        map_ok (λ a. some (A.btree a)) (attr_btree_new bc sb device (tree_answers root))
    | none ↦ ok none
  ]

  unfoldable pub get_attrs : Dinode → Outcome ℕ (Option A.Attributes × Dinode)
  unfolding open_attrs
  get_attrs d = elim d.attributes [
    | some attrs ↦ ok (some attrs, d)
    | none ↦ do attrs ← open_attrs d; ok (attrs, record d { attributes = attrs })
  ]
