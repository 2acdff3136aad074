-- ===== src/Volume.antt =====
-- The table of open inodes of src/libxfuse/volume.rs. Reading an inode from the device is a parameter:
-- `load` is `Dinode::from` on an inode number, and `D` its result.
pub mod Listing
pub mod Lookups
pub mod Owed
pub mod Readdir
pub mod Requests
use xfuse.Base.{
  ℕ, ◌+◌, ◌-◌, List, [], ◌∷◌, Option, none, some, ◌==◌, if◌then◌else◌, add64, sub64, Outcome, ok,
  err, panic, ◌>>=◌,
}

pub record OpenInode (D : Type 0) : Type 0 where
  pub dinode : D
  pub count : ℕ

-- The map `open_files`, by inode number.
abbrev pub Table : Type 0 → Type 0
Table D = List (ℕ × OpenInode D)

abbrev pub fuse_root_id : ℕ
fuse_root_id = 1

module _ {D : Type 0} where
  abbrev pub find : Table D → ℕ → Option (OpenInode D)
  find [] ino = none
  find ((k, oi) ∷ t) ino = if k == ino then some oi else find t ino

  abbrev pub remove : Table D → ℕ → Table D
  remove [] ino = []
  remove ((k, oi) ∷ t) ino = if k == ino then remove t ino else (k, oi) ∷ remove t ino

  abbrev pub insert : Table D → ℕ → OpenInode D → Table D
  insert t ino oi = (ino, oi) ∷ remove t ino

  -- `forget`: an inode that is not open, and the root, are left as they are.
  unfoldable pub forget : Table D → ℕ → ℕ → Table D
  forget t ino nlookup = if ino == fuse_root_id then t else elim (find t ino) [
    | none ↦ t
    | some oi ↦
        let left = sub64 oi.count nlookup in
        if left == 0 then remove t ino else insert t ino (record oi { count = left })
  ]

module _ {D : Type 0} (load : ℕ → Outcome ℕ D) (sb_rootino : ℕ) where
  -- `from`, the table that it makes.
  unfoldable pub opened : Outcome ℕ (Table D)
  opened = do
    root_inode ← load sb_rootino
    ok ((fuse_root_id, record { dinode = root_inode; count = 1 }) ∷ [])

  -- `open_inode`.
  unfoldable pub open_inode : Table D → ℕ → Outcome ℕ (Table D)
  open_inode t ino = elim (find t ino) [
    | some oi ↦ ok (insert t ino (record oi { count = add64 oi.count 1 }))
    | none ↦ do
      dinode ← load (if ino == fuse_root_id then sb_rootino else ino)
      ok (insert t ino (record { dinode = dinode; count = 1 }))
  ]
