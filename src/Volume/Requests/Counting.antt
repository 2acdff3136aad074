-- ===== src/Volume/Requests/Counting.antt =====
-- The counts of open inodes under `lookup` of src/libxfuse/volume.rs.
use xfuse.Base.{
  ◌>>=◌, Option-cases, add64, if◌then◌else◌, ℕ, suc, ◌<◌, ◌≡◌, ◌≢◌, refl, sym, ap, ◌∙◌, subst, inl,
  inr, Bool-cases, ==_iff, List, ◌∷◌, Option, none, some, ◌==◌, arith, length, u64_mod, Outcome, ok,
  err, panic, bind_inv,
}
use xfuse.BlockReader.{set_bufsize}
use xfuse.Dir.Block.{dir_block_size}
use xfuse.Codec.{Bytes, Bincode}
use xfuse.Sb.{Sb}
use xfuse.Inode.{DinodeCore, stat}
use xfuse.Inode.Dinode.{Dinode}
use xfuse.Inode.Dinode.Open.{get_dir, open_dir}
use xfuse.Dir.Directory.{Directory, dir_lookup}
use xfuse.Volume.{OpenInode, Table, fuse_root_id, find, insert, open_inode}
use xfuse.Volume.Lookups.{
  Event, looked_up, owed, owed_le, Counts, open_same, open_other, found_head, found_other, ok_inj,
}
use xfuse.Volume.Requests.{
  Volume, Answer, error, entry, answered, lookup_answer, volume_lookup, read_inode, device_behind,
}

-- The table counts what the kernel is owed after a history of lookups and forgets.
abbrev pub Keeps : Table Dinode → List Event → Type 0
Keeps t h = (k : ℕ) → k ≢ fuse_root_id → Counts (find t k) (owed h k)

Counts-count :
    (oi oi' : OpenInode Dinode) (n : ℕ)
    → oi'.count ≡ oi.count
    → Counts (some oi) n
    → Counts (some oi') n
Counts-count oi oi' n e (c, pos) = (e ∙ c, pos)

-- An open inode that changes but for its count.
Keeps-insert :
    (t : Table Dinode) (h : List Event) (i : ℕ) (oi oi' : OpenInode Dinode)
    → find t i ≡ some oi
    → oi'.count ≡ oi.count
    → Keeps t h
    → Keeps (insert t i oi') h
Keeps-insert t h i oi oi' found same keeps k ne = elim (Bool-cases (i == k)) [
  | inl e ↦
      let i_eq = (==_iff i k).0 e in
      subst (λ z. Counts (find (insert t i oi') z) (owed h z)) i_eq
        (subst (λ f. Counts f (owed h i)) (sym (found_head t i oi'))
          (Counts-count oi oi' (owed h i) same
            (subst (λ f. Counts f (owed h i)) found (keeps i (λ z. ne (sym i_eq ∙ z))))))
  | inr d ↦
      subst (λ f. Counts f (owed h k)) (sym (found_other t i k oi' (ground arith))) (keeps k ne)
]

-- A lookup that opens an inode.
Keeps-open :
    (load : ℕ → Outcome ℕ Dinode) (root i : ℕ) (t t' : Table Dinode) (h : List Event)
    → suc (length h) < u64_mod
    → open_inode load root t i ≡ ok t'
    → Keeps t h
    → Keeps t' (looked_up i ∷ h)
Keeps-open load root i t t' h room e keeps k ne = elim (Bool-cases (i == k)) [
  | inl s ↦
      let i_eq = (==_iff i k).0 s in
      let fits : suc (owed h i) < u64_mod = omega (arith, owed_le h i) in
      rw s (
        subst (λ z. Counts (find t' z) (suc (owed h z))) i_eq
          (open_same load root t t' i (owed h i) (keeps i (λ z. ne (sym i_eq ∙ z))) fits e))
  | inr d ↦ rw d (
      subst (λ f. Counts f (owed h k)) (sym (open_other load root t t' i k (ground arith) e))
        (keeps k ne))
]

module _ (load : ℕ → Outcome ℕ Dinode) (root ino : ℕ) where
  abbrev core_at : Option (OpenInode Dinode) → Outcome ℕ DinodeCore
  core_at (some oi) = ok oi.dinode.di_core
  core_at none = load (if ino == fuse_root_id then root else ino) >>= λ d. ok d.di_core

  -- The core of an inode: of the one that is open, and otherwise of the one on the device.
  abbrev pub core_in : Table Dinode → Outcome ℕ DinodeCore
  core_in t = core_at (find t ino)

  -- An open inode that is put back with the same core leaves all cores.
  core_in-insert :
      (t : Table Dinode) (i : ℕ) (oi oi' : OpenInode Dinode)
      → find t i ≡ some oi
      → oi'.dinode.di_core ≡ oi.dinode.di_core
      → core_in (insert t i oi') ≡ core_in t
  core_in-insert t i oi oi' found same = elim (Bool-cases (i == ino)) [
    | inl e ↦
        subst (λ z. core_at (find (insert t i oi') z) ≡ core_at (find t z)) ((==_iff i ino).0 e)
          (ap core_at (found_head t i oi') ∙ ap ok same ∙ sym (ap core_at found))
    | inr d ↦ ap core_at (found_other t i ino oi' (ground arith))
  ]

  open_loaded :
      (t : Table Dinode) (d : Dinode)
      → find t ino ≡ none
      → load (if ino == fuse_root_id then root else ino) ≡ ok d
      → open_inode load root t ino ≡ ok (insert t ino (record { dinode = d; count = 1 }))
  unfolding open_inode
  open_loaded t d f e = rw (f, e, open_inode) refl

  -- An inode whose core is known can be opened, and then it is in the table with that core.
  opens :
      (t : Table Dinode) (core : DinodeCore)
      → core_in t ≡ ok core
      → (t' : Table Dinode) × (child : OpenInode Dinode) × (open_inode load root t ino ≡ ok t')
        × (find t' ino ≡ some child)
        × (child.dinode.di_core ≡ core)
  unfolding open_inode
  opens t core e = elim (Option-cases (find t ino)) [
    | inr (oi, f) ↦ (
      insert t ino (record oi { count = add64 oi.count 1 }),
      record oi { count = add64 oi.count 1 },
      rw (f, open_inode) refl,
      found_head t ino (record oi { count = add64 oi.count 1 }),
      ok_inj load root (sym (ap core_at f) ∙ e),
    )
    | inl f ↦
        let (d, loaded, core_eq) =
          bind_inv (load (if ino == fuse_root_id then root else ino)) (λ d. ok d.di_core) core
            (sym (ap core_at f) ∙ e) in
        (
          insert t ino (record { dinode = d; count = 1 }),
          record { dinode = d; count = 1 },
          open_loaded t d f loaded,
          found_head t ino (record { dinode = d; count = 1 }),
          ok_inj load root core_eq,
        )
  ]

abbrev ok_pair : {A B : Type 0} → A → B → Outcome ℕ (A × B)
ok_pair x y = ok (x, y)

ok_pair_inj :
    {A B : Type 0} {x x' : A} {y y' : B} → ok_pair x y ≡ ok_pair x' y' → (x ≡ x') × (y ≡ y')
ok_pair_inj e = (cc, cc)

-- The directory object is opened from an inode, and its core stays.
get_dir_core :
    (bc : Bincode) (sb : Sb) (device : Bytes) (fuel edestaddrreq : ℕ) (d d' : Dinode)
    (dir : Directory)
    → get_dir bc sb device fuel edestaddrreq d ≡ ok (dir, d')
    → d'.di_core ≡ d.di_core
unfolding get_dir
get_dir_core bc sb device fuel edestaddrreq d d' dir e = kept d.directory e
  where
    fresh : Directory → Outcome ℕ (Directory × Dinode)
    fresh dir1 = ok (dir1, record d { directory = some dir1 })

    kept :
        (c : Option Directory)
        → (elim c as (λ _. Outcome ℕ (Directory × Dinode)) [
          | some dir1 ↦ ok (dir1, d)
          | none ↦ open_dir bc sb device fuel edestaddrreq d.di_u >>= fresh
        ])
          ≡ ok (dir, d')
        → d'.di_core ≡ d.di_core
    kept (some dir1) g = ap (λ z. z.di_core) (sym (ok_pair_inj g).1)
    kept none g =
        let (dir1, o, g1) =
          bind_inv (open_dir bc sb device fuel edestaddrreq d.di_u) fresh (dir, d') g in
        ap (λ (z : Dinode). z.di_core) (sym (ok_pair_inj g1).1)

module _ (bc : Bincode) (sb : Sb) (fuel edestaddrreq : ℕ) (h : List Event)
    (room : suc (length h) < u64_mod) where
  -- The answer with the attributes of an inode, or with the error that making them ends in.
  abbrev pub reply_of : DinodeCore → ℕ → Outcome ℕ Answer
  reply_of core ino = answered (stat core ino) (λ a. entry a core.di_gen)

  -- What is to be answered when the directory has found an inode number or not, and the history that
  -- the table counts behind it.
  abbrev pub Due : Volume → Outcome ℕ (ℕ × Directory) → Answer → List Event → Type 0
  Due v (ok (ino, dir)) answer h' =
      (core : DinodeCore) × (core_in (read_inode bc sb fuel edestaddrreq v.device.file)
          sb.sb_rootino ino v.open_files
        ≡ ok core)
      × (reply_of core ino ≡ ok answer)
      × (h' ≡ looked_up ino ∷ h)
  Due v (err e) answer h' = (answer ≡ error e) × (h' ≡ h)
  Due v panic answer h' = ⊥

  lookup_answer-Due :
      (v : Volume) (parent : ℕ) (oi : OpenInode Dinode) (d : Dinode) (o : Outcome ℕ (ℕ × Directory))
      (answer : Answer) (h' : List Event)
      → Keeps v.open_files h
      → find v.open_files parent ≡ some oi
      → d.di_core ≡ oi.dinode.di_core
      → Due v o answer h'
      → (v' : Volume) × (lookup_answer bc sb fuel edestaddrreq v parent oi d o ≡ ok (answer, v'))
        × Keeps v'.open_files h'
  unfolding lookup_answer
  lookup_answer-Due v parent oi d (ok (ino, dir')) answer h' keeps found same
        (core, known, reply, h_eq) =
      let load = read_inode bc sb fuel edestaddrreq v.device.file in
      let parent_oi = record oi { dinode = record d { directory = some dir' } } in
      let t = insert v.open_files parent parent_oi in
      let known' =
        core_in-insert load sb.sb_rootino ino v.open_files parent oi parent_oi found same ∙ known in
      let (files, child, opened, there, core_eq) = opens load sb.sb_rootino ino t core known' in
      let replied : reply_of child.dinode.di_core ino ≡ ok answer =
        ap (λ z. reply_of z ino) core_eq ∙ reply in
      (
        record v {
          device =
              device_behind bc sb fuel edestaddrreq (set_bufsize v.device (dir_block_size sb))
                (find t ino);
          open_files = files;
        },
        rw (opened, there, replied) refl,
        subst (λ z. Keeps files z) (sym h_eq)
            (Keeps-open load sb.sb_rootino ino t files h room opened
              (Keeps-insert v.open_files h parent oi parent_oi found refl keeps)),
      )
  lookup_answer-Due v parent oi d (err x) answer h' keeps found same (reply, h_eq) = (
    record v {
      device = set_bufsize v.device (dir_block_size sb);
      open_files = insert v.open_files parent (record oi { dinode = d });
    },
    rw reply refl,
    subst (λ z. Keeps (insert v.open_files parent (record oi { dinode = d })) z) (sym h_eq)
        (Keeps-insert v.open_files h parent oi (record oi { dinode = d }) found refl keeps),
  )
  lookup_answer-Due v parent oi d panic answer h' keeps found same due = absurd due

  -- A lookup in an open directory, in a table that counts what the kernel is owed after a history of less
  -- than 2^64 - 1 events, is answered by what the directory's own lookup of the name returns. When that is
  -- an error, the answer is this error and the counts stay as they are. When it is an inode number, the
  -- answer has the attributes and the generation of that inode, or the error that making them ends in;
  -- they are taken from the table when the inode is open, and otherwise from the device; and one lookup
  -- more is counted of that inode and of no other, also when the answer is an error; the count of the root,
  -- which is always open, is left aside. This holds when the directory object can be opened, and the
  -- directory's lookup, reading the inode and making its attributes do not panic.
  pub volume_lookup-Due :
      (v : Volume) (parent : ℕ) (name : Bytes) (oi : OpenInode Dinode) (dir : Directory)
      (d : Dinode) (answer : Answer) (h' : List Event)
      → Keeps v.open_files h
      → find v.open_files parent ≡ some oi
      → get_dir bc sb v.device.file fuel edestaddrreq oi.dinode ≡ ok (dir, d)
      → Due v (dir_lookup bc sb v.device.file fuel dir name) answer h'
      → (v' : Volume) × (volume_lookup bc sb fuel edestaddrreq v parent name ≡ ok (answer, v'))
        × Keeps v'.open_files h'
  unfolding volume_lookup
  volume_lookup-Due v parent name oi dir d answer h' keeps found got due =
      let (v', e, keeps') =
        lookup_answer-Due v parent oi d (dir_lookup bc sb v.device.file fuel dir name) answer h'
          keeps found (get_dir_core bc sb v.device.file fuel edestaddrreq oi.dinode d dir got)
          due in
      (v', rw (found, got) e, keeps')
