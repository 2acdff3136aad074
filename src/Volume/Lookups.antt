-- ===== src/Volume/Lookups.antt =====
-- The table of open inodes of src/libxfuse/volume.rs against what the kernel is owed: each lookup that
-- was answered, less what it has forgotten since.
use xfuse.Base.{
  ℕ, suc, ◌-◌, ◌≤◌, ◌<◌, ◌≡◌, ◌≢◌, refl, sym, ap, ◌∙◌, subst, inl, inr, Bool-cases, ==_iff, List,
  [], ◌∷◌, Option, none, some, Option-cases, ◌==◌, if◌then◌else◌, arith, length, add64, sub64,
  sub64_small, u64_mod, Outcome, ok, err, panic, ◌>>=◌, false,
}
use xfuse.Volume.{OpenInode, Table, fuse_root_id, find, remove, insert, forget, opened, open_inode}

pub data Event : Type 0 where
  looked_up : ℕ → Event
  forgot : ℕ → ℕ → Event

-- The lookups of an inode that are not forgotten; the last event comes first.
abbrev pub owed : List Event → ℕ → ℕ
owed [] ino = 0
owed (looked_up i ∷ h) ino = if i == ino then suc (owed h ino) else owed h ino
owed (forgot i n ∷ h) ino = if i == ino then owed h ino - n else owed h ino

-- The kernel never forgets more lookups than it made.
abbrev pub IsHistory : List Event → Type 0
IsHistory [] = Unit {0}
IsHistory (looked_up i ∷ h) = IsHistory h
IsHistory (forgot i n ∷ h) = (n ≤ owed h i) × IsHistory h

-- An entry is there exactly when something is owed, and counts it.
abbrev pub Counts : {D : Type 0} → Option (OpenInode D) → ℕ → Type 0
Counts none n = n ≡ 0
Counts (some oi) n = (oi.count ≡ n) × (0 < n)

find-remove : {D : Type 0} (t : Table D) (k j : ℕ) → k ≢ j → find (remove t k) j ≡ find t j
find-remove [] k j ne = refl
find-remove ((i, oi) ∷ t) k j ne = ground (arith, find-remove t k j ne)

find-remove_same : {D : Type 0} (t : Table D) (k : ℕ) → find (remove t k) k ≡ none
find-remove_same [] k = refl
find-remove_same ((i, oi) ∷ t) k = ground (arith, find-remove_same t k)

pub owed_le : (h : List Event) (ino : ℕ) → owed h ino ≤ length h
owed_le [] ino = omega arith
owed_le (looked_up i ∷ h) ino = ground (arith, owed_le h ino)
owed_le (forgot i n ∷ h) ino = ground (arith, owed_le h ino)

module _ {D : Type 0} (load : ℕ → Outcome ℕ D) (sb_rootino : ℕ) where
  -- The tables that a history of events leaves.
  pub data Reaches : List Event → Table D → Type 0 where
    start : {t : Table D} → opened load sb_rootino ≡ ok t → Reaches [] t
    look :
        {h : List Event} {t t' : Table D} (i : ℕ)
        → Reaches h t
        → open_inode load sb_rootino t i ≡ ok t'
        → Reaches (looked_up i ∷ h) t'
    drop_lookups :
        {h : List Event} {t : Table D} (i n : ℕ)
        → Reaches h t
        → Reaches (forgot i n ∷ h) (forget t i n)

  abbrev the_ok : {A : Type 0} → A → Outcome ℕ A
  the_ok x = ok x

  pub ok_inj : {A : Type 0} {x y : A} → the_ok x ≡ ok y → x ≡ y
  ok_inj e = cc

  open_found :
      (t t' : Table D) (i : ℕ) (oi : OpenInode D)
      → find t i ≡ some oi
      → open_inode load sb_rootino t i ≡ ok t'
      → t' ≡ insert t i (record oi { count = add64 oi.count 1 })
  unfolding open_inode
  open_found t t' i oi e h = sym (ok_inj (rw (e, open_inode) at h))

  open_new :
      (t t' : Table D) (i : ℕ)
      → find t i ≡ none
      → open_inode load sb_rootino t i ≡ ok t'
      → (d : D) × (t' ≡ insert t i (record { dinode = d; count = 1 }))
  unfolding open_inode
  open_new t t' i e h =
      loaded (load (if i == fuse_root_id then sb_rootino else i)) (rw (e, open_inode) at h)
    where
      loaded :
          (o : Outcome ℕ D)
          → (o >>= λ d. ok (insert t i (record { dinode = d; count = 1 }))) ≡ ok t'
          → (d : D) × (t' ≡ insert t i (record { dinode = d; count = 1 }))
      loaded (ok d) g = (d, sym (ok_inj g))
      loaded (err e) g = cc
      loaded panic g = cc

positive : (n : ℕ) → (n == 0) ≡ false → 0 < n
positive n f = ground arith

pub found_head :
    {D : Type 0} (t : Table D) (i : ℕ) (oi : OpenInode D) → find (insert t i oi) i ≡ some oi
found_head t i oi = rw ((==_iff i i).1 refl)

pub found_other :
    {D : Type 0} (t : Table D) (i j : ℕ) (oi : OpenInode D)
    → i ≢ j
    → find (insert t i oi) j ≡ find t j
found_other t i j oi ne = ground (arith, find-remove t i j ne)

-- A forget leaves the other inodes alone.
pub forget_other : {D : Type 0} (t : Table D) (i n j : ℕ) → i ≢ j → find (forget t i n) j ≡ find t j
unfolding forget
forget_other t i n j ne = elim (Bool-cases (i == fuse_root_id)) [
  | inl root ↦ rw root
  | inr other ↦ elim (Option-cases (find t i)) [
    | inl e ↦ rw (other, e)
    | inr (oi, e) ↦ elim (Bool-cases (sub64 oi.count n == 0)) [
      | inl z ↦ rw (other, e, z) (find-remove t i j ne)
      | inr p ↦ rw (other, e, p) (found_other t i j (record oi { count = sub64 oi.count n }) ne)
    ]
  ]
]

-- A forget of no more than is owed takes it off the count, and the entry goes when nothing is left.
pub forget_same :
    {D : Type 0} (t : Table D) (i n o : ℕ)
    → i ≢ fuse_root_id
    → Counts (find t i) o
    → n ≤ o
    → o < u64_mod
    → Counts (find (forget t i n) i) (o - n)
unfolding forget
forget_same t i n o ne c le lt = elim (Option-cases (find t i)) [
  | inl e ↦ let c' : o ≡ 0 = subst (λ f. Counts f o) e c in rw (other, e, e) (omega arith)
  | inr (oi, e) ↦
      let c' : (oi.count ≡ o) × (0 < o) = subst (λ f. Counts f o) e c in
      let left : sub64 oi.count n ≡ o - n = rw (c'.0) (sub64_small o n le lt) in
      elim (Bool-cases (sub64 oi.count n == 0)) [
        | inl z ↦
            let nothing = (==_iff (sub64 oi.count n) 0).0 z in
            rw (other, e, z, find-remove_same t i) (omega (arith, left, nothing))
        | inr p ↦
            rw (other, e, p, (==_iff i i).1 refl)
              (left, omega (arith, left, positive (sub64 oi.count n) p))
      ]
]
  where
    other : (i == fuse_root_id) ≡ false
    other = ground (arith, ne)

module _ {D : Type 0} (load : ℕ → Outcome ℕ D) (sb_rootino : ℕ) where
  -- Opening an inode leaves the others alone.
  pub open_other :
      (t t' : Table D) (i j : ℕ)
      → i ≢ j
      → open_inode load sb_rootino t i ≡ ok t'
      → find t' j ≡ find t j
  open_other t t' i j ne h = elim (Option-cases (find t i)) [
    | inl e ↦
        let (d, t_eq) = open_new load sb_rootino t t' i e h in
        ap (λ z. find z j) t_eq ∙ found_other t i j (record { dinode = d; count = 1 }) ne
    | inr (oi, e) ↦
        ap (λ z. find z j) (open_found load sb_rootino t t' i oi e h)
        ∙ found_other t i j (record oi { count = add64 oi.count 1 }) ne
  ]

  -- Opening an inode counts one lookup more.
  pub open_same :
      (t t' : Table D) (i o : ℕ)
      → Counts (find t i) o
      → suc o < u64_mod
      → open_inode load sb_rootino t i ≡ ok t'
      → Counts (find t' i) (suc o)
  open_same t t' i o c lt h = elim (Option-cases (find t i)) [
    | inl e ↦
        let c' : o ≡ 0 = subst (λ f. Counts f o) e c in
        let (d, t_eq) = open_new load sb_rootino t t' i e h in
        subst (λ f. Counts f (suc o))
          (sym (ap (λ z. find z i) t_eq ∙ found_head t i (record { dinode = d; count = 1 })))
          (omega arith, omega arith)
    | inr (oi, e) ↦
        let c' : (oi.count ≡ o) × (0 < o) = subst (λ f. Counts f o) e c in
        subst (λ f. Counts f (suc o))
          (sym (
            ap (λ z. find z i) (open_found load sb_rootino t t' i oi e h)
            ∙ found_head t i (record oi { count = add64 oi.count 1 })))
          (omega (arith, c'.0), omega arith)
  ]
