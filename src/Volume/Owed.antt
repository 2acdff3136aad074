-- ===== src/Volume/Owed.antt =====
-- The table of open inodes of src/libxfuse/volume.rs along every sequence of lookups and forgets.
use xfuse.Base.{
  ℕ, suc, ◌-◌, ◌<◌, ◌≡◌, ◌≢◌, refl, sym, ap, ◌∙◌, subst, inl, inr, Bool-cases, ==_iff, List, [],
  ◌∷◌, none, ◌==◌, if◌then◌else◌, arith, length, u64_mod, Outcome, ok, err, panic, ◌>>=◌,
  Option-cases, add64, false,
}
use xfuse.Volume.{Table, fuse_root_id, find, insert, forget, opened, open_inode}
use xfuse.Volume.Lookups.{
  Event, looked_up, forgot, owed, owed_le, IsHistory, Counts, Reaches, start, look, drop_lookups,
  open_other, open_same, forget_other, forget_same, ok_inj,
}

distinct : (a b : ℕ) → (a == b) ≡ false → a ≢ b
distinct a b f = ground arith

module _ {D : Type 0} (load : ℕ → Outcome ℕ D) (sb_rootino : ℕ) where
  opened-find :
      (t : Table D) (ino : ℕ)
      → opened load sb_rootino ≡ ok t
      → ino ≢ fuse_root_id
      → find t ino ≡ none
  unfolding opened
  opened-find t ino e ne = loaded (load sb_rootino) e
    where
      loaded :
          (o : Outcome ℕ D)
          → (o >>= λ d. ok ((fuse_root_id, record { dinode = d; count = 1 }) ∷ [])) ≡ ok t
          → find t ino ≡ none
      loaded (ok d) g = ap (λ z. find z ino) (sym (ok_inj load sb_rootino g)) ∙ ground (arith, ne)
      loaded (err e) g = cc
      loaded panic g = cc

  -- However less than 2^64 lookups and forgets follow each other, as long as the kernel forgets no
  -- more than it looked up, every inode but the root is open exactly while the kernel is owed it,
  -- and its count is the number of lookups that are not forgotten.
  pub Reaches-Counts :
      (h : List Event) (t : Table D) (ino : ℕ)
      → Reaches load sb_rootino h t
      → IsHistory h
      → length h < u64_mod
      → ino ≢ fuse_root_id
      → Counts (find t ino) (owed h ino)
  Reaches-Counts h t ino (start e) hist lt ne =
      subst (λ f. Counts f 0) (sym (opened-find t ino e ne)) refl
  Reaches-Counts h t ino (look {h = h'} {t = t1} i r e) hist lt ne = elim (Bool-cases (i == ino)) [
    | inl s ↦
        let i_eq = (==_iff i ino).0 s in
        let before = Reaches-Counts h' t1 i r hist (omega arith) (λ z. ne (sym i_eq ∙ z)) in
        let room : suc (owed h' i) < u64_mod = omega (arith, owed_le h' i) in
        rw s (
          subst (λ z. Counts (find t z) (suc (owed h' z))) i_eq
            (open_same load sb_rootino t1 t i (owed h' i) before room e))
    | inr d ↦ rw d (
        subst (λ f. Counts f (owed h' ino))
          (sym (open_other load sb_rootino t1 t i ino (distinct i ino d) e))
          (Reaches-Counts h' t1 ino r hist (omega arith) ne))
  ]
  Reaches-Counts h t ino (drop_lookups {h = h'} {t = t1} i n r) (le, hist) lt ne =
      elim (Bool-cases (i == ino)) [
        | inl s ↦
            let i_eq = (==_iff i ino).0 s in
            let ne' : i ≢ fuse_root_id = λ z. ne (sym i_eq ∙ z) in
            let before = Reaches-Counts h' t1 i r hist (omega arith) ne' in
            let room : owed h' i < u64_mod = omega (arith, owed_le h' i) in
            rw s (
              subst (λ z. Counts (find (forget t1 i n) z) (owed h' z - n)) i_eq
                (forget_same t1 i n (owed h' i) ne' before le room))
        | inr d ↦ rw d (
            subst (λ f. Counts f (owed h' ino)) (sym (forget_other t1 i n ino (distinct i ino d)))
              (Reaches-Counts h' t1 ino r hist (omega arith) ne))
      ]

  opened_always :
      ((ino : ℕ) → (d : D) × (load ino ≡ ok d)) → (t : Table D) × (opened load sb_rootino ≡ ok t)
  unfolding opened
  opened_always loads =
      let (d, e) = loads sb_rootino in ((fuse_root_id, record { dinode = d; count = 1 }) ∷ [], rw e)

  open_always :
      ((ino : ℕ) → (d : D) × (load ino ≡ ok d))
      → (t : Table D) (i : ℕ) → (t' : Table D) × (open_inode load sb_rootino t i ≡ ok t')
  unfolding open_inode
  open_always loads t i = elim (Option-cases (find t i)) [
    | inl e ↦
        let (d, l) = loads (if i == fuse_root_id then sb_rootino else i) in
        (insert t i (record { dinode = d; count = 1 }), rw (e, l, open_inode))
    | inr (oi, e) ↦ (insert t i (record oi { count = add64 oi.count 1 }), rw (e, open_inode))
  ]

  -- When every inode can be read, every sequence of lookups and forgets is carried out.
  pub Reaches_always :
      ((ino : ℕ) → (d : D) × (load ino ≡ ok d))
      → (h : List Event) → (t : Table D) × Reaches load sb_rootino h t
  Reaches_always loads [] = let (t, e) = opened_always loads in (t, start e)
  Reaches_always loads (looked_up i ∷ h) =
      let (t, r) = Reaches_always loads h in let (t', e) = open_always loads t i in (t', look i r e)
  Reaches_always loads (forgot i n ∷ h) =
      let (t, r) = Reaches_always loads h in (forget t i n, drop_lookups i n r)
