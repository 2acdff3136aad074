-- ===== src/Bmbt/SeekBlocks.antt =====
-- `Bmx::lseek` of src/libxfuse/bmbt_rec.rs, in blocks: the arms that it takes and where each lands.
use xfuse.Base.{
  ℕ, suc, ◌+◌, ◌-◌, ◌*◌, ◌^◌, ◌≤◌, ◌<◌, ◌≡◌, ◌≢◌, refl, sym, subst, ap, ◌∙◌, Option, none, [], ◌∷◌,
  arith, leb, ltb, ltb→lt, leb→le, lt→ltb, le→ltb, false, true, Bool-cases, ◌⊎◌, inl, inr, length,
  partition_point, Outcome, ok, err, add64, shr64,
}
use xfuse.Bmbt.{BmbtRec, Bmx, lseek_at, seek_data, seek_hole, errno_enxio}
use xfuse.Bmbt.Extents.{mapped, IsRecord, IsOrdered, mapped-Below, mapped_skip, mapped_head}
use xfuse.Bmbt.Runs.{
  FitsBytes, shl64_exact, le_of, run_end, add64_exact, next_hole-cons, next_hole-run_end,
  run_end_hole, run_end_data,
}

abbrev pub upto : ℕ → Bmx → ℕ
upto d bmx = partition_point (λ (e : BmbtRec). leb e.br_startoff d) bmx

-- What a seek from block `d`, at byte `offset`, returns: the first place where the blocks have the
-- property `P`, as a byte offset, or ENXIO if there is none.
abbrev pub Lands : (ℕ → Option ℕ) → (Option ℕ → Type 0) → ℕ → ℕ → ℕ → Outcome ℕ ℕ → Type 0
Lands m P bl offset d o =
    ((o ≡ ok offset) × P (m d))
    ⊎ ((b : ℕ) × (o ≡ ok (b * 2 ^ bl))
        × (d < b)
        × P (m b)
        × ((x : ℕ) → d ≤ x → x < b → ¬ (P (m x))))
    ⊎ ((o ≡ err errno_enxio) × ((x : ℕ) → d ≤ x → ¬ (P (m x))))

Lands-skip :
    (P : Option ℕ → Type 0) (r : BmbtRec) (rs : Bmx) (bl offset d : ℕ) (o : Outcome ℕ ℕ)
    → r.br_startoff + r.br_blockcount ≤ d
    → Lands (mapped rs) P bl offset d o
    → Lands (mapped (r ∷ rs)) P bl offset d o
Lands-skip P r rs bl offset d o h (inl (e, p)) = inl (e, rw (mapped_skip r rs d h) p)
Lands-skip P r rs bl offset d o h (inr (inl (b, e, lt, p, least))) = inr (
    inl (
      b,
      e,
      lt,
      rw (mapped_skip r rs b (omega arith)) p,
      λ x lo hi. rw (mapped_skip r rs x (omega arith)) (least x lo hi),
    ))
Lands-skip P r rs bl offset d o h (inr (inr (e, least))) =
    inr (inr (e, λ x lo. rw (mapped_skip r rs x (omega arith)) (least x lo)))

abbrev pub IsData : Option ℕ → Type 0
IsData o = o ≢ none

abbrev pub IsHole : Option ℕ → Type 0
IsHole o = o ≡ none

lseek_at_cons :
    (r q : BmbtRec) (rs : Bmx) (bl offset whence k : ℕ)
    → lseek_at (r ∷ q ∷ rs) bl offset whence (suc (suc k))
      ≡ lseek_at (q ∷ rs) bl offset whence (suc k)
unfolding lseek_at
lseek_at_cons r q rs bl offset whence k =
    let e : suc (suc (length rs)) - 1 - suc k ≡ suc (length rs) - 1 - k = omega arith in
    rw (e, next_hole-cons r q rs bl k (suc (length rs) - 1 - k))

-- The search ends at `r`: the block lies in it, or past its end.
module _ (r : BmbtRec) (rs : Bmx) (bl offset : ℕ) (h : IsRecord r) where
  abbrev dblock : ℕ
  dblock = shr64 offset bl

  inside_test :
      dblock < r.br_startoff + r.br_blockcount
      → ltb dblock (add64 r.br_startoff r.br_blockcount) ≡ true
  inside_test hi = rw (add64_exact r h) (lt→ltb _ _ hi)

  past_test :
      r.br_startoff + r.br_blockcount ≤ dblock
      → ltb dblock (add64 r.br_startoff r.br_blockcount) ≡ false
  past_test hi = rw (add64_exact r h) (le→ltb _ _ hi)

  IsData-inside :
      r.br_startoff ≤ dblock
      → dblock < r.br_startoff + r.br_blockcount
      → Lands (mapped (r ∷ rs)) IsData bl offset dblock (lseek_at (r ∷ rs) bl offset seek_data 1)
  unfolding lseek_at
  IsData-inside lo hi = inl (rw (inside_test hi), λ n. cc (n, mapped_head r rs _ lo hi))

  IsHole-past :
      IsOrdered (r ∷ rs)
      → r.br_startoff + r.br_blockcount ≤ dblock
      → mapped rs dblock ≡ none
      → Lands (mapped (r ∷ rs)) IsHole bl offset dblock (lseek_at (r ∷ rs) bl offset seek_hole 1)
  unfolding lseek_at
  IsHole-past o hi n = inl (rw (past_test hi), mapped_skip r rs dblock hi ∙ n)

  IsHole-inside :
      bl < 64
      → IsOrdered (r ∷ rs)
      → FitsBytes bl (r ∷ rs)
      → r.br_startoff ≤ dblock
      → dblock < r.br_startoff + r.br_blockcount
      → Lands (mapped (r ∷ rs)) IsHole bl offset dblock (lseek_at (r ∷ rs) bl offset seek_hole 1)
  unfolding lseek_at
  IsHole-inside small o f lo hi =
      let (past, n) = run_end_hole r rs o in
      inr (
        inl (
          run_end r rs,
          rw (inside_test hi, rounds) (next_hole-run_end bl r rs small o f),
          omega arith,
          n,
          λ x lx hx. run_end_data r rs x o (omega arith) hx,
        ))
    where
      rounds : suc (length rs) - 1 - 0 ≡ length rs
      rounds = omega arith

IsData-last :
    (r : BmbtRec) (bl offset : ℕ)
    → IsRecord r
    → r.br_startoff + r.br_blockcount ≤ shr64 offset bl
    → Lands
        (mapped (r ∷ []))
        IsData
        bl
        offset
        (shr64 offset bl)
        (lseek_at (r ∷ []) bl offset seek_data 1)
unfolding lseek_at
IsData-last r bl offset h hi =
    inr (inr (rw (past_test r [] bl offset h hi), λ x lo d. d (mapped_skip r [] x (omega arith))))

IsData-next :
    (r q : BmbtRec) (rs : Bmx) (bl offset : ℕ)
    → bl < 64
    → IsOrdered (r ∷ q ∷ rs)
    → FitsBytes bl (r ∷ q ∷ rs)
    → r.br_startoff + r.br_blockcount ≤ shr64 offset bl
    → shr64 offset bl < q.br_startoff
    → Lands
        (mapped (r ∷ q ∷ rs))
        IsData
        bl
        offset
        (shr64 offset bl)
        (lseek_at (r ∷ q ∷ rs) bl offset seek_data 1)
unfolding lseek_at
IsData-next r q rs bl offset small (h, p, o) (f, (f', fs)) hi lt = inr (
    inl (
      q.br_startoff,
      rw (past_test r (q ∷ rs) bl offset h hi)
          (ap ok (shl64_exact q.br_startoff bl small (omega arith))),
      lt,
      λ n. cc (
        n,
        mapped_skip r (q ∷ rs) q.br_startoff p,
        mapped_head q rs q.br_startoff (omega arith) (omega (arith, o.0.nonempty)),
      ),
      λ x lx hx d. d (mapped_skip r (q ∷ rs) x (omega arith) ∙ mapped-Below (q ∷ rs) x o hx),
    ))

-- The search passes on from `r`, or ends at it.
tail_eq :
    (r q : BmbtRec) (rs : Bmx) (bl offset whence : ℕ)
    → leb q.br_startoff (shr64 offset bl) ≡ true
    → lseek_at (r ∷ q ∷ rs) bl offset whence (suc (upto (shr64 offset bl) (q ∷ rs)))
      ≡ lseek_at (q ∷ rs) bl offset whence (suc (upto (shr64 offset bl) rs))
tail_eq r q rs bl offset whence e =
    (rw e) ∙ lseek_at_cons r q rs bl offset whence (upto (shr64 offset bl) rs)

stay_eq :
    (r q : BmbtRec) (rs : Bmx) (bl offset whence : ℕ)
    → leb q.br_startoff (shr64 offset bl) ≡ false
    → lseek_at (r ∷ q ∷ rs) bl offset whence (suc (upto (shr64 offset bl) (q ∷ rs)))
      ≡ lseek_at (r ∷ q ∷ rs) bl offset whence 1
stay_eq r q rs bl offset whence e = rw e

abbrev pub LandsFrom : (Option ℕ → Type 0) → ℕ → BmbtRec → Bmx → ℕ → ℕ → Type 0
LandsFrom P whence r rs bl offset =
    Lands (mapped (r ∷ rs)) P bl offset (shr64 offset bl)
      (lseek_at (r ∷ rs) bl offset whence (suc (upto (shr64 offset bl) rs)))

pub Lands-IsData :
    (bl : ℕ) (r : BmbtRec) (rs : Bmx) (offset : ℕ)
    → bl < 64
    → IsOrdered (r ∷ rs)
    → FitsBytes bl (r ∷ rs)
    → r.br_startoff ≤ shr64 offset bl
    → LandsFrom IsData seek_data r rs bl offset
Lands-IsData bl r [] offset small (h, p, o) f lo =
    elim (Bool-cases (ltb (shr64 offset bl) (r.br_startoff + r.br_blockcount))) [
      | inl e ↦ IsData-inside r [] bl offset h lo (ltb→lt _ _ e)
      | inr e ↦ IsData-last r bl offset h (le_of e)
    ]
Lands-IsData bl r (q ∷ rs) offset small (h, p, o) (f, fs) lo =
    elim (Bool-cases (leb q.br_startoff (shr64 offset bl))) [
      | inl e ↦
          subst (Lands (mapped (r ∷ q ∷ rs)) IsData bl offset (shr64 offset bl))
            (sym (tail_eq r q rs bl offset seek_data e))
            (Lands-skip IsData r (q ∷ rs) bl offset (shr64 offset bl) _
              (omega (arith, leb→le _ _ e)) (Lands-IsData bl q rs offset small o fs (leb→le _ _ e)))
      | inr e ↦
          subst (Lands (mapped (r ∷ q ∷ rs)) IsData bl offset (shr64 offset bl))
            (sym (stay_eq r q rs bl offset seek_data e))
            (elim (Bool-cases (ltb (shr64 offset bl) (r.br_startoff + r.br_blockcount))) [
              | inl i ↦ IsData-inside r (q ∷ rs) bl offset h lo (ltb→lt _ _ i)
              | inr i ↦
                  IsData-next r q rs bl offset small (h, p, o) (f, fs) (le_of i) (ground arith)
            ])
    ]

pub Lands-IsHole :
    (bl : ℕ) (r : BmbtRec) (rs : Bmx) (offset : ℕ)
    → bl < 64
    → IsOrdered (r ∷ rs)
    → FitsBytes bl (r ∷ rs)
    → r.br_startoff ≤ shr64 offset bl
    → LandsFrom IsHole seek_hole r rs bl offset
Lands-IsHole bl r [] offset small (h, p, o) f lo =
    elim (Bool-cases (ltb (shr64 offset bl) (r.br_startoff + r.br_blockcount))) [
      | inl e ↦ IsHole-inside r [] bl offset h small (h, p, o) f lo (ltb→lt _ _ e)
      | inr e ↦ IsHole-past r [] bl offset h (h, p, o) (le_of e) refl
    ]
Lands-IsHole bl r (q ∷ rs) offset small (h, p, o) (f, fs) lo =
    elim (Bool-cases (leb q.br_startoff (shr64 offset bl))) [
      | inl e ↦
          subst (Lands (mapped (r ∷ q ∷ rs)) IsHole bl offset (shr64 offset bl))
            (sym (tail_eq r q rs bl offset seek_hole e))
            (Lands-skip IsHole r (q ∷ rs) bl offset (shr64 offset bl) _
              (omega (arith, leb→le _ _ e)) (Lands-IsHole bl q rs offset small o fs (leb→le _ _ e)))
      | inr e ↦
          subst (Lands (mapped (r ∷ q ∷ rs)) IsHole bl offset (shr64 offset bl))
            (sym (stay_eq r q rs bl offset seek_hole e))
            (elim (Bool-cases (ltb (shr64 offset bl) (r.br_startoff + r.br_blockcount))) [
              | inl i ↦
                  IsHole-inside r (q ∷ rs) bl offset h small (h, p, o) (f, fs) lo (ltb→lt _ _ i)
              | inr i ↦
                  IsHole-past r (q ∷ rs) bl offset h (h, p, o) (le_of i)
                    (mapped-Below (q ∷ rs) _ o (ground arith))
            ])
    ]
