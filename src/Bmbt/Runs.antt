-- ===== src/Bmbt/Runs.antt =====
-- The scan `next_hole` of `Bmx::lseek` (src/libxfuse/bmbt_rec.rs) stops at the end of a run of records
-- that touch.
use xfuse.Base.{
  ℕ, zero, suc, ◌+◌, ◌*◌, ◌%◌, ◌^◌, ◌≤◌, ◌<◌, ◌≡◌, ◌≢◌, refl, sym, ap, ◌∙◌, none, [], ◌∷◌, arith,
  ltb, ltb→lt, lt→ltb, le→ltb, false, true, Bool-cases, inl, inr, length, ok, add64, shl64, u64_mod,
  if◌then◌else◌,
}
use xfuse.Bmbt.{BmbtRec, Bmx, next_hole}
use xfuse.Bmbt.Extents.{mapped, IsRecord, IsOrdered, mapped-Below, mapped_skip, mapped_head}

-- Every extent ends below 2^64 bytes.
abbrev pub FitsBytes : ℕ → Bmx → Type 0
FitsBytes bl [] = Unit {0}
FitsBytes bl (r ∷ rs) = ((r.br_startoff + r.br_blockcount) * 2 ^ bl < u64_mod) × FitsBytes bl rs

pub shl64_exact : (a bl : ℕ) → bl < 64 → a * 2 ^ bl < u64_mod → shl64 a bl ≡ a * 2 ^ bl
shl64_exact a bl h fits = let e : bl % 64 ≡ bl = omega arith in rw e (omega arith)

pub le_of : {a b : ℕ} → ltb a b ≡ false → b ≤ a
le_of e = ground arith

-- The end of the run of touching records that begins with `r`.
pub run_end : BmbtRec → Bmx → ℕ
run_end r [] = r.br_startoff + r.br_blockcount
run_end r (q ∷ rs) =
    if ltb (r.br_startoff + r.br_blockcount) q.br_startoff
    then r.br_startoff + r.br_blockcount
    else run_end q rs

run_end_gap :
    (r q : BmbtRec) (rs : Bmx)
    → r.br_startoff + r.br_blockcount < q.br_startoff
    → run_end r (q ∷ rs) ≡ r.br_startoff + r.br_blockcount
unfolding run_end
run_end_gap r q rs h = rw (lt→ltb _ _ h)

run_end_touch :
    (r q : BmbtRec) (rs : Bmx)
    → q.br_startoff ≤ r.br_startoff + r.br_blockcount
    → run_end r (q ∷ rs) ≡ run_end q rs
unfolding run_end
run_end_touch r q rs h = rw (le→ltb _ _ h)

pub next_hole-cons :
    (r q : BmbtRec) (rs : Bmx) (bl j n : ℕ)
    → next_hole (r ∷ q ∷ rs) bl (suc j) n ≡ next_hole (q ∷ rs) bl j n
unfolding next_hole
next_hole-cons r q rs bl j zero = refl
next_hole-cons r q rs bl j (suc n) = rw (next_hole-cons r q rs bl (suc j) n)

pub add64_exact :
    (r : BmbtRec)
    → IsRecord r
    → add64 r.br_startoff r.br_blockcount ≡ r.br_startoff + r.br_blockcount
add64_exact r h = ground (arith, h)

pub end_exact :
    (bl : ℕ) (r : BmbtRec)
    → bl < 64
    → IsRecord r
    → (r.br_startoff + r.br_blockcount) * 2 ^ bl < u64_mod
    → shl64 (add64 r.br_startoff r.br_blockcount) bl ≡ (r.br_startoff + r.br_blockcount) * 2 ^ bl
end_exact bl r small h f =
    ap (λ x. shl64 x bl) (add64_exact r h)
    ∙ shl64_exact (r.br_startoff + r.br_blockcount) bl small f

next_hole_gap :
    (r q : BmbtRec) (rs : Bmx) (bl n : ℕ)
    → IsRecord r
    → r.br_startoff + r.br_blockcount < q.br_startoff
    → next_hole (r ∷ q ∷ rs) bl 0 (suc n) ≡ ok (shl64 (add64 r.br_startoff r.br_blockcount) bl)
unfolding next_hole
next_hole_gap r q rs bl n h lt = rw (gap h)
  where
    gap : IsRecord r → ltb (add64 r.br_startoff r.br_blockcount) q.br_startoff ≡ true
    gap h = rw (add64_exact r h) (lt→ltb _ _ lt)

next_hole_touch :
    (r q : BmbtRec) (rs : Bmx) (bl n : ℕ)
    → IsRecord r
    → q.br_startoff ≤ r.br_startoff + r.br_blockcount
    → next_hole (r ∷ q ∷ rs) bl 0 (suc n) ≡ next_hole (q ∷ rs) bl 0 n
unfolding next_hole
next_hole_touch r q rs bl n h le = rw (gap h) (next_hole-cons r q rs bl 0 n)
  where
    gap : IsRecord r → ltb (add64 r.br_startoff r.br_blockcount) q.br_startoff ≡ false
    gap h = rw (add64_exact r h) (le→ltb _ _ le)

pub next_hole-run_end :
    (bl : ℕ) (r : BmbtRec) (rs : Bmx)
    → bl < 64
    → IsOrdered (r ∷ rs)
    → FitsBytes bl (r ∷ rs)
    → next_hole (r ∷ rs) bl 0 (length rs) ≡ ok (run_end r rs * 2 ^ bl)
next_hole-run_end bl r [] small (h, _, _) (f, _) =
    unfold next_hole run_end in ap ok (end_exact bl r small h f)
next_hole-run_end bl r (q ∷ rs) small (h, p, o) (f, fs) =
    elim (Bool-cases (ltb (r.br_startoff + r.br_blockcount) q.br_startoff)) [
      | inl e ↦
          next_hole_gap r q rs bl (length rs) h (ltb→lt _ _ e)
          ∙ ap ok (end_exact bl r small h f)
          ∙ ap (λ x. ok (x * 2 ^ bl)) (sym (run_end_gap r q rs (ltb→lt _ _ e)))
      | inr e ↦
          next_hole_touch r q rs bl (length rs) h (ground arith)
          ∙ next_hole-run_end bl q rs small o fs
          ∙ ap (λ x. ok (x * 2 ^ bl)) (sym (run_end_touch r q rs (ground arith)))
    ]

pub run_end_hole :
    (r : BmbtRec) (rs : Bmx)
    → IsOrdered (r ∷ rs)
    → (r.br_startoff + r.br_blockcount ≤ run_end r rs) × (mapped (r ∷ rs) (run_end r rs) ≡ none)
run_end_hole r [] (h, _, _) = unfold run_end in (omega arith, ground arith)
run_end_hole r (q ∷ rs) (h, p, o) =
    elim (Bool-cases (ltb (r.br_startoff + r.br_blockcount) q.br_startoff)) [
      | inl e ↦ rw (run_end_gap r q rs (ltb→lt _ _ e)) (
        omega arith,
        mapped_skip r (q ∷ rs) _ (omega arith) ∙ mapped-Below (q ∷ rs) _ o (ltb→lt _ _ e),
      )
      | inr e ↦ rw (run_end_touch r q rs (ground arith)) (
        omega (arith, run_end_hole q rs o),
        mapped_skip r (q ∷ rs) _ (omega (arith, run_end_hole q rs o)) ∙ (run_end_hole q rs o).1,
      )
    ]

pub run_end_data :
    (r : BmbtRec) (rs : Bmx) (x : ℕ)
    → IsOrdered (r ∷ rs)
    → r.br_startoff ≤ x
    → x < run_end r rs
    → mapped (r ∷ rs) x ≢ none
run_end_data r [] x o lo hi n = cc (n, mapped_head r [] x lo (unfold run_end in hi))
run_end_data r (q ∷ rs) x (h, p, o) lo hi n =
    elim (Bool-cases (ltb x (r.br_startoff + r.br_blockcount))) [
      | inl e ↦ cc (n, mapped_head r (q ∷ rs) x lo (ltb→lt _ _ e))
      | inr e ↦ elim (Bool-cases (ltb (r.br_startoff + r.br_blockcount) q.br_startoff)) [
        | inl g ↦ absurd (omega (arith, run_end_gap r q rs (ltb→lt _ _ g), ltb→lt _ _ g, le_of e))
        | inr t ↦
            run_end_data q rs x o (omega (arith, le_of e, le_of t))
              (omega (arith, run_end_touch r q rs (le_of t)))
              (sym (mapped_skip r (q ∷ rs) x (le_of e)) ∙ n)
      ]
    ]
