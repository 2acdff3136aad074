-- ===== src/Bmbt/Seek.antt =====
-- `Bmx::lseek` of src/libxfuse/bmbt_rec.rs finds the next data and the next hole, in bytes.
use xfuse.Base.{
  ℕ, suc, ◌+◌, ◌*◌, ◌/◌, ◌%◌, ◌^◌, ◌≤◌, ◌<◌, ◌≡◌, refl, sym, subst, ap, ◌∙◌, ◌≢◌, true, Option,
  none, [], ◌∷◌, arith, leb, leb→le, lt→leb, Bool-cases, ◌⊎◌, inl, inr, Outcome, ok, err, shr64,
}
use xfuse.Base.{pos_pow, div_facts, div_le}
use xfuse.Bmbt.{BmbtRec, Bmx, lseek, lseek_at, seek_data, seek_hole, errno_enxio}
use xfuse.Bmbt.Extents.{mapped, IsOrdered, mapped-Below, mapped_skip, mapped_head}
use xfuse.Bmbt.Runs.{FitsBytes, shl64_exact}
use xfuse.Bmbt.SeekBlocks.{upto, Lands, IsData, IsHole, Lands-IsData, Lands-IsHole}

-- The byte offset is the first at or after `offset` whose block has the property `P`; ENXIO says that
-- there is none.
abbrev pub FindsFirst : (ℕ → Option ℕ) → (Option ℕ → Type 0) → ℕ → ℕ → Outcome ℕ ℕ → Type 0
FindsFirst m P bl offset o =
    ((b : ℕ) × (o ≡ ok b)
      × (offset ≤ b)
      × P (m (b / 2 ^ bl))
      × ((x : ℕ) → offset ≤ x → x < b → ¬ (P (m (x / 2 ^ bl)))))
    ⊎ ((o ≡ err errno_enxio) × ((x : ℕ) → offset ≤ x → ¬ (P (m (x / 2 ^ bl)))))

pub shr64_exact : (offset bl : ℕ) → bl < 64 → shr64 offset bl ≡ offset / 2 ^ bl
shr64_exact offset bl small = let e : bl % 64 ≡ bl = omega arith in rw e

module _ (m : ℕ → Option ℕ) (P : Option ℕ → Type 0) (bl offset : ℕ) where
  pub Lands→FindsFirst :
      (o : Outcome ℕ ℕ) → Lands m P bl offset (offset / 2 ^ bl) o → FindsFirst m P bl offset o
  Lands→FindsFirst o (inl (e, p)) = inl (offset, e, omega arith, p, λ x lo hi. absurd (omega arith))
  Lands→FindsFirst o (inr (inl (b, e, lt, p, least))) =
      let (whole, under, over) = div_facts (2 ^ bl) b offset (pos_pow bl) in
      inl (
        b * 2 ^ bl,
        e,
        over lt,
        rw whole p,
        λ x lo hi.
            least (x / 2 ^ bl) (div_le (2 ^ bl) offset x (pos_pow bl) lo)
              ((div_facts (2 ^ bl) b x (pos_pow bl)).1 hi),
      )
  Lands→FindsFirst o (inr (inr (e, least))) =
      inr (e, λ x lo. least (x / 2 ^ bl) (div_le (2 ^ bl) offset x (pos_pow bl) lo))

lseek_from :
    (r : BmbtRec) (rs : Bmx) (bl offset whence : ℕ)
    → leb r.br_startoff (shr64 offset bl) ≡ true
    → lseek (r ∷ rs) bl offset whence
      ≡ lseek_at (r ∷ rs) bl offset whence (suc (upto (shr64 offset bl) rs))
unfolding lseek
lseek_from r rs bl offset whence e = rw e

-- Before the first record there is a hole, up to that record.
first-IsData :
    (r : BmbtRec) (rs : Bmx) (bl offset : ℕ)
    → bl < 64
    → IsOrdered (r ∷ rs)
    → FitsBytes bl (r ∷ rs)
    → shr64 offset bl < r.br_startoff
    → Lands
        (mapped (r ∷ rs))
        IsData
        bl
        offset
        (shr64 offset bl)
        (lseek (r ∷ rs) bl offset seek_data)
unfolding lseek
first-IsData r rs bl offset small (h, p, o) (f, fs) lt = inr (
    inl (
      r.br_startoff,
      (rw (lt→leb _ _ lt) (ap ok (shl64_exact r.br_startoff bl small (omega arith)))),
      lt,
      λ n. cc (n, mapped_head r rs r.br_startoff (omega arith) (omega (arith, h.nonempty))),
      λ x lx hx d. d (mapped-Below (r ∷ rs) x (h, p, o) hx),
    ))

-- `SEEK_DATA` returns the first offset at or after the given one that holds data, and ENXIO exactly
-- when there is none, on an ordered list of extents that end below 2^64 bytes.
pub lseek-IsData :
    (bmx : Bmx) (bl offset : ℕ)
    → bl < 64
    → IsOrdered bmx
    → FitsBytes bl bmx
    → FindsFirst (mapped bmx) IsData bl offset (lseek bmx bl offset seek_data)
lseek-IsData [] bl offset small o f = inr (unfold lseek in refl, λ x lo d. d refl)
lseek-IsData (r ∷ rs) bl offset small o f = Lands→FindsFirst (mapped (r ∷ rs)) IsData bl offset _ (
    subst (λ d. Lands (mapped (r ∷ rs)) IsData bl offset d (lseek (r ∷ rs) bl offset seek_data))
      (shr64_exact offset bl small)
      (elim (Bool-cases (leb r.br_startoff (shr64 offset bl))) [
        | inl e ↦
            subst (Lands (mapped (r ∷ rs)) IsData bl offset (shr64 offset bl))
              (sym (lseek_from r rs bl offset seek_data e))
              (Lands-IsData bl r rs offset small o f (leb→le _ _ e))
        | inr e ↦ first-IsData r rs bl offset small o f (ground arith)
      ]))

first-IsHole :
    (bmx : Bmx) (bl offset : ℕ)
    → bl < 64
    → IsOrdered bmx
    → FitsBytes bl bmx
    → FindsFirst (mapped bmx) IsHole bl offset (lseek bmx bl offset seek_hole)
first-IsHole [] bl offset small o f =
    inl (offset, unfold lseek in refl, omega arith, refl, λ x lo hi. absurd (omega arith))
first-IsHole (r ∷ rs) bl offset small o f = Lands→FindsFirst (mapped (r ∷ rs)) IsHole bl offset _ (
    subst (λ d. Lands (mapped (r ∷ rs)) IsHole bl offset d (lseek (r ∷ rs) bl offset seek_hole))
      (shr64_exact offset bl small)
      (elim (Bool-cases (leb r.br_startoff (shr64 offset bl))) [
        | inl e ↦
            subst (Lands (mapped (r ∷ rs)) IsHole bl offset (shr64 offset bl))
              (sym (lseek_from r rs bl offset seek_hole e))
              (Lands-IsHole bl r rs offset small o f (leb→le _ _ e))
        | inr e ↦ inl (unfold lseek in rw e, mapped-Below (r ∷ rs) _ o (ground arith))
      ]))

-- Past the last extent there are holes.
hole_beyond : (bmx : Bmx) (d : ℕ) → IsOrdered bmx → (x : ℕ) × (d ≤ x) × (mapped bmx x ≡ none)
hole_beyond [] d o = (d, omega arith, refl)
hole_beyond (r ∷ rs) d (h, p, o) =
    let (x, le, n) = hole_beyond rs (d + (r.br_startoff + r.br_blockcount)) o in
    (x, omega arith, mapped_skip r rs x (omega arith) ∙ n)

-- `SEEK_HOLE` returns the first offset at or after the given one that lies in a hole, the space past
-- the last extent included, on an ordered list of extents that end below 2^64 bytes.
pub lseek_hole :
    (bmx : Bmx) (bl offset : ℕ)
    → bl < 64
    → IsOrdered bmx
    → FitsBytes bl bmx
    → (b : ℕ) × (lseek bmx bl offset seek_hole ≡ ok b)
      × (offset ≤ b)
      × (mapped bmx (b / 2 ^ bl) ≡ none)
      × ((x : ℕ) → offset ≤ x → x < b → mapped bmx (x / 2 ^ bl) ≢ none)
lseek_hole bmx bl offset small o f = elim (first-IsHole bmx bl offset small o f) [
  | inl found ↦ found
  | inr (e, never) ↦
      let (x, le, n) = hole_beyond bmx offset o in
      let p = pos_pow bl in
      absurd
        (never (x * 2 ^ bl) (grind arith) (ap (mapped bmx) ((div_facts (2 ^ bl) x offset p).0) ∙ n))
]
