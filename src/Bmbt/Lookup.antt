-- ===== src/Bmbt/Lookup.antt =====
-- `Bmx::get_extent` and `Bmx::map_dblock` of src/libxfuse/bmbt_rec.rs find what the list maps.
use xfuse.Base.{
  ℕ, suc, ◌+◌, ◌-◌, ◌≤◌, ◌<◌, ◌≡◌, ◌≢◌, refl, false, Option, none, some, [], ◌∷◌, arith, leb, ltb,
  sym, ap, ◌∙◌, if◌then◌else◌, le→leb, lt→leb, ltb→lt, leb→le, Bool-cases, inl, inr,
  partition_point, Outcome, ok, panic,
}
use xfuse.Bmbt.{BmbtRec, Bmx, get_extent, get_extent_at, map_dblock, map_dblock_at}
use xfuse.Bmbt.Extents.{mapped, IsRecord, IsOrdered, IsBmx, mapped-Below, mapped_skip, mapped_head}

-- What an answer of `get_extent` at block `d` tells of the blocks from `d` on.
abbrev pub Describes : Bmx → ℕ → Option ℕ × Option ℕ → Type 0
Describes bmx d (some b, some n) = (0 < n) × ((k : ℕ) → k < n → mapped bmx (d + k) ≡ some (b + k))
Describes bmx d (some b, none) = ⊥
Describes bmx d (none, some n) =
    (0 < n) × ((k : ℕ) → k < n → mapped bmx (d + k) ≡ none) × (mapped bmx (d + n) ≢ none)
Describes bmx d (none, none) = (k : ℕ) → mapped bmx (d + k) ≡ none

Describes-skip :
    (r : BmbtRec) (rs : Bmx) (d : ℕ) (a : Option ℕ × Option ℕ)
    → r.br_startoff + r.br_blockcount ≤ d
    → Describes rs d a
    → Describes (r ∷ rs) d a
Describes-skip r rs d (some b, some n) h p =
    (p.0, λ k lt. mapped_skip r rs (d + k) (omega arith) ∙ p.1 k lt)
Describes-skip r rs d (some b, none) h p = p
Describes-skip r rs d (none, some n) h p = (
  p.0,
  λ k lt. mapped_skip r rs (d + k) (omega arith) ∙ p.1 k lt,
  λ e. p.2 (sym (mapped_skip r rs (d + n) (omega arith)) ∙ e),
)
Describes-skip r rs d (none, none) h p = λ k. mapped_skip r rs (d + k) (omega arith) ∙ p k

abbrev pub Answers : Bmx → ℕ → Outcome ℕ (Option ℕ × Option ℕ) → Type 0
Answers bmx d o = (a : Option ℕ × Option ℕ) × (o ≡ ok a) × Describes bmx d a

abbrev upto : ℕ → Bmx → ℕ
upto d bmx = partition_point (λ (e : BmbtRec). leb e.br_startoff d) bmx

-- Block `d` lies in the record that the search ends at.
within :
    (r : BmbtRec) (rs : Bmx) (d : ℕ)
    → IsRecord r
    → r.br_flag ≡ false
    → r.br_startoff ≤ d
    → d < r.br_startoff + r.br_blockcount
    → Answers (r ∷ rs) d (get_extent_at (r ∷ rs) d 1)
within r rs d h w lo hi = (
  (some (r.br_startblock + (d - r.br_startoff)), some (r.br_blockcount - (d - r.br_startoff))),
  ground (arith, h),
  (ground arith, λ k lt. ground arith),
)

-- Past the last record nothing is mapped.
after_last :
    (r : BmbtRec) (d : ℕ)
    → IsRecord r
    → r.br_startoff + r.br_blockcount ≤ d
    → Answers (r ∷ []) d (get_extent_at (r ∷ []) d 1)
after_last r d h hi = ((none, none), ground (arith, h), λ k. ground arith)

-- Between two records there is a hole up to the second.
between_eq :
    (r q : BmbtRec) (rs : Bmx) (d : ℕ)
    → IsRecord r
    → IsRecord q
    → r.br_startoff + r.br_blockcount ≤ d
    → d < q.br_startoff
    → get_extent_at (r ∷ q ∷ rs) d 1 ≡ ok (none, some (q.br_startoff - d))
between_eq r q rs d h hq hi lt = ground (arith, h, hq)

between :
    (r q : BmbtRec) (rs : Bmx) (d : ℕ)
    → IsOrdered (r ∷ q ∷ rs)
    → r.br_startoff + r.br_blockcount ≤ d
    → d < q.br_startoff
    → Answers (r ∷ q ∷ rs) d (get_extent_at (r ∷ q ∷ rs) d 1)
between r q rs d (h, p, o) hi lt = (
  (none, some (q.br_startoff - d)),
  between_eq r q rs d h o.0 hi lt,
  (
    omega arith,
    λ k lk.
        mapped_skip r (q ∷ rs) (d + k) (omega arith)
        ∙ mapped-Below (q ∷ rs) (d + k) o (omega arith),
    λ e. cc (
      e,
      mapped_skip r (q ∷ rs) (d + (q.br_startoff - d)) (omega arith),
      mapped_head q rs (d + (q.br_startoff - d)) (omega arith) (starts o.0),
    ),
  ),
)
  where
    starts : IsRecord q → d + (q.br_startoff - d) < q.br_startoff + q.br_blockcount
    starts hq = omega (arith, hq.nonempty)

get_extent_from :
    (r : BmbtRec) (rs : Bmx) (d : ℕ)
    → IsBmx (r ∷ rs)
    → r.br_startoff ≤ d
    → Answers (r ∷ rs) d (get_extent_at (r ∷ rs) d (suc (upto d rs)))
get_extent_from r [] d ((h, _, _), (w, _)) lo =
    elim (Bool-cases (ltb d (r.br_startoff + r.br_blockcount))) [
      | inl e ↦ within r [] d h w lo (ltb→lt _ _ e)
      | inr e ↦ after_last r d h (ground arith)
    ]
get_extent_from r (q ∷ rs) d ((h, p, o), (w, ws)) lo = elim (Bool-cases (leb q.br_startoff d)) [
  | inl later ↦
      let (a, e, t) = get_extent_from q rs d (o, ws) (leb→le _ _ later) in
      (a, rw later e, Describes-skip r (q ∷ rs) d a (ground arith) t)
  | inr here ↦ rw here (elim (Bool-cases (ltb d (r.br_startoff + r.br_blockcount))) [
    | inl e ↦ within r (q ∷ rs) d h w lo (ltb→lt _ _ e)
    | inr e ↦ between r q rs d (h, p, o) (ground arith) (ground arith)
  ])
]

-- On an ordered list of written extents `get_extent` answers at every block, and its answer
-- describes what the list maps from that block on: a mapped run, or a hole and its exact length.
pub get_extent-Describes : (bmx : Bmx) (d : ℕ) → IsBmx bmx → Answers bmx d (get_extent bmx d)
unfolding get_extent
get_extent-Describes [] d h = ((none, none), refl, λ k. refl)
get_extent-Describes (r ∷ rs) d h = elim (Bool-cases (leb r.br_startoff d)) [
  | inl later ↦ rw later (get_extent_from r rs d h (leb→le _ _ later))
  | inr first ↦ rw first (
    (none, some (r.br_startoff - d)),
    ground (arith, h.0.0),
    (ground arith, λ k lt. mapped-Below (r ∷ rs) (d + k) h.0 (omega arith), ground (arith, h.0.0)),
  )
]

map_dblock_head :
    (r : BmbtRec) (rs : Bmx) (d : ℕ)
    → IsRecord r
    → r.br_startoff ≤ d
    → map_dblock_at (r ∷ rs) d 0
      ≡ ok (
          if leb (r.br_startoff + r.br_blockcount) d
          then none
          else some (r.br_startblock + (d - r.br_startoff)))
map_dblock_head r rs d h lo = ground (arith, h)

map_dblock_tail :
    (r q : BmbtRec) (rs : Bmx) (d : ℕ)
    → q.br_startoff ≤ d
    → map_dblock_at (r ∷ q ∷ rs) d (upto d (q ∷ rs)) ≡ map_dblock_at (q ∷ rs) d (upto d rs)
map_dblock_tail r q rs d lo = rw (le→leb _ _ lo)

map_dblock_stay :
    (r q : BmbtRec) (rs : Bmx) (d : ℕ)
    → leb q.br_startoff d ≡ false
    → map_dblock_at (r ∷ q ∷ rs) d (upto d (q ∷ rs)) ≡ map_dblock_at (r ∷ q ∷ rs) d 0
map_dblock_stay r q rs d e = rw e

map_dblock_from :
    (r : BmbtRec) (rs : Bmx) (d : ℕ)
    → IsOrdered (r ∷ rs)
    → r.br_startoff ≤ d
    → map_dblock_at (r ∷ rs) d (upto d rs) ≡ ok (mapped (r ∷ rs) d)
map_dblock_from r [] d (h, _, _) lo = ground (arith, map_dblock_head r [] d h lo)
map_dblock_from r (q ∷ rs) d (h, p, o) lo = elim (Bool-cases (leb q.br_startoff d)) [
  | inl later ↦
      map_dblock_tail r q rs d (leb→le _ _ later)
      ∙ map_dblock_from q rs d o (leb→le _ _ later)
      ∙ ap ok (sym (mapped_skip r (q ∷ rs) d (ground arith)))
  | inr here ↦
      map_dblock_stay r q rs d here
      ∙ map_dblock_head r (q ∷ rs) d h lo
      ∙ ap ok (settle (ground arith))
]
  where
    settle :
        d < q.br_startoff
        → (if leb (r.br_startoff + r.br_blockcount) d
            then none
            else some (r.br_startblock + (d - r.br_startoff)))
          ≡ mapped (r ∷ q ∷ rs) d
    settle lt = ground (arith, mapped-Below (q ∷ rs) d o lt)

-- On an ordered list `map_dblock` returns what the list maps at every block from the first record on.
-- At every block before it, which is a hole, the call panics and does not return `None`.
pub map_dblock_lem :
    (r : BmbtRec) (rs : Bmx) (d : ℕ)
    → IsOrdered (r ∷ rs)
    → (r.br_startoff ≤ d → map_dblock (r ∷ rs) d ≡ ok (mapped (r ∷ rs) d))
      × (d < r.br_startoff → (map_dblock (r ∷ rs) d ≡ panic) × (mapped (r ∷ rs) d ≡ none))
unfolding map_dblock
map_dblock_lem r rs d o = (
  λ lo. (rw (le→leb _ _ lo, map_dblock)) ∙ map_dblock_from r rs d o lo,
  λ lt. (rw (lt→leb _ _ lt, map_dblock), mapped-Below (r ∷ rs) d o lt),
)
