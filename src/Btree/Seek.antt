-- ===== src/Btree/Seek.antt =====
-- `BtreeRoot::lseek` of src/libxfuse/btree.rs, for a `map_block` that answers right.
use xfuse.Base.{
  ℕ, zero, suc, ◌+◌, ◌*◌, ◌/◌, ◌^◌, ◌≤◌, ◌<◌, ◌≡◌, ◌≢◌, refl, ap, ◌∙◌, subst, inl, inr, Bool-cases,
  Option, none, some, arith, Outcome, ok, ◌>>=◌, shr64, add64_small, u64_mod, mul_le, ltb, ltb→lt,
  ltb→le, ◌-◌,
}
use xfuse.Bmbt.{seek_hole}
use xfuse.Bmbt.Runs.{shl64_exact}
use xfuse.Bmbt.SeekBlocks.{Lands, IsHole}
use xfuse.Bmbt.Seek.{FindsFirst, Lands→FindsFirst, shr64_exact}
use xfuse.Btree.{scan_hole, tree_lseek_at, tree_lseek, rounds}

-- What an answer of `map_block` at block `d` tells of the file `m`.
abbrev pub Tells : (ℕ → Option ℕ) → ℕ → Option ℕ × Option ℕ → Type 0
Tells m d (some b, some n) = (0 < n) × ((k : ℕ) → k < n → m (d + k) ≢ none)
Tells m d (some b, none) = ⊥
Tells m d (none, some n) = (0 < n) × ((k : ℕ) → k < n → m (d + k) ≡ none) × (m (d + n) ≢ none)
Tells m d (none, none) = (k : ℕ) → m (d + k) ≡ none

-- A `map_block` that answers for the file at every block, and a hole at block `hole` that no offset
-- reaches past 2^64.
pub record IsMap (map_block : ℕ → Outcome ℕ (Option ℕ × Option ℕ)) (m : ℕ → Option ℕ) (bl hole : ℕ)
    : Type 0 where
  pub answers : (d : ℕ) → (a : Option ℕ × Option ℕ) × (map_block d ≡ ok a) × Tells m d a
  pub small_log : bl < 64
  pub ends : m hole ≡ none
  pub end_fits : hole * 2 ^ bl < u64_mod
  pub end_low : hole < 2 ^ 55

module _ (map_block : ℕ → Outcome ℕ (Option ℕ × Option ℕ)) (m : ℕ → Option ℕ) (bl hole : ℕ)
    (h : IsMap map_block m bl hole) where
  -- A mapped run ends before the hole.
  run_before : (d n : ℕ) → d ≤ hole → ((k : ℕ) → k < n → m (d + k) ≢ none) → d + n ≤ hole
  run_before d n le run = elim (Bool-cases (ltb hole (d + n))) [
    | inl t ↦
        let lt = ltb→lt hole (d + n) t in
        let at : d + (hole - d) ≡ hole = omega arith in
        absurd (run (hole - d) (omega arith) (ap m at ∙ h.ends))
    | inr f ↦ ltb→le hole (d + n) f
  ]

  fits : (d : ℕ) → d ≤ hole → d * 2 ^ bl < u64_mod
  fits d le = omega (arith, mul_le d hole (2 ^ bl) le, h.end_fits)

  small : (d : ℕ) → d ≤ hole → d < u64_mod
  small d le = omega (arith, h.end_low)

  at_start : (d : ℕ) → m (d + 0) ≡ none → m d ≡ none
  at_start d z = subst (λ k. m k ≡ none) (omega arith) z

  joined :
      (d n b : ℕ)
      → ((k : ℕ) → k < n → m (d + k) ≢ none)
      → ((x : ℕ) → d + n ≤ x → x < b → m x ≢ none)
      → (x : ℕ) → d ≤ x
      → x < b
      → m x ≢ none
  joined d n b run least x from below = elim (Bool-cases (ltb x (d + n))) [
    | inl t ↦
        let lt = ltb→lt x (d + n) t in
        let at : d + (x - d) ≡ x = omega arith in
        subst (λ k. m k ≢ none) at (run (x - d) (omega arith))
    | inr f ↦ least x (ltb→le x (d + n) f) below
  ]

  -- The scan from block `d` ended at the first hole.
  abbrev Scanned : ℕ → Outcome ℕ ℕ → Type 0
  Scanned d o =
      (b : ℕ) × (o ≡ ok (b * 2 ^ bl))
      × (d ≤ b)
      × (m b ≡ none)
      × ((x : ℕ) → d ≤ x → x < b → m x ≢ none)

  scan_step :
      (fuel d : ℕ) (a : Option ℕ × Option ℕ)
      → d ≤ hole
      → ((d' : ℕ) → d < d' → d' ≤ hole → Scanned d' (scan_hole map_block bl fuel d'))
      → map_block d ≡ ok a
      → Tells m d a
      → Scanned d (scan_hole map_block bl (suc fuel) d)
  unfolding scan_hole
  scan_step fuel d (none, none) le rest e tells = (
    d,
    rw e (ap ok (shl64_exact d bl h.small_log (fits d le))),
    omega arith,
    at_start d (tells 0),
    λ x lo hi. absurd (omega arith),
  )
  scan_step fuel d (none, some n) le rest e (pos, run, after) = (
    d,
    rw e (ap ok (shl64_exact d bl h.small_log (fits d le))),
    omega arith,
    at_start d (run 0 pos),
    λ x lo hi. absurd (omega arith),
  )
  scan_step fuel d (some s, none) le rest e tells = elim tells [ ]
  scan_step fuel d (some s, some n) le rest e (pos, run) =
      let end_le = run_before d n le run in
      let (b, e2, lo, hole_b, least) = rest (d + n) (omega arith) end_le in
      (
        b,
        rw (e, add64_small d n (small (d + n) end_le)) e2,
        omega arith,
        hole_b,
        λ x from below. joined d n b run least x from below,
      )

  scan_hole_lem :
      (fuel d : ℕ) → d ≤ hole → hole < d + fuel → Scanned d (scan_hole map_block bl fuel d)
  scan_hole_lem zero d le lt = absurd (omega arith)
  scan_hole_lem (suc fuel) d le lt =
      let (a, e, tells) = h.answers d in
      scan_step fuel d a le (λ d' more le'. scan_hole_lem fuel d' le' (omega arith)) e tells

  pub tree_found :
      (offset whence d : ℕ) (a : Option ℕ × Option ℕ)
      → offset / 2 ^ bl ≡ d
      → map_block d ≡ ok a
      → tree_lseek map_block bl offset whence ≡ tree_lseek_at map_block bl rounds offset whence d a
  unfolding tree_lseek
  tree_found offset whence d a at e =
      found rounds (shr64 offset bl) ((shr64_exact offset bl h.small_log) ∙ at)
    where
      found :
          (fuel x : ℕ)
          → x ≡ d
          → (map_block x >>= λ f. tree_lseek_at map_block bl fuel offset whence x f)
            ≡ tree_lseek_at map_block bl fuel offset whence d a
      found fuel x same = rw (same, e)

  scanned_at :
      (fuel offset d s n r : ℕ)
      → d + n ≤ hole
      → scan_hole map_block bl fuel (d + n) ≡ ok r
      → tree_lseek_at map_block bl fuel offset seek_hole d (some s, some n) ≡ ok r
  unfolding tree_lseek_at
  scanned_at fuel offset d s n r le e = rw (add64_small d n (small (d + n) le)) e

  -- `SEEK_HOLE` in a B+tree of extents returns the first offset at or after the given one that lies
  -- in a hole, when `map_block` answers right and there is a hole at or after the offset's block,
  -- below block 2^55 and byte 2^64; the scan does not run out of rounds.
  pub tree_lseek-IsHole :
      (offset : ℕ)
      → offset / 2 ^ bl ≤ hole
      → FindsFirst m IsHole bl offset (tree_lseek map_block bl offset seek_hole)
  unfolding tree_lseek_at
  tree_lseek-IsHole offset le =
      let (a, e, tells) = h.answers (offset / 2 ^ bl) in
      Lands→FindsFirst m IsHole bl offset (tree_lseek map_block bl offset seek_hole)
        (lands (offset / 2 ^ bl) a le refl e tells)
    where
      lands :
          (d : ℕ) (a : Option ℕ × Option ℕ)
          → d ≤ hole
          → offset / 2 ^ bl ≡ d
          → map_block d ≡ ok a
          → Tells m d a
          → Lands m IsHole bl offset d (tree_lseek map_block bl offset seek_hole)
      lands d (none, none) d_le at e tells =
          inl (tree_found offset seek_hole d (none, none) at e, at_start d (tells 0))
      lands d (none, some n) d_le at e (pos, run, after) =
          inl (tree_found offset seek_hole d (none, some n) at e, at_start d (run 0 pos))
      lands d (some s, none) d_le at e tells = elim tells [ ]
      lands d (some s, some n) d_le at e (pos, run) =
          let end_le = run_before d n d_le run in
          let (b, e2, lo, hole_b, least) =
            scan_hole_lem rounds (d + n) end_le (omega (arith, h.end_low)) in
          inr (
            inl (
              b,
              tree_found offset seek_hole d (some s, some n) at e
                  ∙ scanned_at rounds offset d s n (b * 2 ^ bl) end_le e2,
              omega arith,
              hole_b,
              λ x from below. joined d n b run least x from below,
            ))
