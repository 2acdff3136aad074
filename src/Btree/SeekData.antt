-- ===== src/Btree/SeekData.antt =====
-- `SEEK_DATA` of `BtreeRoot::lseek` in src/libxfuse/btree.rs: where it leaves an offset that is in a hole.
use xfuse.Base.{
  ℕ, ◌+◌, ◌-◌, ◌*◌, ◌/◌, ◌%◌, ◌^◌, ◌≤◌, ◌<◌, ◌≡◌, ◌≢◌, refl, sym, ap, ◌∙◌, subst, inl, inr,
  Bool-cases, Option, none, some, arith, Outcome, ok, err, add64, add64_small, u64_mod, ltb, ltb→lt,
  ltb→le,
}
use xfuse.Bmbt.{seek_data, errno_enxio}
use xfuse.Bmbt.Runs.{shl64_exact}
use xfuse.Btree.{tree_lseek_at, tree_lseek}
use xfuse.Btree.Seek.{Tells, IsMap, tree_found}
use native.Mathlib.Nat.{div-add-mod'}

module _ (map_block : ℕ → Outcome ℕ (Option ℕ × Option ℕ)) (m : ℕ → Option ℕ) (bl hole : ℕ)
    (h : IsMap map_block m bl hole) where
  -- The hole that is told of ends where data begins.
  same_end :
      (d n b : ℕ)
      → ((k : ℕ) → k < n → m (d + k) ≡ none)
      → m (d + n) ≢ none
      → d < b
      → m b ≢ none
      → ((x : ℕ) → d ≤ x → x < b → m x ≡ none)
      → d + n ≡ b
  same_end d n b run after lt data_b least = elim (Bool-cases (ltb (d + n) b)) [
    | inl t ↦ absurd (after (least (d + n) (omega arith) (ltb→lt (d + n) b t)))
    | inr f ↦ elim (Bool-cases (ltb b (d + n))) [
      | inl t ↦
          let below = ltb→lt b (d + n) t in
          let at : d + (b - d) ≡ b = omega arith in
          absurd (data_b (subst (λ k. m k ≡ none) at (run (b - d) (omega arith))))
      | inr g ↦ omega (arith, ltb→le (d + n) b f, ltb→le b (d + n) g)
    ]
  ]

  start_hole : (d : ℕ) → m (d + 0) ≡ none → m d ≡ none
  start_hole d z = subst (λ k. m k ≡ none) (omega arith) z

  moved : (p offset d n b : ℕ) → offset / p ≡ d → d + n ≡ b → offset + n * p ≡ b * p + offset % p
  moved p offset d n b at sum = rw (sym sum, sym at) (grind (arith, div-add-mod' offset p))

  data_run :
      (offset d : ℕ) (a : Option ℕ × Option ℕ)
      → offset / 2 ^ bl ≡ d
      → map_block d ≡ ok a
      → Tells m d a
      → m d ≢ none
      → tree_lseek map_block bl offset seek_data ≡ ok offset
  unfolding tree_lseek_at
  data_run offset d (none, none) at e tells known = absurd (known (start_hole d (tells 0)))
  data_run offset d (none, some n) at e (pos, run, after) known =
      absurd (known (start_hole d (run 0 pos)))
  data_run offset d (some s, none) at e tells known = elim tells [ ]
  data_run offset d (some s, some n) at e tells known =
      tree_found map_block m bl hole h offset seek_data d (some s, some n) at e

  hole_run :
      (offset d b : ℕ) (a : Option ℕ × Option ℕ)
      → offset / 2 ^ bl ≡ d
      → map_block d ≡ ok a
      → Tells m d a
      → d < b
      → m b ≢ none
      → ((x : ℕ) → d ≤ x → x < b → m x ≡ none)
      → b * 2 ^ bl + offset % 2 ^ bl < u64_mod
      → tree_lseek map_block bl offset seek_data ≡ ok (b * 2 ^ bl + offset % 2 ^ bl)
  unfolding tree_lseek_at
  hole_run offset d b (none, none) at e tells lt data_b least room =
      absurd (data_b (subst (λ k. m k ≡ none) (omega arith) (tells (b - d))))
  hole_run offset d b (none, some n) at e (pos, run, after) lt data_b least room =
      let sum = same_end d n b run after lt data_b least in
      let total = moved (2 ^ bl) offset d n b at sum in
      tree_found map_block m bl hole h offset seek_data d (none, some n) at e
      ∙ ap ok (
          ap (λ z. add64 offset z) (shl64_exact n bl h.small_log (omega (arith, total)))
          ∙ add64_small offset (n * 2 ^ bl) (omega (arith, total))
          ∙ total)
  hole_run offset d b (some s, none) at e tells lt data_b least room = elim tells [ ]
  hole_run offset d b (some s, some n) at e (pos, run) lt data_b least room =
      absurd (run 0 pos (least (d + 0) (omega arith) (omega arith)))

  no_run :
      (offset d : ℕ) (a : Option ℕ × Option ℕ)
      → offset / 2 ^ bl ≡ d
      → map_block d ≡ ok a
      → Tells m d a
      → ((x : ℕ) → d ≤ x → m x ≡ none)
      → tree_lseek map_block bl offset seek_data ≡ err errno_enxio
  unfolding tree_lseek_at
  no_run offset d (none, none) at e tells never =
      tree_found map_block m bl hole h offset seek_data d (none, none) at e
  no_run offset d (none, some n) at e (pos, run, after) never =
      absurd (after (never (d + n) (omega arith)))
  no_run offset d (some s, none) at e tells never = elim tells [ ]
  no_run offset d (some s, some n) at e (pos, run) never =
      absurd (run 0 pos (never (d + 0) (omega arith)))

  -- When `map_block` answers right, `SEEK_DATA` in a B+tree of extents returns an offset in data
  -- unchanged, and ENXIO when there is no data from its block on. From an offset in a hole it goes to the
  -- first block of data, but as far into that block as the offset was into its own (below 2^64), past the
  -- data in between.
  pub tree_lseek_data :
      (offset : ℕ)
      → let d = offset / 2 ^ bl in
        (m d ≢ none → tree_lseek map_block bl offset seek_data ≡ ok offset)
        × ((b : ℕ)
            → d < b
            → m b ≢ none
            → ((x : ℕ) → d ≤ x → x < b → m x ≡ none)
            → b * 2 ^ bl + offset % 2 ^ bl < u64_mod
            → tree_lseek map_block bl offset seek_data ≡ ok (b * 2 ^ bl + offset % 2 ^ bl))
        × (((x : ℕ) → d ≤ x → m x ≡ none)
            → tree_lseek map_block bl offset seek_data ≡ err errno_enxio)
  tree_lseek_data offset =
      let d = offset / 2 ^ bl in
      let (a, e, tells) = h.answers d in
      (
        λ known. data_run offset d a refl e tells known,
        λ b lt data_b least room. hole_run offset d b a refl e tells lt data_b least room,
        λ never. no_run offset d a refl e tells never,
      )
