-- ===== src/Btree/Cover.antt =====
-- The extents below a node of src/libxfuse/btree.rs, and the child that `map_block` descends into.
use xfuse.Base.{
  ℕ, suc, ◌+◌, ◌-◌, ◌<◌, ◌≤◌, ◌≡◌, ◌≢◌, refl, sym, ap, ◌∙◌, subst, Option, none, some, List, [],
  ◌∷◌, ◌++◌, arith, get_elem?, leb, le→leb, leb→le, leb→lt, All, Bool-cases, inl, inr,
  if◌then◌else◌, false,
}
use xfuse.Bmbt.{BmbtRec, Bmx}
use xfuse.Bmbt.Extents.{mapped, contains, mapped_skip}
use xfuse.Bmbt.Lookup.{Describes}
use xfuse.Btree.Map.{child_of}

abbrev pub StartFrom : ℕ → List BmbtRec → Type 0
StartFrom k rs = All (λ (r : BmbtRec). k ≤ r.br_startoff) rs

abbrev pub EndBy : ℕ → List BmbtRec → Type 0
EndBy k rs = All (λ (r : BmbtRec). r.br_startoff + r.br_blockcount ≤ k) rs

-- The keys and pointers of a node over extents: below each pointer there is a part of them, which ends
-- before the next key, and nothing behind it starts before that key. `C` says what is below a pointer.
abbrev pub IsForest : (ℕ → Bmx → Type 0) → List ℕ → List ℕ → Bmx → Type 0
IsForest C [] [] rs = rs ≡ []
IsForest C (k ∷ []) (p ∷ []) rs = C p rs
IsForest C (k ∷ k' ∷ ks) (p ∷ p' ∷ ps) rs =
    (seg : Bmx) × (more : Bmx) × (rs ≡ seg ++ more)
    × (k ≤ k')
    × C p seg
    × EndBy k' seg
    × StartFrom k' more
    × IsForest C (k' ∷ ks) (p' ∷ ps) more
IsForest C _ _ rs = ⊥

mapped-StartFrom : (rs : Bmx) (k d : ℕ) → StartFrom k rs → d < k → mapped rs d ≡ none
mapped-StartFrom [] k d h lt = refl
mapped-StartFrom (r ∷ rs) k d (h, hs) lt = ground (arith, mapped-StartFrom rs k d hs lt)

mapped-EndBy : (rs : Bmx) (k d : ℕ) → EndBy k rs → k ≤ d → mapped rs d ≡ none
mapped-EndBy [] k d h le = refl
mapped-EndBy (r ∷ rs) k d (h, hs) le = mapped_skip r rs d (omega arith) ∙ mapped-EndBy rs k d hs le

mapped-append_left :
    (seg more : Bmx) (d : ℕ) → mapped more d ≡ none → mapped (seg ++ more) d ≡ mapped seg d
mapped-append_left [] more d h = h
mapped-append_left (r ∷ seg) more d h =
    ap (λ o. if contains r d then some (r.br_startblock + (d - r.br_startoff)) else o)
      (mapped-append_left seg more d h)

mapped-append_right :
    (seg more : Bmx) (k d : ℕ) → EndBy k seg → k ≤ d → mapped (seg ++ more) d ≡ mapped more d
mapped-append_right [] more k d h le = refl
mapped-append_right (r ∷ seg) more k d (h, hs) le =
    mapped_skip r (seg ++ more) d (omega arith) ∙ mapped-append_right seg more k d hs le

-- From block `d` on the part `seg` is what is mapped, as far as it maps anything.
abbrev pub Within : Bmx → Bmx → ℕ → Type 0
Within rs seg d =
    (mapped rs d ≡ mapped seg d)
    × ((x y : ℕ) → d ≤ x → x ≤ y → mapped seg y ≢ none → mapped rs x ≡ mapped seg x)

Within-append_left :
    (seg more : Bmx) (k d : ℕ) → EndBy k seg → StartFrom k more → d < k → Within (seg ++ more) seg d
Within-append_left seg more k d ends starts lt = (
  mapped-append_left seg more d (mapped-StartFrom more k d starts lt),
  λ x y lo le some_y. elim (Bool-cases (leb k y)) [
    | inl past ↦ absurd (some_y (mapped-EndBy seg k y ends (leb→le k y past)))
    | inr before ↦
        mapped-append_left seg more x
          (mapped-StartFrom more k x starts (omega (arith, leb→lt k y before)))
  ],
)

Within-append_right :
    (seg more part : Bmx) (k d : ℕ)
    → EndBy k seg
    → k ≤ d
    → Within more part d
    → Within (seg ++ more) part d
Within-append_right seg more part k d ends le (here, on) = (
  mapped-append_right seg more k d ends le ∙ here,
  λ x y lo up some_y. mapped-append_right seg more k x ends (omega arith) ∙ on x y lo up some_y,
)

pub Within-trans :
    (rs seg part : Bmx) (d : ℕ) → Within rs seg d → Within seg part d → Within rs part d
Within-trans rs seg part d (here, on) (here', on') = (
  here ∙ here',
  λ x y lo up some_y.
      let same_y = on' y y (omega arith) (omega arith) some_y in
      on x y lo up (λ e. some_y (sym same_y ∙ e)) ∙ on' x y lo up some_y,
)

first_child : (k d : ℕ) → child_of (k ∷ []) d ≡ 0
first_child k d = elim (Bool-cases (leb k d)) [ inl t ↦ rw t refl | inr f ↦ rw f refl ]

child_here : (k k' : ℕ) (ks : List ℕ) (d : ℕ) → leb k' d ≡ false → child_of (k ∷ k' ∷ ks) d ≡ 0
child_here k k' ks d h = elim (Bool-cases (leb k d)) [ inl t ↦ rw (t, h) refl | inr f ↦ rw f refl ]

child_later :
    (k k' : ℕ) (ks : List ℕ) (d : ℕ)
    → k ≤ d
    → k' ≤ d
    → child_of (k ∷ k' ∷ ks) d ≡ suc (child_of (k' ∷ ks) d)
child_later k k' ks d h h' = rw (le→leb k d h, le→leb k' d h') (omega arith)

-- The child that the search descends into holds what is mapped from the block on.
pub child_of-Within :
    (C : ℕ → Bmx → Type 0) (k : ℕ) (ks ps : List ℕ) (rs : Bmx) (d : ℕ)
    → IsForest C (k ∷ ks) ps rs
    → (p : ℕ) × (seg : Bmx) × (get_elem? ps (child_of (k ∷ ks) d) ≡ some p)
      × C p seg
      × Within rs seg d
child_of-Within C k [] [] rs d h = elim h [ ]
child_of-Within C k [] (p ∷ []) rs d c =
    (p, rs, ap (get_elem? (p ∷ [])) (first_child k d), c, (refl, λ x y lo up some_y. refl))
child_of-Within C k [] (p ∷ q ∷ ps) rs d h = elim h [ ]
child_of-Within C k (k' ∷ ks) [] rs d h = elim h [ ]
child_of-Within C k (k' ∷ ks) (p ∷ []) rs d h = elim h [ ]
child_of-Within C k (k' ∷ ks) (p ∷ p' ∷ ps) rs d (seg, more, split, le, c, ends, starts, f) =
    elim (Bool-cases (leb k' d)) [
      | inl later ↦
          let below = leb→le k' d later in
          let (q, part, at, c', w) = child_of-Within C k' ks (p' ∷ ps) more d f in
          (
            q,
            part,
            ap (get_elem? (p ∷ p' ∷ ps)) (child_later k k' ks d (omega arith) below) ∙ at,
            c',
            subst (λ z. Within z part d) (sym split)
                (Within-append_right seg more part k' d ends below w),
          )
      | inr here ↦ (
        p,
        seg,
        ap (get_elem? (p ∷ p' ∷ ps)) (child_here k k' ks d here),
        c,
        subst (λ z. Within z seg d) (sym split)
            (Within-append_left seg more k' d ends starts (leb→lt k' d here)),
      )
    ]

-- What an answer of `map_block` at block `d` tells of the blocks from `d` on. A hole without a length is
-- one at `d`; nothing is told of the blocks behind it.
abbrev pub Tells : Bmx → ℕ → Option ℕ × Option ℕ → Type 0
Tells rs d (none, none) = mapped rs d ≡ none
Tells rs d (some b, n) = Describes rs d (some b, n)
Tells rs d (none, some n) = Describes rs d (none, some n)

not_none : (o : Option ℕ) (x : ℕ) → o ≡ some x → o ≢ none
not_none o x e = λ f. cc (e, f)

-- The answer for the part is right for the whole.
pub Describes-Within :
    (rs seg : Bmx) (d : ℕ) (a : Option ℕ × Option ℕ)
    → Within rs seg d
    → Describes seg d a
    → Tells rs d a
Describes-Within rs seg d (some b, some n) (here, on) (pos, run) = (
  pos,
  λ k lt.
      on (d + k) (d + k) (omega arith) (omega arith)
        (not_none (mapped seg (d + k)) (b + k) (run k lt))
      ∙ run k lt,
)
Describes-Within rs seg d (some b, none) w h = h
Describes-Within rs seg d (none, some n) (here, on) (pos, hole, ends) = (
  pos,
  λ k lt. on (d + k) (d + n) (omega arith) (omega arith) ends ∙ hole k lt,
  λ e. ends (sym (on (d + n) (d + n) (omega arith) (omega arith) ends) ∙ e),
)
Describes-Within rs seg d (none, none) (here, on) h =
    let z : d + 0 ≡ d = omega arith in here ∙ subst (λ x. mapped seg x ≡ none) z (h 0)
