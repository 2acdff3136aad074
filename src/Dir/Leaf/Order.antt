-- ===== src/Dir/Leaf/Order.antt =====
-- Sorted leaves of src/libxfuse/dir3_lf.rs: what the last entry of a leaf says of what follows.
use xfuse.Base.{
  ℕ, suc, ◌≤◌, ◌<◌, ◌≡◌, refl, ap, sym, ◌∙◌, subst, List, [], ◌∷◌, ◌++◌, Bool-cases, inl, inr, ◌⊎◌,
  arith, ==_iff, ◌==◌, true, false, keep, All,
}
use xfuse.Dir.{Dir2LeafEntry}
use xfuse.Dir.Index.Range.{IsIndex, has_hash, keep_none}
use xfuse.Dir.Leaf.{ends_with}
use xfuse.Dir.Leaf.Disk.{LeafNDisk}
use mathlib.Core.List.{append_assoc}

-- The entries of a row of leaves.
abbrev pub ents_of : List LeafNDisk → List Dir2LeafEntry
ents_of [] = []
ents_of (l ∷ ls) = l.ents ++ ents_of ls

-- `h` is the hash of the last entry.
abbrev pub EndsAt : ℕ → List Dir2LeafEntry → Type 0
EndsAt h ents =
    (front : List Dir2LeafEntry) × (last : Dir2LeafEntry) × (ents ≡ front ++ (last ∷ []))
    × (last.hashval ≡ h)

abbrev pub AllFrom : ℕ → List Dir2LeafEntry → Type 0
AllFrom h es = All (λ (f : Dir2LeafEntry). h ≤ f.hashval) es

abbrev pub AllBelow : ℕ → List Dir2LeafEntry → Type 0
AllBelow h es = All (λ (f : Dir2LeafEntry). f.hashval < h) es

pub ends_with_last :
    (front : List Dir2LeafEntry) (last : Dir2LeafEntry) (hash : ℕ)
    → ends_with (front ++ (last ∷ [])) hash ≡ (last.hashval == hash)
ends_with_last [] last hash = refl
ends_with_last (e ∷ []) last hash = refl
ends_with_last (e ∷ f ∷ front) last hash = ends_with_last (f ∷ front) last hash

pub All-split :
    (h : ℕ) (xs ys : List Dir2LeafEntry) → AllFrom h (xs ++ ys) → AllFrom h xs × AllFrom h ys
All-split h [] ys a = (tt, a)
All-split h (x ∷ xs) ys (a, as') = let (p, q) = All-split h xs ys as' in ((a, p), q)

pub IsIndex-back : (xs ys : List Dir2LeafEntry) → IsIndex (xs ++ ys) → IsIndex ys
IsIndex-back [] ys s = s
IsIndex-back (x ∷ xs) ys (a, s) = IsIndex-back xs ys s

pub keep-append :
    (hash : ℕ) (xs ys : List Dir2LeafEntry)
    → keep (has_hash hash) (xs ++ ys) ≡ keep (has_hash hash) xs ++ keep (has_hash hash) ys
keep-append hash [] ys = refl
keep-append hash (x ∷ xs) ys = elim (Bool-cases (has_hash hash x)) [
  | inl t ↦ rw t (ap (λ l. x ∷ l) (keep-append hash xs ys))
  | inr f ↦ rw f (keep-append hash xs ys)
]

pub keep_below :
    (hash : ℕ) (xs ys : List Dir2LeafEntry)
    → AllBelow hash xs
    → keep (has_hash hash) (xs ++ ys) ≡ keep (has_hash hash) ys
keep_below hash [] ys a = refl
keep_below hash (x ∷ xs) ys (a, as') =
    let f : has_hash hash x ≡ false = ground arith in rw f (keep_below hash xs ys as')

-- What follows the last entry of a leaf is not below it.
after_last :
    (h : ℕ) (ents rest : List Dir2LeafEntry)
    → EndsAt h ents
    → IsIndex (ents ++ rest)
    → AllFrom h rest
after_last h ents rest (front, last, e, top) s =
    let s' = subst (λ z. IsIndex (z ++ rest)) e s in
    let s'' =
      IsIndex-back front (last ∷ rest) (subst IsIndex (append_assoc front (last ∷ []) rest) s') in
    subst (λ z. AllFrom z rest) top s''.0

-- Nothing in a leaf is above its last entry.
pub below_last :
    (h hash : ℕ) (front : List Dir2LeafEntry) (last : Dir2LeafEntry)
    → IsIndex (front ++ (last ∷ []))
    → last.hashval < hash
    → AllBelow hash (front ++ (last ∷ []))
below_last h hash [] last s lt = (lt, tt)
below_last h hash (x ∷ front) last (a, s) lt =
    let (p, q) = All-split x.hashval front (last ∷ []) a in
    (omega (arith, q.0), below_last h hash front last s lt)

pub AllFrom-last : (h k : ℕ) (ents : List Dir2LeafEntry) → EndsAt k ents → AllFrom h ents → h ≤ k
AllFrom-last h k ents (front, last, e, top) a =
    let a' = subst (AllFrom h) e a in
    let (p, q) = All-split h front (last ∷ []) a' in omega (arith, q.0, top)

higher : (hash h : ℕ) (es : List Dir2LeafEntry) → hash < h → AllFrom h es → AllFrom (suc hash) es
higher hash h [] lt a = tt
higher hash h (e ∷ es) lt (a, as') = (omega arith, higher hash h es lt as')

-- A leaf that reaches the hash ends with it, and then what follows is not below the hash, or nothing
-- behind it has the hash.
pub tail_cases :
    (hash h : ℕ) (ents rest : List Dir2LeafEntry)
    → EndsAt h ents
    → hash ≤ h
    → IsIndex (ents ++ rest)
    → ((ends_with ents hash ≡ true) × AllFrom hash rest)
      ⊎ ((ends_with ents hash ≡ false) × (keep (has_hash hash) rest ≡ []))
tail_cases hash h ents rest ends le s =
    let (front, last, e, top) = ends in
    let is : ends_with ents hash ≡ (last.hashval == hash) =
      ap (λ z. ends_with z hash) e ∙ ends_with_last front last hash in
    let from = after_last h ents rest ends s in
    elim (Bool-cases (last.hashval == hash)) [
      | inl t ↦
          inl (is ∙ t, subst (λ z. AllFrom z rest) (sym top ∙ (==_iff last.hashval hash).0 t) from)
      | inr f ↦ inr (is ∙ f, keep_none hash rest (higher hash h rest (ground arith) from))
    ]
