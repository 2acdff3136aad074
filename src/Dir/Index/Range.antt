-- ===== src/Dir/Index/Range.antt =====
-- The range of a hash in the index holds exactly the entries that have it.
use xfuse.Base.{
  ℕ, ◌+◌, ◌-◌, ◌≤◌, ◌<◌, ◌≡◌, refl, sym, ap, List, [], ◌∷◌, ltb, ltb→lt, ltb→le, ◌==◌, arith, take,
  drop, length, length-drop, keep, All, partition_point, Bool, true, false, Bool-cases, inl, inr,
}
use xfuse.Dir.{Dir2LeafEntry}
use xfuse.Dir.Index.{find_index, get_address_range, byte_address, get_addresses}
use mathlib.Core.List.{map}

-- The hashes do not fall.
abbrev pub IsIndex : List Dir2LeafEntry → Type 0
IsIndex [] = Unit
IsIndex (e ∷ es) = All (λ (f : Dir2LeafEntry). e.hashval ≤ f.hashval) es × IsIndex es

abbrev pub has_hash : ℕ → Dir2LeafEntry → Bool
has_hash hash ent = ent.hashval == hash

module _ (hash : ℕ) where
  abbrev above : Dir2LeafEntry → Bool
  above ent = ltb hash ent.hashval

  abbrev below : Dir2LeafEntry → Bool
  below ent = ltb ent.hashval hash

  pub keep_none :
      (es : List Dir2LeafEntry)
      → All (λ (e : Dir2LeafEntry). hash < e.hashval) es
      → keep (has_hash hash) es ≡ []
  keep_none [] a = refl
  keep_none (e ∷ es) (a, as') =
      let f : has_hash hash e ≡ false = ground arith in rw f (keep_none es as')

  higher :
      (h : ℕ) (es : List Dir2LeafEntry)
      → hash < h
      → All (λ (e : Dir2LeafEntry). h ≤ e.hashval) es
      → All (λ (e : Dir2LeafEntry). hash < e.hashval) es
  higher h [] lt a = tt
  higher h (e ∷ es) lt (a, as') = (omega arith, higher h es lt as')

  -- From an entry on that is not below the hash.
  run :
      (es : List Dir2LeafEntry)
      → IsIndex es
      → All (λ (e : Dir2LeafEntry). hash ≤ e.hashval) es
      → take (find_index above es) es ≡ keep (has_hash hash) es
  run [] s a = refl
  run (e ∷ es) (s, ss) (a, as') = elim (Bool-cases (above e)) [
    | inl t ↦
        let lt = ltb→lt hash e.hashval t in
        let f : has_hash hash e ≡ false = ground arith in
        rw (t, f) (sym (keep_none es (higher e.hashval es lt s)))
    | inr f ↦
        let same : has_hash hash e ≡ true = ground (arith, ltb→le hash e.hashval f) in
        rw (f, same) (ap (λ l. e ∷ l) (run es ss as'))
  ]

  not_below :
      (h : ℕ) (es : List Dir2LeafEntry)
      → hash ≤ h
      → All (λ (e : Dir2LeafEntry). h ≤ e.hashval) es
      → All (λ (e : Dir2LeafEntry). hash ≤ e.hashval) es
  not_below h [] le a = tt
  not_below h (e ∷ es) le (a, as') = (omega arith, not_below h es le as')

  slice :
      (es : List Dir2LeafEntry)
      → IsIndex es
      → let i = partition_point below es in
        take (find_index above (drop i es)) (drop i es) ≡ keep (has_hash hash) es
  slice [] s = refl
  slice (e ∷ es) (s, ss) = elim (Bool-cases (below e)) [
    | inl t ↦
        let lt = ltb→lt e.hashval hash t in
        let f : has_hash hash e ≡ false = ground arith in rw (t, f) (slice es ss)
    | inr f ↦
        let le = ltb→le e.hashval hash f in
        rw f (run (e ∷ es) (s, ss) (le, not_below e.hashval es le s))
  ]

partition_point_le :
    (es : List Dir2LeafEntry) (hash : ℕ) → partition_point (below hash) es ≤ length es
partition_point_le [] hash = omega arith
partition_point_le (e ∷ es) hash = elim (Bool-cases (below hash e)) [
  | inl t ↦ rw t (omega (arith, partition_point_le es hash))
  | inr f ↦ rw f (omega arith)
]

find_index_le : (es : List Dir2LeafEntry) (hash : ℕ) → find_index (above hash) es ≤ length es
find_index_le [] hash = omega arith
find_index_le (e ∷ es) hash = elim (Bool-cases (above hash e)) [
  | inl t ↦ rw t (omega arith)
  | inr f ↦ rw f (omega (arith, find_index_le es hash))
]

-- The range of a hash covers the entries that have it, and lies in the index.
pub get_address_range-keep :
    (ents : List Dir2LeafEntry) (hash : ℕ)
    → IsIndex ents
    → let (i, j) = get_address_range ents hash in
      (take (j - i) (drop i ents) ≡ keep (has_hash hash) ents) × (j ≤ length ents)
unfolding get_address_range
get_address_range-keep ents hash s =
    let i = partition_point (below hash) ents in
    let e : i + find_index (above hash) (drop i ents) - i ≡ find_index (above hash) (drop i ents) =
      omega arith in
    (
      rw e (slice hash ents s),
      omega (
        arith,
        find_index_le (drop i ents) hash,
        length-drop i ents,
        partition_point_le ents hash,
      ),
    )

-- On an index that is sorted by hash, `get_addresses` returns the byte addresses of exactly the
-- entries with the hash, in their order.
pub get_addresses-keep :
    (ents : List Dir2LeafEntry) (hash : ℕ)
    → IsIndex ents
    → get_addresses ents hash ≡ map byte_address (keep (has_hash hash) ents)
unfolding get_addresses
get_addresses-keep ents hash s = ap (map byte_address) (get_address_range-keep ents hash s).0
