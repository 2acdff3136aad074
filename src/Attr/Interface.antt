-- ===== src/Attr/Interface.antt =====
-- The trait `Attr` of src/libxfuse/attr.rs as its client sees it, and the client: the replies of
-- `listxattr` and `getxattr` in src/libxfuse/volume.rs.
use xfuse.Base.{
  zero, suc, refl, true, Bool-cases, inl, inr, ℕ, ◌^◌, ◌≡◌, Option, none, some, [], ◌∷◌, ltb, leb,
  ◌==◌, if◌then◌else◌, length, Outcome, ok, err, panic, ◌>>=◌, ◌>>◌, assert, arith, false, ==_iff,
}
use xfuse.Codec.{Bytes}

-- The trait over the state `S` of an open attribute fork: each call returns the state behind it.
pub record Attributes (S : Type 0) : Type 0 where
  pub get_total_size : S → Outcome ℕ (ℕ × S)
  pub list : S → Outcome ℕ (Bytes × S)
  pub get : S → Bytes → Outcome ℕ (Bytes × S)

-- In the state `s` the size and, behind it, the listing are those of `names`.
pub record IsSized {S : Type 0} (ops : Attributes S) (s : S) (names : Bytes) : Type 0 where
  pub between : S
  pub after : S
  pub sizes : ops.get_total_size s ≡ ok (length names, between)
  pub lists : ops.list between ≡ ok (names, after)

-- The calls of fuser's `ReplyXattr`.
pub data Reply : Type 0 where
  size error : ℕ → Reply
  data_of : Bytes → Reply

abbrev pub erange : ℕ
erange = 34

-- The reply, and the fork behind it; without a fork the size is 0.
unfoldable pub listxattr : {S : Type 0} → Attributes S → Option S → ℕ → Outcome ℕ (Reply × Option S)
listxattr ops none given = ok (size 0, none)
listxattr ops (some s) given = do
  (attrs_size, s1) ← ops.get_total_size s
  let listed = (do
    (list, s2) ← ops.list s1
    assert (length list == attrs_size)
    ok (data_of list, some s2))
  if given == 0
      then ok (size attrs_size, some s1)
      else if ltb given attrs_size
      then ok (error erange, some s1)
      else listed

-- `splitn(2, |c| *c == b'.')`, from its second part on: `None` when there is no dot.
unfoldable pub after_dot : Bytes → Option Bytes
after_dot [] = none
after_dot (c ∷ cs) = let rest = after_dot cs in if c == b'.' then some cs else rest

-- The match on the value; an error leaves the fork as it was.
unfoldable pub reply_value :
    {S : Type 0} → S → Outcome ℕ (Bytes × S) → ℕ → Outcome ℕ (Reply × Option S)
reply_value s (err e) given = ok (error e, some s)
reply_value s panic given = panic
reply_value s (ok (value, s1)) given =
    let len = length value in
    if leb (2 ^ 32) len
    then panic
    else if given == 0
    then ok (size len, some s1)
    else if ltb given len
    then ok (error erange, some s1)
    else ok (data_of value, some s1)

-- `getxattr`: the name space before the dot is not looked at.
unfoldable pub getxattr :
    {S : Type 0} → ℕ → Attributes S → Option S → Bytes → ℕ → Outcome ℕ (Reply × Option S)
unfolding after_dot reply_value
getxattr enoattr ops attrs name given = elim (after_dot name) [
  | none ↦ panic
  | some rest ↦ elim attrs [
    | none ↦ ok (error enoattr, none)
    | some s ↦ reply_value s (ops.get s rest) given
  ]
]

-- What is to be replied when a fork has the names: their size when it is asked for, and otherwise the
-- names when they fit.
abbrev pub reply_for : Bytes → ℕ → Reply
reply_for names zero = size (length names)
reply_for names (suc room) = if ltb (suc room) (length names) then error erange else data_of names

-- The state that a reply leaves.
abbrev pub left_by : {S : Type 0} → (sized listed : S) → Bytes → ℕ → S
left_by s1 s2 names zero = s1
left_by s1 s2 names (suc room) = if ltb (suc room) (length names) then s1 else s2

pub listxattr_lem :
    {S : Type 0} (ops : Attributes S) (s s1 s2 : S) (names : Bytes) (given : ℕ)
    → ops.get_total_size s ≡ ok (length names, s1)
    → ops.list s1 ≡ ok (names, s2)
    → listxattr ops (some s) given ≡ ok (reply_for names given, some (left_by s1 s2 names given))
unfolding listxattr
listxattr_lem ops s s1 s2 names zero sizes lists = rw (sizes, listxattr) refl
listxattr_lem ops s s1 s2 names (suc room) sizes lists =
    let more : (suc room == 0) ≡ false = ground arith in
    let same : (length names == length names) ≡ true = (==_iff _ _).1 refl in
    elim (Bool-cases (ltb (suc room) (length names))) [
      | inl t ↦ rw (sizes, more, t, listxattr) refl
      | inr f ↦ rw (sizes, more, f, lists, same, listxattr) refl
    ]
