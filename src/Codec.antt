-- ===== src/Codec.antt =====
-- Decoding as src/libxfuse/utils.rs sets it up: `decode` and `decode_from` run bincode big-endian with
-- fixed-width integers. bincode and byteorder are parameters; what is relied on is `IsBigEndian`.
pub mod Encode
pub mod Rows
use xfuse.Base.{
  ℕ, zero, suc, ◌+◌, ◌-◌, ◌*◌, ◌≤◌, ◌<◌, ◌≡◌, refl, List, [], ◌∷◌, arith, length, take, drop,
  drop-drop, length-drop, leb, if◌then◌else◌, Outcome, ok, err, panic, Bool, true, false, ap, ◌∙◌,
  map_ok, unwrap, le→leb, lt→leb, sym,
}
use mathlib.Core.List.{foldl}

abbrev pub Bytes : Type 0
Bytes = List ℕ

-- The cases of bincode's error that the source tells apart or makes itself.
pub data DecodeError : Type 0 where
  unexpected_end bad_magic : DecodeError

-- A decoder returns a value and the input that is left.
abbrev pub Get : Type 0 → Type 0
Get A = Bytes → Outcome DecodeError (A × Bytes)

infixl 5 ◌>>=◌ ◌>>◌
abbrev pub ◌>>=◌ : {A B : Type 0} → Get A → (A → Get B) → Get B
◌>>=◌ m f bs = elim (m bs) [ ok (a, rest) ↦ f a rest | err e ↦ err e | panic ↦ panic ]

abbrev pub ◌>>◌ : {B : Type 0} → Get (Unit {0}) → Get B → Get B
m >> k = m >>= λ _. k

abbrev pub pure : {A : Type 0} → A → Get A
pure a bs = ok (a, bs)

abbrev pub fail : {A : Type 0} → DecodeError → Get A
fail e bs = err e

abbrev pub crash : {A : Type 0} → Get A
crash bs = panic

abbrev pub assert : Bool → Get (Unit {0})
assert b = if b then pure tt else crash

-- The operations of bincode's `Decode` and `Reader`: an unsigned integer of so many bytes, raw bytes,
-- and skipping.
pub record Bincode : Type 0 where
  pub uint : ℕ → Get ℕ
  pub read : ℕ → Get Bytes
  pub consume : ℕ → Get (Unit {0})

-- The big-endian value of some bytes.
abbrev pub be : Bytes → ℕ
be bs = foldl (λ acc b. acc * 256 + b) 0 bs

-- The integer of `n` bytes at an offset.
abbrev pub be_at : Bytes → ℕ → ℕ → ℕ
be_at bs off n = be (take n (drop off bs))

-- bincode's documented behaviour in this configuration.
pub record IsBigEndian (bc : Bincode) : Type 0 where
  pub uint_ok : (n : ℕ) (bs : Bytes) → n ≤ length bs → bc.uint n bs ≡ ok (be (take n bs), drop n bs)
  pub uint_end : (n : ℕ) (bs : Bytes) → length bs < n → bc.uint n bs ≡ err unexpected_end
  pub read_ok : (n : ℕ) (bs : Bytes) → n ≤ length bs → bc.read n bs ≡ ok (take n bs, drop n bs)
  pub read_end : (n : ℕ) (bs : Bytes) → length bs < n → bc.read n bs ≡ err unexpected_end
  pub consume_ok : (n : ℕ) (bs : Bytes) → n ≤ length bs → bc.consume n bs ≡ ok (tt, drop n bs)

-- `n` values in a row: the loop `for _ in 0..n { v.push(Decode::decode(decoder)?) }`.
unfoldable pub repeat : {A : Type 0} → ℕ → Get A → Get (List A)
repeat zero g = pure []
repeat (suc n) g = g >>= λ a. repeat n g >>= λ rest. pure (a ∷ rest)

-- `&v[0..n]` and `&v[n..]`, which panic when `n` is past the end.
abbrev pub slice_to : Bytes → ℕ → Outcome ℕ Bytes
slice_to v n = if leb n (length v) then ok (take n v) else panic

abbrev pub slice_from : Bytes → ℕ → Outcome ℕ Bytes
slice_from v n = if leb n (length v) then ok (drop n v) else panic

-- `decode(v).unwrap().0`: the value, without the bytes that are left.
abbrev pub decode : {A : Type 0} → Get A → Bytes → Outcome ℕ A
decode {A} g v = map_ok (λ (r : A × Bytes). r.0) (unwrap (g v))

module _ {bc : Bincode} (law : IsBigEndian bc) where
  -- The integer at offset `k`, read after `k` bytes.
  pub uint_at :
      (bs : Bytes) (k n : ℕ)
      → k + n ≤ length bs
      → bc.uint n (drop k bs) ≡ ok (be_at bs k n, drop (k + n) bs)
  uint_at bs k n h =
      law.uint_ok n (drop k bs) (omega (arith, length-drop k bs))
      ∙ ap (λ r. ok (be_at bs k n, r)) (drop-drop n k bs)

  pub read_at :
      (bs : Bytes) (k n : ℕ)
      → k + n ≤ length bs
      → bc.read n (drop k bs) ≡ ok (take n (drop k bs), drop (k + n) bs)
  read_at bs k n h =
      law.read_ok n (drop k bs) (omega (arith, length-drop k bs))
      ∙ ap (λ r. ok (take n (drop k bs), r)) (drop-drop n k bs)

  pub consume_at :
      (bs : Bytes) (k n : ℕ)
      → k + n ≤ length bs
      → bc.consume n (drop k bs) ≡ ok (tt, drop (k + n) bs)
  consume_at bs k n h =
      law.consume_ok n (drop k bs) (omega (arith, length-drop k bs))
      ∙ ap (λ r. ok (tt, r)) (drop-drop n k bs)

-- A decoder's success takes exactly `n` bytes.
abbrev pub Consumes : {A : Type 0} → ℕ → Get A → Type 0
Consumes {A} n g =
    (bs : Bytes) (a : A) (rest : Bytes) → g bs ≡ ok (a, rest) → (n ≤ length bs) × (rest ≡ drop n bs)

-- The concrete reader that the witnesses use.
abbrev pub slice_reader : Bincode
slice_reader = record {
  uint = λ n bs. if leb n (length bs) then ok (be (take n bs), drop n bs) else err unexpected_end;
  read = λ n bs. if leb n (length bs) then ok (take n bs, drop n bs) else err unexpected_end;
  consume = λ n bs. ok (tt, drop n bs);
}

pub slice_reader-IsBigEndian : IsBigEndian slice_reader
slice_reader-IsBigEndian = record {
  uint_ok = λ n bs h. rw (le→leb _ _ h);
  uint_end = λ n bs h. rw (lt→leb _ _ h);
  read_ok = λ n bs h. rw (le→leb _ _ h);
  read_end = λ n bs h. rw (lt→leb _ _ h);
  consume_ok = λ n bs h. refl;
}
