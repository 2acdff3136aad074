-- ===== src/Attr/ShortformLaws.antt =====
-- Attributes in the inode (src/libxfuse/attr_shortform.rs): what is read back, listed and found.
use xfuse.Base.{
  map_ok, Outcome, ℕ, ◌+◌, ◌-◌, ◌*◌, ◌%◌, ◌^◌, ◌≤◌, ◌<◌, ◌≡◌, ◌≢◌, refl, sym, ap, ◌∙◌, inl, inr,
  Bool-cases, List, [], ◌∷◌, ◌++◌, arith, length, take, drop, All, length-append, length-take, ok,
  err, le→leb,
}
use xfuse.Codec.{Bytes, Bincode, IsBigEndian}
use xfuse.Codec as C
use xfuse.Codec.Encode.{
  be_bytes, uint-be_bytes, read-append, bytes_eq, bytes_eq_iff, encode_all, repeat-encode_all,
}
use xfuse.Attr.{
  AttrSfEntry, AttrShortform, get_namespace_from_flags, sum_sizes, add32, list_from, get_from,
}
use xfuse.Attr.ShortformDecode.{get_attr_entry, get_shortform}
use xfuse.Attr.Interface.{Attributes, IsSized}

-- An entry that keeps the sizes of the format and whose name and value together have fewer than 256
-- bytes.
pub record IsEntry (e : AttrSfEntry) : Type 0 where
  pub name_inside : e.namelen ≤ length e.nameval
  pub nameval_fits : length e.nameval < 256
  pub flags_fit : e.flags < 256

abbrev pub name_of : AttrSfEntry → Bytes
name_of e = take e.namelen e.nameval

-- The listing of `listxattr`: each name with its name space in front and a zero byte behind.
abbrev pub listing : List AttrSfEntry → Bytes
listing [] = []
listing (e ∷ es) = get_namespace_from_flags e.flags ++ (name_of e ++ (0 ∷ listing es))

abbrev pub encode_attr : AttrSfEntry → Bytes
encode_attr e =
    be_bytes 1 e.namelen
    ++ (be_bytes 1 (length e.nameval - e.namelen) ++ (be_bytes 1 e.flags ++ e.nameval))

abbrev pub encode_shortform : ℕ → ℕ → List AttrSfEntry → Bytes
encode_shortform totsize padding es =
    be_bytes 2 totsize
    ++ (be_bytes 1 (length es) ++ (be_bytes 1 padding ++ encode_all encode_attr es))

-- `AttrShortform` through the trait.
abbrev pub attributes : ℕ → Attributes AttrShortform
attributes enoattr = record {
  get_total_size = λ sf. ok (sf.total_size, sf);
  list = λ sf. map_ok (λ (names : Bytes). (names, sf)) (list_from sf.list);
  get = λ sf name. map_ok (λ (value : Bytes). (value, sf)) (get_from enoattr sf.list name);
}

namespace_bound : (flags : ℕ) → length (get_namespace_from_flags flags) ≤ 8
namespace_bound flags = ground arith

length-name_of : (e : AttrSfEntry) → IsEntry e → length (name_of e) ≡ e.namelen
length-name_of e h = omega (arith, length-take e.namelen e.nameval, h.name_inside)

length-listing :
    (e : AttrSfEntry) (es : List AttrSfEntry)
    → IsEntry e
    → length (listing (e ∷ es))
      ≡ length (get_namespace_from_flags e.flags) + e.namelen + 1 + length (listing es)
length-listing e es h =
    length-append (get_namespace_from_flags e.flags) (name_of e ++ (0 ∷ listing es))
    ∙ ap (λ n. length (get_namespace_from_flags e.flags) + n)
        (length-append (name_of e) (0 ∷ listing es))
    ∙ omega (arith, length-name_of e h)

add32_small : (a b : ℕ) → a + b < 2 ^ 32 → add32 a b ≡ a + b
add32_small a b h = omega arith

sum_sizes_lem :
    (total : ℕ) (es : List AttrSfEntry)
    → All IsEntry es
    → total + 264 * length es < 2 ^ 32
    → sum_sizes total es ≡ total + length (listing es)
sum_sizes_lem total [] h lt = omega arith
sum_sizes_lem total (e ∷ es) (h, hs) lt =
    let ns = length (get_namespace_from_flags e.flags) in
    let bound = namespace_bound e.flags in
    let short : e.namelen < 256 = omega (arith, h.name_inside, h.nameval_fits) in
    let size : add32 (add32 ns e.namelen) 1 ≡ ns + e.namelen + 1 =
      (rw (add32_small ns e.namelen (omega arith), add32_small (ns + e.namelen) 1 (omega arith))
        refl) in
    rw (size, add32_small total (ns + e.namelen + 1) (omega arith))
      (sum_sizes_lem (total + (ns + e.namelen + 1)) es hs (omega arith)
        ∙ omega (arith, length-listing e es h))

pub list_from_lem : (es : List AttrSfEntry) → All IsEntry es → list_from es ≡ ok (listing es)
unfolding list_from
list_from_lem [] h = refl
list_from_lem (e ∷ es) (h, hs) =
    rw (le→leb e.namelen (length e.nameval) h.name_inside, list_from_lem es hs)

abbrev the_ok : {A : Type 0} → A → Outcome ℕ A
the_ok a = ok a

module _ {bc : Bincode} (law : IsBigEndian bc) where
  get_attr_entry-encode_attr :
      (e : AttrSfEntry) (more : Bytes)
      → IsEntry e
      → get_attr_entry bc (encode_attr e ++ more) ≡ ok (e, more)
  unfolding get_attr_entry
  get_attr_entry-encode_attr e more h = rw (
    uint-be_bytes law 1 e.namelen
        (be_bytes 1 (length e.nameval - e.namelen) ++ (be_bytes 1 e.flags ++ (e.nameval ++ more)))
        (omega (arith, h.name_inside, h.nameval_fits)),
    uint-be_bytes law 1 (length e.nameval - e.namelen) (be_bytes 1 e.flags ++ (e.nameval ++ more))
        (omega (arith, h.nameval_fits)),
    uint-be_bytes law 1 e.flags (e.nameval ++ more) h.flags_fit,
    total,
    read-append law e.nameval more,
    C.◌>>=◌,
  )
    where
      total : (e.namelen + (length e.nameval - e.namelen)) % 256 ≡ length e.nameval
      total = omega (arith, h.name_inside, h.nameval_fits)

  All-entries :
      (es : List AttrSfEntry)
      → All IsEntry es
      → All (λ e. (more : Bytes) → get_attr_entry bc (encode_attr e ++ more) ≡ ok (e, more)) es
  All-entries [] h = tt
  All-entries (e ∷ es) (h, hs) = (λ more. get_attr_entry-encode_attr e more h, All-entries es hs)

  -- A short form attribute fork in the on-disk format, of less than 256 entries whose names and
  -- values together have less than 256 bytes each, is read back whole, its total size is the length
  -- of its listing, and the listing is what `list` returns.
  pub get_shortform-encode_shortform :
      (enoattr totsize padding : ℕ) (es : List AttrSfEntry) (more : Bytes)
      → totsize < 65536
      → padding < 256
      → length es < 256
      → All IsEntry es
      → (sf : AttrShortform) × (get_shortform bc (encode_shortform totsize padding es ++ more)
          ≡ ok (sf, more))
        × (sf.list ≡ es)
        × IsSized (attributes enoattr) sf (listing es)
  unfolding get_shortform
  get_shortform-encode_shortform enoattr totsize padding es more ht hp hn hes =
      let entries = encode_all encode_attr es in
      (
        record { list = es; total_size = sum_sizes 0 es },
        rw (
          uint-be_bytes law 2 totsize
              (be_bytes 1 (length es) ++ (be_bytes 1 padding ++ (entries ++ more))) ht,
          uint-be_bytes law 1 (length es) (be_bytes 1 padding ++ (entries ++ more)) hn,
          uint-be_bytes law 1 padding (entries ++ more) hp,
          repeat-encode_all (get_attr_entry bc) encode_attr es more (All-entries es hes),
          C.◌>>=◌,
        ),
        refl,
        record {
          between = record { list = es; total_size = sum_sizes 0 es };
          after = record { list = es; total_size = sum_sizes 0 es };
          sizes =
              ap (λ (n : ℕ). the_ok (n, record { list = es; total_size = sum_sizes 0 es }))
                (omega (arith, sum_sizes_lem 0 es hes (omega arith)));
          lists = rw (list_from_lem es hes) refl;
        },
      )

-- Of entries whose sizes are right, the first one of a name is the one that is found, whatever its
-- name space.
pub get_from_first :
    (enoattr : ℕ) (front : List AttrSfEntry) (e : AttrSfEntry) (back : List AttrSfEntry)
    → All IsEntry front
    → All (λ f. name_of f ≢ name_of e) front
    → IsEntry e
    → get_from enoattr (front ++ (e ∷ back)) (name_of e) ≡ ok (drop e.namelen e.nameval)
unfolding get_from
get_from_first enoattr [] e back hs ne h = rw (
  le→leb e.namelen (length e.nameval) h.name_inside,
  (bytes_eq_iff (name_of e) (name_of e)).1 refl,
)
get_from_first enoattr (f ∷ front) e back (hf, hs) (n, ne) h =
    elim (Bool-cases (bytes_eq (name_of e) (name_of f))) [
      | inl t ↦ absurd (n (sym ((bytes_eq_iff (name_of e) (name_of f)).0 t)))
      | inr b ↦
          rw (le→leb f.namelen (length f.nameval) hf.name_inside, b)
            (get_from_first enoattr front e back hs ne h)
    ]

-- Among entries whose sizes are right, a name that no entry has is ENOATTR.
pub get_from_absent :
    (enoattr : ℕ) (es : List AttrSfEntry) (name : Bytes)
    → All IsEntry es
    → All (λ f. name_of f ≢ name) es
    → get_from enoattr es name ≡ err enoattr
unfolding get_from
get_from_absent enoattr [] name hs ne = refl
get_from_absent enoattr (f ∷ es) name (hf, hs) (n, ne) =
    elim (Bool-cases (bytes_eq name (name_of f))) [
      | inl t ↦ absurd (n (sym ((bytes_eq_iff name (name_of f)).0 t)))
      | inr b ↦
          rw (le→leb f.namelen (length f.nameval) hf.name_inside, b)
            (get_from_absent enoattr es name hs ne)
    ]
