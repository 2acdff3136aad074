-- ===== src/File/Read.antt =====
-- `read` of src/libxfuse/file.rs returns the bytes that are asked for.
use xfuse.Base.{
  sub64, sub64_small, lt→ltb, ℕ, zero, suc, ◌+◌, ◌-◌, ◌*◌, ◌/◌, ◌%◌, ◌^◌, ◌≤◌, ◌<◌, ◌≡◌, refl, sym,
  ap, ◌∙◌, subst, inl, inr, Bool-cases, List, [], ◌∷◌, ◌++◌, Option, none, some, arith, length,
  length-append, length-take, length-drop, length-replicate, take, drop, drop-drop, take-nil, ltb,
  leb, ltb→lt, ltb→le, leb→le, leb→lt, pos_pow, mul_le, Outcome, ok, if◌then◌else◌,
}
use xfuse.Codec.{Bytes}
use xfuse.Codec.Encode.{drop-append}
use xfuse.Sb.{Sb, fsb_to_offset}
use xfuse.BlockReader.{BlockReader, resize}
use xfuse.BlockReader.Seeks.{IsReader}
use xfuse.BlockReader.Buffer.{length-resize}
use xfuse.File.{read}
use xfuse.File.Contents.{contents, contents_split, block_bytes}
use xfuse.File.Sectors.{IsFile, Covers, read_sectors_lem}
use mathlib.Core.List.{append-nil}
use native.Mathlib.Nat.{div-add-mod', mod-lt}

module _ {A : Type 0} where
  drop-take : (o n : ℕ) (xs : List A) → drop o (take (n + o) xs) ≡ take n (drop o xs)
  drop-take zero n xs = ap (λ k. take k xs) (omega arith)
  drop-take (suc o) n [] = let e : n + suc o ≡ suc (n + o) = omega arith in rw e (sym (take-nil n))
  drop-take (suc o) n (x ∷ xs) =
      let e : n + suc o ≡ suc (n + o) = omega arith in rw e (drop-take o n xs)

  take-front : (n : ℕ) (xs ys : List A) → n ≤ length xs → take n (xs ++ ys) ≡ take n xs
  take-front zero xs ys h = refl
  take-front (suc n) [] ys h = absurd (omega arith)
  take-front (suc n) (x ∷ xs) ys h = ap (λ l. x ∷ l) (take-front n xs ys (omega arith))

  drop-front : (o : ℕ) (xs ys : List A) → o ≤ length xs → drop o (xs ++ ys) ≡ drop o xs ++ ys
  drop-front zero xs ys h = refl
  drop-front (suc o) [] ys h = absurd (omega arith)
  drop-front (suc o) (x ∷ xs) ys h = drop-front o xs ys (omega arith)

  -- A part of a list that lies in the middle of three.
  slice_middle :
      (before xs after : List A) (o n : ℕ)
      → o + n ≤ length xs
      → take n (drop (length before + o) (before ++ (xs ++ after))) ≡ take n (drop o xs)
  slice_middle before xs after o n h =
      ap (take n) (
        sym (drop-drop o (length before) (before ++ (xs ++ after)))
        ∙ ap (drop o) (drop-append before (xs ++ after))
        ∙ drop-front o xs after (omega arith))
      ∙ take-front n (drop o xs) after (omega (arith, length-drop o xs))

le_cancel : (a b p : ℕ) → 0 < p → a * p ≤ b * p → a ≤ b
le_cancel a b p pos h = elim (Bool-cases (leb a b)) [
  | inl t ↦ leb→le a b t
  | inr f ↦
      let le = mul_le (suc b) a p (leb→lt a b f) in
      let step : suc b * p ≡ b * p + p = grind arith in absurd (omega arith)
]

lt_cancel : (a b p : ℕ) → a * p < b * p → a < b
lt_cancel a b p h = elim (Bool-cases (ltb a b)) [
  | inl t ↦ ltb→lt a b t
  | inr f ↦ let le = mul_le b a p (ltb→le a b f) in absurd (omega arith)
]

-- `L` bytes rounded up to whole blocks of `p`.
rounded :
    (L p d limit : ℕ)
    → 0 < p
    → d * p + L ≤ limit * p
    → (k : ℕ) × ((if ltb 0 (L % p) then L + p - L % p else L) ≡ k * p)
      × (d + k ≤ limit)
      × (L ≤ k * p)
rounded L p d limit pos fits = elim (Bool-cases (ltb 0 (L % p))) [
  | inl t ↦
      let r = ltb→lt 0 (L % p) t in
      let lt = lt_cancel (d + L / p) limit p (omega (arith, sum, whole)) in
      (
        suc (L / p),
        rw t (omega (arith, next, whole, small)),
        omega arith,
        omega (arith, next, whole, small),
      )
  | inr f ↦
      let r = ltb→le 0 (L % p) f in
      let le = le_cancel (d + L / p) limit p pos (omega (arith, sum, whole)) in
      (L / p, rw f (omega (arith, whole)), le, omega (arith, whole))
]
  where
    whole : L / p * p + L % p ≡ L
    whole = div-add-mod' L p

    small : L % p < p
    small = mod-lt L pos

    next : suc (L / p) * p ≡ L / p * p + p
    next = grind arith

    sum : (d + L / p) * p ≡ d * p + L / p * p
    sum = grind arith

abbrev pub wanted : ℕ → ℕ → ℕ → ℕ
wanted fsize offset size = if leb size (fsize - offset) then size else fsize - offset

wanted_le : (fsize offset size : ℕ) → wanted fsize offset size ≤ fsize - offset
wanted_le fsize offset size = elim (Bool-cases (leb size (fsize - offset))) [
  | inl t ↦ rw t (leb→le size (fsize - offset) t)
  | inr f ↦ rw f (omega arith)
]

module _ (sb : Sb) (extent : ℕ → Outcome ℕ (Option ℕ × ℕ)) (dev : Bytes) (m : ℕ → Option ℕ)
    (limit : ℕ) (file : IsFile sb extent dev m limit) where
  abbrev bs : ℕ
  bs = 2 ^ sb.sb_blocklog

  -- `k` blocks of the file from block `d` on.
  abbrev pub held : ℕ → ℕ → Bytes
  held d k = contents (fsb_to_offset sb) dev bs m d k

  length-block : (d : ℕ) → d < limit → length (block_bytes (fsb_to_offset sb) dev bs m (m d)) ≡ bs
  length-block d lt =
      let (a, e, covers) = file.answers d lt in
      subst (λ z. length (block_bytes (fsb_to_offset sb) dev bs m (m z)) ≡ bs) (omega arith)
        (of_answer a covers)
    where
      of_answer :
          (a : Option ℕ × ℕ)
          → Covers sb extent dev m d a
          → length (block_bytes (fsb_to_offset sb) dev bs m (m (d + 0))) ≡ bs
      of_answer (none, n) (pos, fits, hole) = rw (hole 0 pos) (length-replicate bs 0)
      of_answer (some b, n) (pos, fits, row, inside) =
          let (f, e, at) = row 0 pos in
          let one = mul_le 1 n bs pos in
          rw e (
            omega (
              arith,
              at,
              length-take bs (drop (fsb_to_offset sb f) dev),
              length-drop (fsb_to_offset sb f) dev,
            ))

  length-held : (k d : ℕ) → d + k ≤ limit → length (held d k) ≡ k * bs
  length-held zero d h = omega arith
  length-held (suc k) d h =
      let step : suc k * bs ≡ k * bs + bs = grind arith in
      length-append (block_bytes (fsb_to_offset sb) dev bs m (m d)) (held (suc d) k)
      ∙ omega (arith, length-block d (omega arith), length-held k (suc d) (omega arith))

  -- The file's bytes from block `d` on, within all of them.
  held_slice :
      (d k o n : ℕ)
      → d + k ≤ limit
      → o + n ≤ k * bs
      → take n (drop (d * bs + o) (held 0 limit)) ≡ take n (drop o (held d k))
  held_slice d k o n h fits =
      let size = length-held d 0 (omega arith) in
      let parts : held 0 limit ≡ held 0 d ++ (held d k ++ held (d + k) (limit - (d + k))) =
        ap (held 0) (omega arith)
        ∙ contents_split (fsb_to_offset sb) dev bs m 0 d (k + (limit - (d + k)))
        ∙ ap (λ z. held 0 d ++ held z (k + (limit - (d + k)))) (omega arith)
        ∙ ap (λ z. held 0 d ++ z)
            (contents_split (fsb_to_offset sb) dev bs m d k (limit - (d + k))) in
      ap (λ z. take n (drop (d * bs + o) z)) parts
      ∙ ap (λ z. take n (drop (z + o) (held 0 d ++ (held d k ++ held (d + k) (limit - (d + k))))))
          (sym size)
      ∙ slice_middle (held 0 d) (held d k) (held (d + k) (limit - (d + k))) o n
          (omega (arith, length-held k d h))

  resize_slice :
      (v : Bytes) (n o : ℕ) → n + o ≤ length v → drop o (resize v (n + o)) ≡ take n (drop o v)
  resize_slice v n o h =
      let e : n + o - length v ≡ 0 = omega arith in
      rw e (ap (drop o) (append-nil (take (n + o) v)) ∙ drop-take o n v)

  module _ (blocks size : ℕ) where
    read_blocks :
        (fsize offset asked k : ℕ) (r : BlockReader)
        → IsReader dev blocks size r
        → offset ≤ fsize
        → fsize < 2 ^ 63
        → let n = wanted fsize offset asked in
          let o = offset % bs in
          (if ltb 0 ((n + o) % bs) then n + o + sb.sb_blocksize - (n + o) % bs else n + o) ≡ k * bs
          → offset / bs + k ≤ limit
          → (r' : BlockReader) × (read sb extent fsize r offset asked
              ≡ ok (
                (
                  resize (held (offset / bs) k) (wanted fsize offset asked + offset % bs),
                  offset % bs,
                ),
                r',
              ))
            × IsReader dev blocks size r'
    unfolding read
    read_blocks fsize offset asked k r reader le high e inside =
        let (r', got, reader') =
          read_sectors_lem sb extent dev m blocks size limit k (offset / bs) r file reader inside in
        let at : offset - offset % bs ≡ offset / bs * bs = omega (arith, div-add-mod' offset bs) in
        let left : sub64 fsize offset ≡ fsize - offset =
          sub64_small fsize offset le (omega arith) in
        (
          r',
          rw (
            left,
            lt→ltb (fsize - offset) (2 ^ 63) (omega arith),
            e,
            lt→ltb (offset - offset % bs) (2 ^ 63) (omega arith),
            at,
            got,
          ),
          reader',
        )

    -- A read from an offset in the file returns the file's bytes from there on, as many as asked for or as
    -- are left in the file, behind as many bytes as it says are to be ignored, which are there. This holds when
    -- `get_extent` answers right for the blocks of the file, the size is below 2^63, the block size is the power of two that the
    -- superblock says, and the device is a whole number of buffers.
    pub read_file :
        (fsize offset asked : ℕ) (r : BlockReader)
        → IsReader dev blocks size r
        → sb.sb_blocksize ≡ 2 ^ sb.sb_blocklog
        → offset ≤ fsize
        → fsize < 2 ^ 63
        → fsize ≤ limit * 2 ^ sb.sb_blocklog
        → (v : Bytes) × (ignore : ℕ) × (r' : BlockReader) × (read sb extent fsize r offset asked
            ≡ ok ((v, ignore), r'))
          × (drop ignore v ≡ take (wanted fsize offset asked) (drop offset (held 0 limit)))
          × (ignore ≤ length v)
          × IsReader dev blocks size r'
    read_file fsize offset asked r reader bsz le high fits =
        let n = wanted fsize offset asked in
        let o = offset % bs in
        let whole = div-add-mod' offset bs in
        let n_le = wanted_le fsize offset asked in
        let (k, e, inside, enough) =
          rounded (n + o) bs (offset / bs) limit (pos_pow sb.sb_blocklog) (omega arith) in
        let (r', got, reader') =
          read_blocks fsize offset asked k r reader le high
            (subst
              (λ z. (if ltb 0 ((n + o) % bs) then n + o + z - (n + o) % bs else n + o) ≡ k * bs)
              (sym bsz) e)
            inside in
        let size_k = length-held k (offset / bs) inside in
        (
          resize (held (offset / bs) k) (n + o),
          o,
          r',
          got,
          resize_slice (held (offset / bs) k) n o (omega arith)
              ∙ sym (held_slice (offset / bs) k o n inside (omega arith))
              ∙ ap (λ z. take n (drop z (held 0 limit))) whole,
          omega (arith, length-resize (held (offset / bs) k) (n + o)),
          reader',
        )
