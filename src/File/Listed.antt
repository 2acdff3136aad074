-- ===== src/File/Listed.antt =====
-- A file whose blocks an extent list maps, from its records down to the bytes of the device:
-- src/libxfuse/file_extent_list.rs with src/libxfuse/bmbt_rec.rs and src/libxfuse/sb.rs.
use xfuse.Base.{
  ℕ, zero, suc, ◌+◌, ◌-◌, ◌*◌, ◌/◌, ◌%◌, ◌^◌, ◌≤◌, ◌<◌, ◌≡◌, ◌≢◌, refl, sym, ap, ◌∙◌, arith, Option,
  none, some, u64_mod, sub64_small, Option-cases, pos_pow, ok, subst, quotients, Bool-cases, ltb,
  ltb→lt, ltb→le, mul_le, inl, inr, drop, take, length,
}
use native.Mathlib.Nat.{pow-le-pow_right, div-add-mod, div-add-mod', mul_comm}
use xfuse.Codec.{Bytes}
use xfuse.Sb.{Sb, fsb_to_offset}
use xfuse.Sb.Address.{IsGeometry, IsBlock, linear, linear-lt, next_le, le_times, fsb_to_offset_lem}
use xfuse.Bmbt.{Bmx, get_extent}
use xfuse.Bmbt.Extents.{mapped, IsBmx}
use xfuse.Bmbt.Lookup.{Describes, get_extent-Describes}
use xfuse.BlockReader.{BlockReader}
use xfuse.BlockReader.Seeks.{IsReader}
use xfuse.File.{list_extent, read}
use xfuse.File.Sectors.{IsFile, Covers}
use xfuse.File.Read.{read_file, wanted}
use xfuse.File.Contents.{contents}

-- The blocks of a file of `size` bytes.
abbrev pub block_count : Sb → ℕ → ℕ
block_count sb size = (size + sb.sb_blocksize - 1) / sb.sb_blocksize

-- A file whose extents lie on the device, and whose offsets are machine words.
pub record IsLaidOut (sb : Sb) (dev : Bytes) (size : ℕ) (bmx : Bmx) : Type 0 where
  pub geometry : IsGeometry sb
  pub block_bytes : sb.sb_blocksize ≡ 2 ^ sb.sb_blocklog
  pub device_whole : sb.sb_agcount * sb.sb_agblocks * 2 ^ sb.sb_blocklog ≤ length dev
  pub list : IsBmx bmx
  pub on_device : (d f : ℕ) → mapped bmx d ≡ some f → IsBlock sb f
  pub offsets_fit : (d f : ℕ) → mapped bmx d ≡ some f → suc d * 2 ^ sb.sb_blocklog < u64_mod
  pub size_fits : size < 2 ^ 63

-- The place of the next number in rows of `s` that are numbered by `p` or more.
next_row :
    (p q r q' r' s : ℕ)
    → p * q' + r' ≡ suc (p * q + r)
    → q < q'
    → r < s
    → s ≤ p
    → q' * s + r' ≡ suc (q * s + r)
next_row p q r zero r' s e lt lo sp = absurd (omega arith)
next_row p q r (suc q') r' s e lt lo sp = elim (Bool-cases (ltb q q')) [
  | inl t ↦
      let le = mul_le (suc q) q' p (ltb→lt q q' t) in
      absurd (omega (arith, le, step q, step q', mul_comm p q, mul_comm p q', e))
  | inr f ↦
      let same : q' ≡ q = let le = ltb→le q q' f in omega arith in
      rw same (
        omega (
          arith,
          ap (λ z. p * suc z + r') (sym same) ∙ e,
          grow p q,
          grow s q,
          mul_comm s q,
          mul_comm s (suc q),
        ))
]
  where
    step : (k : ℕ) → suc k * p ≡ k * p + p
    step k = grind arith

    grow : (n k : ℕ) → n * suc k ≡ n * k + n
    grow n k = grind arith

module _ (sb : Sb) (dev : Bytes) (size : ℕ) (bmx : Bmx) (file : IsLaidOut sb dev size bmx) where
  -- Of two numbers in a row that name blocks, the blocks lie in a row.
  linear_next : (f : ℕ) → IsBlock sb f → IsBlock sb (suc f) → linear sb (suc f) ≡ suc (linear sb f)
  linear_next f b b' =
      let p = 2 ^ sb.sb_agblklog in
      elim (quotients p f (suc f) (pos_pow sb.sb_agblklog) (omega arith)) [
        | inl over ↦
            next_row p (f / p) (f % p) (suc f / p) (suc f % p) sb.sb_agblocks
              (div-add-mod (suc f) p ∙ ap suc (sym (div-add-mod f p))) over b.within
              file.geometry.agblocks_fit
        | inr (same, more) ↦ omega (
          arith,
          ap (λ z. p * z + suc f % p) (sym same) ∙ div-add-mod (suc f) p,
          div-add-mod f p,
          ap (λ z. z * sb.sb_agblocks) same,
        )
      ]

  -- Numbers in a row that name blocks: the blocks lie in a row.
  row :
      (n f : ℕ)
      → ((k : ℕ) → k < n → IsBlock sb (f + k))
      → (k : ℕ) → k < n
      → linear sb (f + k) ≡ linear sb f + k
  row n f blocks zero lt = let e : f + 0 ≡ f = omega arith in rw e (omega arith)
  row n f blocks (suc k) lt =
      let e : f + suc k ≡ suc (f + k) = omega arith in
      let before = row n f blocks k (omega arith) in
      let here : IsBlock sb (suc (f + k)) = subst (λ z. IsBlock sb z) e (blocks (suc k) lt) in
      rw e (linear_next (f + k) (blocks k (omega arith)) here ∙ omega (arith, before))

  abbrev bs : ℕ
  bs = 2 ^ sb.sb_blocklog

  place : (f : ℕ) → IsBlock sb f → fsb_to_offset sb f ≡ linear sb f * bs
  place f b = fsb_to_offset_lem sb file.geometry f b

  -- A mapped run of extents is a run of bytes of the device.
  run-Covers :
      (d b n : ℕ)
      → 0 < n
      → ((k : ℕ) → k < n → mapped bmx (d + k) ≡ some (b + k))
      → Covers sb (list_extent sb bmx size) dev (mapped bmx) d (some b, n)
  run-Covers d b n pos maps =
      let blocks : (k : ℕ) → k < n → IsBlock sb (b + k) =
        λ k lt. file.on_device (d + k) (b + k) (maps k lt) in
      let first : IsBlock sb b = subst (λ z. IsBlock sb z) (omega arith) (blocks 0 pos) in
      let lies : (k : ℕ) → k < n → fsb_to_offset sb (b + k) ≡ fsb_to_offset sb b + k * bs = λ k lt.
        place (b + k) (blocks k lt)
        ∙ ap (λ z. z * bs) (row n b blocks k lt)
        ∙ spread (linear sb b) k
        ∙ ap (λ z. z + k * bs) (sym (place b first)) in
      let last : n - 1 < n = omega arith in
      let row_end =
        next_le (linear sb (b + (n - 1))) (sb.sb_agcount * sb.sb_agblocks) bs
          (linear-lt sb (b + (n - 1)) (blocks (n - 1) last)) in
      let count : (n - 1) * bs + bs ≡ n * bs =
        sym (spread_one (n - 1)) ∙ ap (λ z. z * bs) (omega arith) in
      (
        pos,
        subst (λ z. z * bs < u64_mod) (omega arith)
            (file.offsets_fit (d + (n - 1)) (b + (n - 1)) (maps (n - 1) last)),
        λ k lt. (b + k, maps k lt, lies k lt),
        omega (
          arith,
          lies (n - 1) last,
          place (b + (n - 1)) (blocks (n - 1) last),
          row_end,
          count,
          file.device_whole,
        ),
      )
    where
      spread : (x y : ℕ) → (x + y) * bs ≡ x * bs + y * bs
      spread x y = grind arith

      spread_one : (x : ℕ) → suc x * bs ≡ x * bs + bs
      spread_one x = grind arith

  abbrev limit : ℕ
  limit = block_count sb size

  in_bytes : limit * sb.sb_blocksize ≡ limit * bs
  in_bytes = ap (λ z. limit * z) file.block_bytes

  limit_fits : limit * bs < u64_mod
  limit_fits =
      let small =
        pow-le-pow_right {n = 2} (omega arith) {i = sb.sb_blocklog} {j = 16}
          file.geometry.blocklog_high in
      omega (
        arith,
        in_bytes,
        div-add-mod' (size + sb.sb_blocksize - 1) sb.sb_blocksize,
        file.size_fits,
        file.block_bytes,
        small,
      )

  size_within : size ≤ limit * bs
  size_within = omega (arith, in_bytes, whole, rest, pos)
    where
      whole :
          (size + sb.sb_blocksize - 1) / sb.sb_blocksize * sb.sb_blocksize
            + (size + sb.sb_blocksize - 1) % sb.sb_blocksize
          ≡ size + sb.sb_blocksize - 1
      whole = div-add-mod' (size + sb.sb_blocksize - 1) sb.sb_blocksize

      pos : 0 < sb.sb_blocksize
      pos = subst (λ z. 0 < z) (sym file.block_bytes) (pos_pow sb.sb_blocklog)

      rest : (size + sb.sb_blocksize - 1) % sb.sb_blocksize < sb.sb_blocksize
      rest = grind (arith, pos)

  hole_fits : (d n : ℕ) → mapped bmx (d + n) ≢ none → (d + n) * bs < u64_mod
  hole_fits d n ends = elim (Option-cases (mapped bmx (d + n))) [
    | inl e ↦ absurd (ends e)
    | inr (f, e) ↦
        omega (arith, file.offsets_fit (d + n) f e, next_le (d + n) (suc (d + n)) bs (omega arith))
  ]

  -- Each answer of `get_extent` on the file tells of the blocks what the list maps.
  Covers-Describes :
      (d : ℕ) (a : Option ℕ × Option ℕ)
      → d < limit
      → get_extent bmx d ≡ ok a
      → Describes bmx d a
      → (c : Option ℕ × ℕ) × (list_extent sb bmx size d ≡ ok c)
        × Covers sb (list_extent sb bmx size) dev (mapped bmx) d c
  unfolding list_extent
  Covers-Describes d (some b, some n) lt e (pos, maps) =
      ((some b, n), rw e refl, run-Covers d b n pos maps)
  Covers-Describes d (some b, none) lt e t = absurd t
  Covers-Describes d (none, some n) lt e (pos, maps, ends) =
      ((none, n), rw e refl, (pos, hole_fits d n ends, maps))
  Covers-Describes d (none, none) lt e maps = (
    (none, limit - d),
    rw e (
        ap (λ z. ok (none, z))
          (sub64_small limit d (omega arith)
            (omega (arith, limit_fits, le_times limit bs (pos_pow sb.sb_blocklog))))),
    (omega arith, subst (λ z. z * bs < u64_mod) (omega arith) limit_fits, λ k h. maps k),
  )

  pub listed-IsFile : IsFile sb (list_extent sb bmx size) dev (mapped bmx) limit
  listed-IsFile = record {
    answers =
        λ d lt. let (a, e, t) = get_extent-Describes bmx d file.list in Covers-Describes d a lt e t;
    small_log = omega (arith, file.geometry.blocklog_high);
  }

  -- A read from an offset in a file with an extent list returns the file's bytes from there on, as many as
  -- asked for or as are left in the file, behind as many bytes, which are there, as it says are to be ignored: the bytes of
  -- the device where the records map a block, and zeros in a hole, up to the last block of the file. This
  -- holds when the records are ordered and written, every block they map is a block of the device and has
  -- an offset in the file that fits in a word, the size is below 2^63, and the device holds all of its groups in whole buffers.
  pub read_listed :
      (blocks buffer offset asked : ℕ) (r : BlockReader)
      → IsReader dev blocks buffer r
      → offset ≤ size
      → (v : Bytes) × (ignore : ℕ) × (r' : BlockReader) × (read sb
            (list_extent sb bmx size)
            size
            r
            offset
            asked
          ≡ ok ((v, ignore), r'))
        × (drop ignore v
            ≡ take
                (wanted size offset asked)
                (drop offset (contents (fsb_to_offset sb) dev bs (mapped bmx) 0 limit)))
        × (ignore ≤ length v)
        × IsReader dev blocks buffer r'
  read_listed blocks buffer offset asked r reader le =
      read_file sb (list_extent sb bmx size) dev (mapped bmx) limit listed-IsFile blocks buffer size
        offset asked r reader file.block_bytes le file.size_fits size_within
