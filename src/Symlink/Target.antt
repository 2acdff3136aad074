-- ===== src/Symlink/Target.antt =====
-- `get_target` of src/libxfuse/symlink_extent.rs puts the target of a symbolic link together.
use xfuse.Base.{
  ℕ, zero, suc, ◌+◌, ◌^◌, ◌≤◌, ◌<◌, ◌≡◌, refl, sym, ap, ◌∙◌, subst, List, [], ◌∷◌, ◌++◌, Option,
  none, some, ◌⊎◌, inl, inr, arith, length, take, drop, length-drop, length-take, ok, add64,
  add64_small, shl64, nat_eq-false,
}
use xfuse.Codec.{Bytes, Bincode, IsBigEndian, be_at}
use xfuse.Sb.{Sb, fsb_to_offset, version}
use xfuse.Bmbt.{Bmx, get_extent}
use xfuse.BlockReader.{BlockReader, start, seek, read_exact}
use xfuse.BlockReader.Position.{At}
use xfuse.BlockReader.Reads.{read_exact_lem}
use xfuse.BlockReader.Seeks.{IsReader, At-IsReader, seek_start_lem, seek_current_lem}
use xfuse.Symlink.Header.{symlink_magic, symlink_hdr_size, get_symlink_hdr_lem}
use xfuse.Symlink.{c_string, piece_size, target_loop, get_target}
use mathlib.Core.List.{append-nil, append_assoc}

-- No byte is a NUL.
abbrev pub NoNul : Bytes → Type 0
NoNul [] = Unit
NoNul (b ∷ bs) = (0 < b) × NoNul bs

-- Nothing, or bytes that begin with a NUL.
abbrev pub IsPadding : Bytes → Type 0
IsPadding [] = Unit
IsPadding (b ∷ bs) = b ≡ 0

c_string-split :
    (target padding : Bytes)
    → NoNul target
    → IsPadding padding
    → c_string (target ++ padding) ≡ target
unfolding c_string
c_string-split [] [] h p = refl
c_string-split [] (b ∷ bs) h p = rw p refl
c_string-split (b ∷ bs) padding (pos, h) p =
    rw (nat_eq-false b 0 (λ z. absurd (omega arith)), c_string-split bs padding h p) refl

module _ (sb : Sb) (dev : Bytes) where
  -- The bytes of the target in the extent of `n` blocks at block `fsb`, without headers.
  pub record IsPlain (fsb n : ℕ) (piece : Bytes) : Type 0 where
    pub version_4 : version sb ≡ 4
    pub some_bytes : 0 < shl64 n sb.sb_blocklog
    pub within : fsb_to_offset sb fsb + shl64 n sb.sb_blocklog ≤ length dev
    pub piece_bytes : piece ≡ take (shl64 n sb.sb_blocklog) (drop (fsb_to_offset sb fsb) dev)

  -- The header at block `fsb`, and where the bytes of the target behind it begin.
  abbrev hdr_at : ℕ → Bytes
  hdr_at fsb = take symlink_hdr_size (drop (fsb_to_offset sb fsb) dev)

  abbrev bytes_from : ℕ → ℕ
  bytes_from fsb = fsb_to_offset sb fsb + symlink_hdr_size + be_at (hdr_at fsb) 4 4

  -- The same behind a header; the bytes are `sl_offset` behind it.
  pub record IsHeaded (fsb : ℕ) (piece : Bytes) : Type 0 where
    pub version_5 : version sb ≡ 5
    pub magic : be_at (hdr_at fsb) 0 4 ≡ symlink_magic
    pub some_bytes : 0 < be_at (hdr_at fsb) 8 4
    pub within : bytes_from fsb + be_at (hdr_at fsb) 8 4 ≤ length dev
    pub piece_bytes : piece ≡ take (be_at (hdr_at fsb) 8 4) (drop (bytes_from fsb) dev)

  abbrev pub IsPiece : ℕ → ℕ → Bytes → Type 0
  IsPiece fsb n piece = IsPlain fsb n piece ⊎ IsHeaded fsb piece

  -- `bmx` maps the blocks from `d` on to these extents of so many blocks, and ends in a hole.
  abbrev pub IsTarget : Bmx → ℕ → List (ℕ × ℕ × Bytes) → Type 0
  IsTarget bmx d [] = (len : Option ℕ) × (get_extent bmx d ≡ ok (none, len))
  IsTarget bmx d ((fsb, n, piece) ∷ pieces) =
      (get_extent bmx d ≡ ok (some fsb, some n))
      × (d + n < 2 ^ 64)
      × IsPiece fsb n piece
      × IsTarget bmx (d + n) pieces

  abbrev pub joined : List (ℕ × ℕ × Bytes) → Bytes
  joined [] = []
  joined ((fsb, n, piece) ∷ pieces) = piece ++ joined pieces

  module _ {bc : Bincode} (law : IsBigEndian bc) (blocks size : ℕ)
      (small : length dev < 2 ^ 63) where
    -- What a round of the loop does with an extent.
    abbrev Reads : BlockReader → ℕ → ℕ → Bytes → Type 0
    Reads r fsb n piece =
        (pos : ℕ) × (r1 : BlockReader) × (z : ℕ) × (r2 : BlockReader) × (r3 : BlockReader) × (seek r
            (start (fsb_to_offset sb fsb))
          ≡ ok (pos, r1))
        × (piece_size bc sb r1 n ≡ ok (z, r2))
        × (read_exact r2 z ≡ ok (piece, r3))
        × IsReader dev blocks size r3

    plain_lem :
        (r : BlockReader) (fsb n : ℕ) (piece : Bytes)
        → IsReader dev blocks size r
        → IsPlain fsb n piece
        → Reads r fsb n piece
    unfolding piece_size
    plain_lem r fsb n piece reader p =
        let o = fsb_to_offset sb fsb in
        let z = shl64 n sb.sb_blocklog in
        let (r1, e1, at1) =
          seek_start_lem dev blocks size o r reader (omega (arith, p.some_bytes, p.within)) in
        let (r2, e2, at2) = read_exact_lem dev blocks size o z r1 at1 p.within in
        (
          o,
          r1,
          z,
          r1,
          r2,
          e1,
          rw p.version_4 refl,
          e2 ∙ ap (λ b. ok (b, r2)) (sym p.piece_bytes),
          At-IsReader dev blocks size (o + z) r2 at2,
        )

    headed_lem :
        (r : BlockReader) (fsb n : ℕ) (piece : Bytes)
        → IsReader dev blocks size r
        → IsHeaded fsb piece
        → Reads r fsb n piece
    unfolding piece_size
    headed_lem r fsb n piece reader p =
        let o = fsb_to_offset sb fsb in
        let skip = be_at (hdr_at fsb) 4 4 in
        let (r1, e1, at1) =
          seek_start_lem dev blocks size o r reader (omega (arith, p.some_bytes, p.within)) in
        let (r2, e2, at2) =
          read_exact_lem dev blocks size o symlink_hdr_size r1 at1 (omega (arith, p.within)) in
        let here : add64 (o + symlink_hdr_size) skip ≡ bytes_from fsb =
          add64_small (o + symlink_hdr_size) skip (omega (arith, p.within)) in
        let (r3, e3, at3) =
          seek_current_lem dev blocks size (o + symlink_hdr_size) skip r2 at2
            (omega (arith, p.within)) small (omega (arith, here, p.within, p.some_bytes)) in
        let z = be_at (hdr_at fsb) 8 4 in
        let (r4, e4, at4) =
          read_exact_lem dev blocks size (bytes_from fsb) z r3
            (subst (λ x. At dev blocks size r3 x) here at3) p.within in
        let hdr_size : 56 ≤ length (hdr_at fsb) =
          omega (arith, p.within, length-drop o dev, length-take symlink_hdr_size (drop o dev)) in
        (
          o,
          r1,
          z,
          r3,
          r4,
          e1,
          rw (p.version_5, e2, get_symlink_hdr_lem law (hdr_at fsb) hdr_size, p.magic, e3) refl,
          e4 ∙ ap (λ b. ok (b, r4)) (sym p.piece_bytes),
          At-IsReader dev blocks size (bytes_from fsb + z) r4 at4,
        )

    piece_lem :
        (r : BlockReader) (fsb n : ℕ) (piece : Bytes)
        → IsReader dev blocks size r
        → IsPiece fsb n piece
        → Reads r fsb n piece
    piece_lem r fsb n piece reader (inl p) = plain_lem r fsb n piece reader p
    piece_lem r fsb n piece reader (inr p) = headed_lem r fsb n piece reader p

    target_loop_lem :
        (pieces : List (ℕ × ℕ × Bytes)) (fuel : ℕ) (r : BlockReader) (bmx : Bmx) (d : ℕ)
        (target : Bytes)
        → length pieces < fuel
        → IsReader dev blocks size r
        → IsTarget bmx d pieces
        → target_loop bc sb fuel r bmx d target ≡ ok (target ++ joined pieces)
    unfolding target_loop
    target_loop_lem pieces zero r bmx d target h reader t = absurd (omega arith)
    target_loop_lem [] (suc fuel) r bmx d target h reader (len, e) =
        rw (e, target_loop) (ap ok (sym (append-nil target)))
    target_loop_lem ((fsb, n, piece) ∷ pieces) (suc fuel) r bmx d target h reader (e, low, p, t) =
        let (pos, r1, z, r2, r3, e1, e2, e3, reader3) = piece_lem r fsb n piece reader p in
        let rest =
          target_loop_lem pieces fuel r3 bmx (d + n) (target ++ piece) (omega arith) reader3 t in
        rw (e, e1, e2, e3, add64_small d n low, rest, target_loop)
          (ap ok (append_assoc target piece (joined pieces)))

    -- For a link whose extents are mapped from block 0 on without a hole, each with its bytes on the
    -- device, `get_target` returns the target, when the bytes of the extents, one behind the other, are
    -- the target, which has no NUL, and nothing or a NUL and anything behind it. In version 4 the bytes
    -- are the whole extent; in version 5 they are as many as its header says, `sl_offset` bytes behind
    -- the header. More rounds than extents are enough.
    pub get_target_lem :
        (pieces : List (ℕ × ℕ × Bytes)) (target padding : Bytes) (fuel : ℕ) (r : BlockReader)
        (bmx : Bmx)
        → length pieces < fuel
        → IsReader dev blocks size r
        → IsTarget bmx 0 pieces
        → joined pieces ≡ target ++ padding
        → NoNul target
        → IsPadding padding
        → get_target bc sb fuel r bmx ≡ ok target
    unfolding get_target
    get_target_lem pieces target padding fuel r bmx h reader t split clean pad =
        rw (target_loop_lem pieces fuel r bmx 0 [] h reader t, split)
          (ap ok (c_string-split target padding clean pad))
