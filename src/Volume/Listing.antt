-- ===== src/Volume/Listing.antt =====
-- `readdir` of src/libxfuse/volume.rs over any directory whose `next` walks through its entries.
use xfuse.Base.{
  ℕ, zero, suc, ◌<◌, ◌≡◌, refl, sym, ap, ◌∙◌, Bool, false, List, [], ◌∷◌, ◌++◌, some, arith, length,
  Outcome, ok, err, subst, map_ok, ◌^◌,
}
use xfuse.Codec.{Bincode, IsBigEndian}
use xfuse.Sb.{Sb}
use xfuse.FileType.{FileType, enoent}
use xfuse.Dir.{Dir2DataEntry}
use xfuse.Dir.Sf.{Dirent, kind_of}
use xfuse.Dir.Block.{Dir2Block, block_next}
use xfuse.Dir.Block.Records.{Rec, used, unused, IsRecords}
use xfuse.Dir.Block.Next.{first_used, block_next_lem}
use xfuse.Volume.Readdir.{Listed, readdir_loop, entry_of, step, stop}
use mathlib.Core.List.{append_assoc, append-nil}

-- From a cursor, `next` returns these entries one after the other, and then an error. The file type
-- of each is known.
abbrev pub Walks : (ℕ → Outcome ℕ Dirent) → ℕ → List (Dirent × FileType) → Type 0
Walks dir_next off [] = (code : ℕ) × (dir_next off ≡ err code)
Walks dir_next off ((d, kind) ∷ ds) =
    (dir_next off ≡ ok d) × (d.kind ≡ some kind) × Walks dir_next d.offset ds

-- The entries of a row of records that have the given file types.
abbrev pub HasKinds : List Rec → List (Dir2DataEntry × FileType) → Type 0
HasKinds [] es = es ≡ []
HasKinds (unused len ∷ rs) es = HasKinds rs es
HasKinds (used e ∷ rs) [] = ⊥
HasKinds (used e ∷ rs) ((f, kind) ∷ es) =
    (e ≡ f) × (kind_of e.ftype ≡ ok (some kind)) × HasKinds rs es

abbrev pub dirent : Dir2DataEntry × FileType → Dirent × FileType
dirent (e, kind) =
    (record { ino = e.inumber; offset = e.tag; kind = some kind; name = e.name }, kind)

abbrev pub dirents : List (Dir2DataEntry × FileType) → List (Dirent × FileType)
dirents [] = []
dirents (e ∷ es) = dirent e ∷ dirents es

module _ (sb_rootino : ℕ) (stat_kind : ℕ → Outcome ℕ FileType)
    (is_full : List Listed → Listed → Bool)
    (roomy : (reply : List Listed) (x : Listed) → is_full reply x ≡ false) where
  abbrev pub listing : List (Dirent × FileType) → List Listed
  listing [] = []
  listing ((d, kind) ∷ ds) = entry_of sb_rootino stat_kind is_full d kind ∷ listing ds

  list_walk :
      (dir_next : ℕ → Outcome ℕ Dirent) (ds : List (Dirent × FileType)) (fuel off : ℕ)
      (reply : List Listed)
      → Walks dir_next off ds
      → length ds < fuel
      → readdir_loop sb_rootino stat_kind is_full dir_next fuel off reply ≡ ok (reply ++ listing ds)
  list_walk dir_next ds zero off reply w lt = absurd (omega arith)
  list_walk dir_next [] (suc fuel) off reply (code, e) lt =
      stop sb_rootino stat_kind is_full roomy dir_next fuel off code reply e
      ∙ ap ok (sym (append-nil reply))
  list_walk dir_next ((d, kind) ∷ ds) (suc fuel) off reply (e, k, w) lt =
      let x = entry_of sb_rootino stat_kind is_full d kind in
      step sb_rootino stat_kind is_full roomy dir_next fuel off d kind reply e k
      ∙ list_walk dir_next ds fuel d.offset (reply ++ (x ∷ [])) w (omega arith)
      ∙ ap ok (append_assoc reply (x ∷ []) (listing ds))

  walk :
      (bc : Bincode) (sb : Sb) (dir : Dir2Block) (rs rest front : List Rec)
      (es : List (Dir2DataEntry × FileType)) (off : ℕ)
      → ((front back : List Rec) (e : Dir2DataEntry)
          → rs ≡ front ++ (used e ∷ back)
          → block_next bc sb dir e.tag ≡ first_used back)
      → rs ≡ front ++ rest
      → block_next bc sb dir off ≡ first_used rest
      → HasKinds rest es
      → Walks (block_next bc sb dir) off (dirents es)
  walk bc sb dir rs [] front es off cursors split c h =
      subst (λ z. Walks (block_next bc sb dir) off (dirents z)) (sym h) (enoent, c)
  walk bc sb dir rs (unused len ∷ rest) front es off cursors split c h =
      walk bc sb dir rs rest (front ++ (unused len ∷ [])) es off cursors
        (split ∙ sym (append_assoc front (unused len ∷ []) rest)) c h
  walk bc sb dir rs (used e ∷ rest) front [] off cursors split c h = absurd h
  walk bc sb dir rs (used e ∷ rest) front ((f, kind) ∷ es) off cursors split c (same, k, h) = (
    c
        ∙ ap (map_ok (λ kd. record { ino = e.inumber; offset = e.tag; kind = kd; name = e.name })) k
        ∙ ap (λ z. ok (dirent (z, kind)).0) same,
    refl,
    walk bc sb dir rs rest (front ++ (used e ∷ [])) es f.tag cursors
        (split ∙ sym (append_assoc front (used e ∷ []) rest))
        (subst (λ z. block_next bc sb dir z.tag ≡ first_used rest) same
          (cursors front rest e split))
        h,
  )

  -- With room in the reply, `readdir` of a block directory from the start lists every entry of its
  -- records once, in their order, past the unused space, and the root under inode number 1. This is
  -- for records that carry their offsets as tags and have known file types; the loop does not run out
  -- of rounds, of which it takes one for each entry and one more.
  pub readdir_block :
      {bc : Bincode} (law : IsBigEndian bc) (sb : Sb) (dir : Dir2Block) (rs : List Rec)
      (es : List (Dir2DataEntry × FileType)) (fuel : ℕ)
      → IsRecords sb dir.raw dir.data_offset rs
      → 0 < dir.data_offset
      → 0 < length dir.raw
      → length dir.raw < 2 ^ 63
      → HasKinds rs es
      → length (dirents es) < fuel
      → readdir_loop sb_rootino stat_kind is_full (block_next bc sb dir) fuel 0 []
        ≡ ok (listing (dirents es))
  readdir_block {bc} law sb dir rs es fuel h start some_bytes small kinds lt =
      let (first, cursors) = block_next_lem law sb dir rs h start some_bytes small in
      list_walk (block_next bc sb dir) (dirents es) fuel 0 []
        (walk bc sb dir rs rs [] es 0 cursors refl first kinds) lt
