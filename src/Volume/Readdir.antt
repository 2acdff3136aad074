-- ===== src/Volume/Readdir.antt =====
-- `readdir` of src/libxfuse/volume.rs, over a directory's `next`. What
-- fuser's reply buffer holds is a parameter: `is_full` says that it has no room for one entry more.
use xfuse.Base.{
  ◌^◌, ℕ, zero, suc, ◌≤◌, ◌<◌, ◌≡◌, refl, sym, ap, ◌∙◌, Bool, false, List, [], ◌∷◌, ◌++◌, Option,
  none, some, ◌==◌, if◌then◌else◌, arith, length, All, Outcome, ok, err, panic, ◌>>=◌, map_ok,
}
use xfuse.Codec.{Bytes}
use xfuse.FileType.{FileType}
use xfuse.Dir.Sf.{Dir2Sf, Dir2SfEntry, Dirent, next, kind_of, no_more}
use xfuse.Dir.SfLaws.{next_lem, next_end}
use xfuse.Volume.{fuse_root_id}
use mathlib.Core.List.{append_assoc, append-nil}

-- What `reply.add` is given.
pub record Listed : Type 0 where
  pub ino : ℕ
  pub offset : ℕ
  pub kind : FileType
  pub name : Bytes

module _ (sb_rootino : ℕ) (stat_kind : ℕ → Outcome ℕ FileType)
    (is_full : List Listed → Listed → Bool) where
  -- The root has inode number 1 in FUSE.
  abbrev pub fuse_ino : ℕ → ℕ
  fuse_ino ino = if ino == sb_rootino then fuse_root_id else ino

  -- Without a type in the directory, the inode is read for it.
  abbrev pub kind_or_stat : Option FileType → ℕ → Outcome ℕ FileType
  kind_or_stat (some kind) ino = ok kind
  kind_or_stat none ino = stat_kind (if ino == fuse_root_id then sb_rootino else ino)

  abbrev pub entry_of : Dirent → FileType → Listed
  entry_of d kind = record { ino = fuse_ino d.ino; offset = d.offset; kind = kind; name = d.name }

  -- The loop; out of fuel is a panic. Every error of `next` ends the listing.
  unfoldable pub readdir_loop :
      (ℕ → Outcome ℕ Dirent) → ℕ → ℕ → List Listed → Outcome ℕ (List Listed)
  readdir_loop dir_next zero off reply = panic
  readdir_loop dir_next (suc fuel) off reply = elim (dir_next off) [
    | panic ↦ panic
    | err e ↦ ok reply
    | ok d ↦ do
      kind ← kind_or_stat d.kind (fuse_ino d.ino)
      let entry = entry_of d kind
      if is_full reply entry
          then ok reply
          else readdir_loop dir_next fuel d.offset (reply ++ (entry ∷ []))
  ]

  abbrev pub IsEntryOf : Dir2SfEntry → FileType → Type 0
  IsEntryOf e kind = kind_of e.ftype ≡ ok (some kind)

  -- Entries with their file types, at growing offsets of 16 bits above `off`.
  abbrev pub IsListing : ℕ → List (Dir2SfEntry × FileType) → Type 0
  IsListing off [] = Unit {0}
  IsListing off ((e, kind) ∷ es) =
      (off < e.offset) × (e.offset < 2 ^ 16) × IsEntryOf e kind × IsListing e.offset es

  abbrev pub entries : List (Dir2SfEntry × FileType) → Dir2Sf
  entries [] = []
  entries ((e, kind) ∷ es) = e ∷ entries es

  abbrev pub listed : List (Dir2SfEntry × FileType) → List Listed
  listed [] = []
  listed ((e, kind) ∷ es) =
      record { ino = fuse_ino e.inumber; offset = e.offset; kind = kind; name = e.name } ∷ listed es

  All-snoc :
      (front : Dir2Sf) (e : Dir2SfEntry) (off : ℕ)
      → All (λ (f : Dir2SfEntry). f.offset ≤ off) front
      → off < e.offset
      → All (λ (f : Dir2SfEntry). f.offset ≤ e.offset) (front ++ (e ∷ []))
  All-snoc [] e off h lt = (omega arith, tt)
  All-snoc (f ∷ front) e off (h, hs) lt = (omega arith, All-snoc front e off hs lt)

  module _ (roomy : (reply : List Listed) (x : Listed) → is_full reply x ≡ false) where
    pub step :
        (dir_next : ℕ → Outcome ℕ Dirent) (fuel off : ℕ) (d : Dirent) (kind : FileType)
        (reply : List Listed)
        → dir_next off ≡ ok d
        → d.kind ≡ some kind
        → readdir_loop dir_next (suc fuel) off reply
          ≡ readdir_loop dir_next fuel d.offset (reply ++ (entry_of d kind ∷ []))
    unfolding readdir_loop
    step dir_next fuel off d kind reply e k = rw (e, k, roomy reply (entry_of d kind), readdir_loop)

    pub stop :
        (dir_next : ℕ → Outcome ℕ Dirent) (fuel off code : ℕ) (reply : List Listed)
        → dir_next off ≡ err code
        → readdir_loop dir_next (suc fuel) off reply ≡ ok reply
    unfolding readdir_loop
    stop dir_next fuel off code reply e = rw (e, readdir_loop)

    one_round :
        (fuel off : ℕ) (front : Dir2Sf) (e : Dir2SfEntry) (back : Dir2Sf) (kind : FileType)
        (reply : List Listed)
        → off < 2 ^ 63
        → All (λ (f : Dir2SfEntry). f.offset ≤ off) front
        → off < e.offset
        → IsEntryOf e kind
        → readdir_loop (next (front ++ (e ∷ back))) (suc fuel) off reply
          ≡ readdir_loop (next (front ++ (e ∷ back))) fuel e.offset (
              reply
              ++ (record { ino = fuse_ino e.inumber; offset = e.offset; kind = kind; name = e.name }
                  ∷ []))
    one_round fuel off front e back kind reply pos h lt k =
        step (next (front ++ (e ∷ back))) fuel off
          (record { ino = e.inumber; offset = e.offset; kind = some kind; name = e.name }) kind
          reply
          (next_lem front e back off pos h lt
            ∙ ap
                (map_ok
                  λ kd. record { ino = e.inumber; offset = e.offset; kind = kd; name = e.name })
                k)
          refl

    list_back :
        (back : List (Dir2SfEntry × FileType)) (fuel off : ℕ) (front : Dir2Sf) (reply : List Listed)
        → off < 2 ^ 63
        → All (λ (f : Dir2SfEntry). f.offset ≤ off) front
        → IsListing off back
        → length back < fuel
        → readdir_loop (next (front ++ entries back)) fuel off reply ≡ ok (reply ++ listed back)
    list_back back zero off front reply pos h l lt = absurd (omega arith)
    list_back [] (suc fuel) off front reply pos h l lt =
        ap (λ (es : Dir2Sf). readdir_loop (next es) (suc fuel) off reply) (append-nil front)
        ∙ stop (next front) fuel off no_more reply (next_end front off pos h)
        ∙ ap ok (sym (append-nil reply))
    list_back ((e, kind) ∷ back) (suc fuel) off front reply pos h (more, small, k, l) lt =
        let x : Listed = record {
          ino = fuse_ino e.inumber;
          offset = e.offset;
          kind = kind;
          name = e.name;
        } in
        one_round fuel off front e (entries back) kind reply pos h more k
        ∙ ap (λ (es : Dir2Sf). readdir_loop (next es) fuel e.offset (reply ++ (x ∷ [])))
            (sym (append_assoc front (e ∷ []) (entries back)))
        ∙ list_back back fuel e.offset (front ++ (e ∷ [])) (reply ++ (x ∷ [])) (omega arith)
            (All-snoc front e off h more) l (omega arith)
        ∙ ap ok (append_assoc reply (x ∷ []) (listed back))

    -- With room in the reply, `readdir` from a cursor that is not negative lists the entries behind it, each once and in the
    -- order of the directory, and the root under inode number 1. This is for a short form directory at
    -- growing offsets of 16 bits whose file types are known; the loop does not run out of rounds.
    pub readdir_loop_lem :
        (back : List (Dir2SfEntry × FileType)) (fuel off : ℕ) (front : Dir2Sf)
        → off < 2 ^ 63
        → All (λ (f : Dir2SfEntry). f.offset ≤ off) front
        → IsListing off back
        → length back < fuel
        → readdir_loop (next (front ++ entries back)) fuel off [] ≡ ok (listed back)
    readdir_loop_lem back fuel off front pos h l lt = list_back back fuel off front [] pos h l lt
