-- ===== src/Tests/Mounted.antt =====
-- src/libxfuse/volume.rs: inode 131 is looked up twice and forgotten once.
use xfuse.Base.{ℕ, ◌≡◌, ◌≢◌, refl, List, [], ◌∷◌, arith, ok, Outcome}
use xfuse.Volume.{find, fuse_root_id}
use xfuse.Volume.Lookups.{Event, looked_up, forgot, Counts}
use xfuse.Volume.Owed.{Reaches-Counts, Reaches_always}

abbrev number : ℕ → Outcome ℕ ℕ
number ino = ok ino

abbrev history : List Event
history = forgot 131 1 ∷ looked_up 131 ∷ looked_up 132 ∷ looked_up 131 ∷ []

loads : (ino : ℕ) → (d : ℕ) × (number ino ≡ ok d)
loads ino = (ino, refl)

Reaches-Counts_example : Counts (find (Reaches_always number 128 loads history).0 131) 1
Reaches-Counts_example =
    Reaches-Counts number 128 history (Reaches_always number 128 loads history).0 131
      (Reaches_always number 128 loads history).1 (omega arith, tt) (omega arith) other
  where
    other : 131 ≢ fuse_root_id
    other = ground arith
