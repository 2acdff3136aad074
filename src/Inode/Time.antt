-- ===== src/Inode/Time.antt =====
-- The times of src/libxfuse/dinode_core.rs: both formats, against the on-disk definition.
use xfuse.Base.{
  ℕ, ◌+◌, ◌*◌, ◌/◌, ◌%◌, ◌^◌, ◌≤◌, ◌<◌, ◌≡◌, refl, ltb, lt→leb, le→leb, false, if◌then◌else◌, arith,
  Outcome, ok, panic,
}
use xfuse.Inode.{DinodeCore, XfsTimestamp, bigtime, timestamp, unix_epoch}

-- Seconds of 32 bits with a sign after 1970, and nanoseconds; before 1970 there is no answer.
abbrev pub classic : XfsTimestamp → Outcome ℕ ℕ
classic ts =
    if ltb ts.t_sec (2 ^ 31) then ok (unix_epoch + (ts.t_sec * 10 ^ 9 + ts.t_nsec)) else panic

classic_lem :
    (d : DinodeCore) (ts : XfsTimestamp)
    → ts.t_sec < 2 ^ 32
    → ts.t_nsec < 10 ^ 9
    → bigtime d ≡ false
    → timestamp d ts ≡ classic ts
unfolding timestamp
classic_lem d ts hs hn b =
    let nanos0 : ts.t_nsec / 10 ^ 9 ≡ 0 = omega arith in rw (b, nanos0) (ground arith)

-- The times of an inode, by its version and by bit 3 of its flags, where `lo` are the three flags below
-- the bit and `hi` those above. In version 3 and later with the bit set the two words are one counter of
-- nanoseconds after the classic epoch. With the bit clear, or in an earlier version whatever the flags
-- are, they are seconds and nanoseconds after 1970, and a time before 1970 makes the call panic. This is
-- for seconds of 32 bits and less than 10^9 nanoseconds.
pub timestamp_lem :
    (d : DinodeCore) (old hi lo : ℕ) (ts : XfsTimestamp)
    → 3 ≤ d.di_version
    → old < 3
    → lo < 8
    → ts.t_sec < 2 ^ 32
    → ts.t_nsec < 10 ^ 9
    → (timestamp (record d { di_flags2 = hi * 16 + 8 + lo }) ts
        ≡ ok (ts.t_sec * 2 ^ 32 + ts.t_nsec))
      × (timestamp (record d { di_flags2 = hi * 16 + lo }) ts ≡ classic ts)
      × (timestamp (record d { di_version = old }) ts ≡ classic ts)
unfolding timestamp
timestamp_lem d old hi lo ts new lt hlo hs hn =
    let set : (hi * 16 + 8 + lo) / 8 % 2 ≡ 1 = omega arith in
    let clear : (hi * 16 + lo) / 8 % 2 ≡ 0 = omega arith in
    let version = le→leb 3 d.di_version new in
    (
      rw (version, set) refl,
      classic_lem (record d { di_flags2 = hi * 16 + lo }) ts hs hn (rw (version, clear) refl),
      classic_lem (record d { di_version = old }) ts hs hn (rw (lt→leb 3 old lt) refl),
    )
