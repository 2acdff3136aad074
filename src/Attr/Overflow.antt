-- ===== src/Attr/Overflow.antt =====
-- The byte sum `namelen + valuelen` of src/libxfuse/attr_shortform.rs on entries it is too small for.
use xfuse.Base.{ℕ, ◌+◌, ◌-◌, ◌%◌, ◌≤◌, ◌<◌, ◌≡◌, ◌++◌, arith, length, take, drop, ok}
use xfuse.Codec.{Bytes, Bincode, IsBigEndian, ◌>>=◌}
use xfuse.Codec.Encode.{be_bytes, uint-be_bytes}
use xfuse.Attr.ShortformDecode.{get_attr_entry}

-- Of an entry whose name and value together have 256 bytes or more, 256 bytes too few are read: the
-- value is cut short, and what was not read is left as the next input.
pub get_attr_entry_overflow :
    {bc : Bincode}
    → IsBigEndian bc
    → (namelen valuelen flags : ℕ) (nameval : Bytes) → namelen < 256
    → valuelen < 256
    → flags < 256
    → length nameval ≡ namelen + valuelen
    → 256 ≤ namelen + valuelen
    → get_attr_entry bc
        (be_bytes 1 namelen ++ (be_bytes 1 valuelen ++ (be_bytes 1 flags ++ nameval)))
      ≡ ok (
        record { namelen = namelen; flags = flags; nameval = take (length nameval - 256) nameval },
        drop (length nameval - 256) nameval,
      )
unfolding get_attr_entry
get_attr_entry_overflow law namelen valuelen flags nameval hn hv hf len big = rw (
  uint-be_bytes law 1 namelen (be_bytes 1 valuelen ++ (be_bytes 1 flags ++ nameval)) hn,
  uint-be_bytes law 1 valuelen (be_bytes 1 flags ++ nameval) hv,
  uint-be_bytes law 1 flags nameval hf,
  cut,
  law.read_ok (length nameval - 256) nameval (omega arith),
  ◌>>=◌,
)
  where
    cut : (namelen + valuelen) % 256 ≡ length nameval - 256
    cut = omega arith
