-- ===== src/Tests/Listed.antt =====
-- The file of Tests/Files with its extent list: one block of data and one block of hole.
use xfuse.Base.{ℕ, zero, suc, ◌*◌, ◌<◌, ◌≡◌, refl, subst, false, some, [], ◌∷◌, arith, u64_mod}
use mathlib.Core.Option.{some-injective}
use xfuse.Sb.Address.{IsBlock}
use xfuse.Bmbt.{BmbtRec}
use xfuse.Bmbt.Extents.{mapped}
use xfuse.File.Listed.{IsLaidOut}
use xfuse.Tests.Files.{small_sb, dev}

abbrev pub data_block : BmbtRec
data_block = record { br_startoff = 0; br_startblock = 2; br_blockcount = 1; br_flag = false }

placed :
    (d f : ℕ) → mapped (data_block ∷ []) d ≡ some f → IsBlock small_sb f × (suc d * 512 < u64_mod)
placed zero f e = (
  subst (λ z. IsBlock small_sb z) (some-injective 2 f e)
      (record { group = omega arith; within = omega arith }),
  omega arith,
)
placed (suc d) f e = absurd (ground arith)

pub sparse-IsLaidOut : IsLaidOut small_sb dev 600 (data_block ∷ [])
sparse-IsLaidOut = record {
  geometry = record {
    blocklog_low = omega arith;
    blocklog_high = omega arith;
    agblklog_high = omega arith;
    agblocks_fit = omega arith;
    device_fits = omega arith;
  };
  block_bytes = refl;
  device_whole = omega arith;
  list = (
    (
      record {
        off_fits = omega arith;
        block_fits = omega arith;
        count_fits = omega arith;
        nonempty = omega arith;
      },
      tt,
      tt,
    ),
    (refl, tt),
  );
  on_device = λ d f e. (placed d f e).0;
  offsets_fit = λ d f e. (placed d f e).1;
  size_fits = omega arith;
}
