-- ===== src/Tests/Directories.antt =====
-- src/libxfuse/dir3.rs and src/libxfuse/dir3_sf.rs: a directory of two files.
use xfuse.Base.{◌-◌, ◌^◌, ◌≡◌, refl, false, some, [], ◌∷◌, ◌++◌, arith, ok, err}
use xfuse.Codec.{slice_reader, slice_reader-IsBigEndian}
use xfuse.FileType.{enoent, regular_file, get_file_type}
use xfuse.Tests.Superblock.{sb}
use xfuse.Sb.{has_ftype}
use xfuse.Dir.Sf.{Dir2SfEntry, new_entry, dot, dot_dot, ft_dir, get_dir2_sf, next, kind_of}
use xfuse.Volume.Readdir.{readdir_loop, readdir_loop_lem}
use xfuse.Dir.SfLaws.{IsEntry, encode_sf, get_dir2_sf-encode_sf}

abbrev file_a : Dir2SfEntry
file_a = record { offset = 96; name = b'a' ∷ []; ftype = some 1; inumber = 131 }

abbrev file_b : Dir2SfEntry
file_b = record { offset = 112; name = b'b' ∷ []; ftype = some 1; inumber = 132 }

a-IsEntry : IsEntry sb 4 file_a
unfolding has_ftype
a-IsEntry = record {
  name_fits = omega arith;
  offset_fits = omega arith;
  ftype_fits = (refl, omega arith);
  ino_fits = omega arith;
}

b-IsEntry : IsEntry sb 4 file_b
unfolding has_ftype
b-IsEntry = record {
  name_fits = omega arith;
  offset_fits = omega arith;
  ftype_fits = (refl, omega arith);
  ino_fits = omega arith;
}

get_dir2_sf-encode_sf_example :
    get_dir2_sf slice_reader sb (encode_sf 0 128 (file_a ∷ file_b ∷ []) ++ [])
    ≡ ok (
      new_entry dot ft_dir 1 (2 ^ 64 - 1) ∷ new_entry dot_dot ft_dir 2 128 ∷ file_a ∷ file_b ∷ [],
      [],
    )
get_dir2_sf-encode_sf_example =
    get_dir2_sf-encode_sf slice_reader-IsBigEndian sb 0 128 (file_a ∷ file_b ∷ []) [] (omega arith)
      (omega arith) (omega arith) (a-IsEntry, (b-IsEntry, tt))

b_kind : kind_of file_b.ftype ≡ ok (some regular_file)
unfolding get_file_type
b_kind = refl

-- `readdir` behind file "a".
readdir_loop_lem_example :
    readdir_loop 128 (λ ino. err enoent) (λ reply x. false) (next (file_a ∷ file_b ∷ [])) 2 96 []
    ≡ ok (record { ino = 132; offset = 112; kind = regular_file; name = b'b' ∷ [] } ∷ [])
readdir_loop_lem_example =
    readdir_loop_lem 128 (λ ino. err enoent) (λ reply x. false) (λ reply x. refl)
      ((file_b, regular_file) ∷ []) 2 96 (file_a ∷ []) (omega arith) (omega arith, tt)
      (omega arith, omega arith, b_kind, tt) (omega arith)
