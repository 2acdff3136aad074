-- ===== src/FileType/Agreement.antt =====
-- `get_file_type` of src/libxfuse/utils.rs on its two kinds of input.
use xfuse.Base.{ℕ, ◌+◌, ◌*◌, ◌^◌, ◌<◌, ◌≡◌, arith, ok}
use xfuse.FileType.{
  FileType, named_pipe, char_device, block_device, directory, regular_file, symlink, socket,
  of_type, of_mode, get_file_type,
}

-- The type byte that XFS writes in a directory entry, and the format bits of a mode, for a file type.
abbrev pub type_byte : FileType → ℕ
type_byte regular_file = 1
type_byte directory = 2
type_byte char_device = 3
type_byte block_device = 4
type_byte named_pipe = 5
type_byte socket = 6
type_byte symlink = 7

abbrev pub mode_bits : FileType → ℕ
mode_bits regular_file = 0o10
mode_bits directory = 0o04
mode_bits char_device = 0o02
mode_bits block_device = 0o06
mode_bits named_pipe = 0o01
mode_bits socket = 0o14
mode_bits symlink = 0o12

-- Whatever the permission bits are, the mode of a file and the type byte of its directory entry give
-- the same file type, and every file type is reached.
pub get_file_type_agrees :
    (t : FileType) (perm : ℕ)
    → perm < 2 ^ 12
    → (get_file_type (of_mode (mode_bits t * 2 ^ 12 + perm)) ≡ ok t)
      × (get_file_type (of_type (type_byte t)) ≡ ok t)
unfolding get_file_type
get_file_type_agrees named_pipe perm h = ground arith
get_file_type_agrees char_device perm h = ground arith
get_file_type_agrees block_device perm h = ground arith
get_file_type_agrees directory perm h = ground arith
get_file_type_agrees regular_file perm h = ground arith
get_file_type_agrees symlink perm h = ground arith
get_file_type_agrees socket perm h = ground arith
