-- ===== src/FileType.antt =====
-- src/libxfuse/utils.rs: the file type of a directory entry or of an inode's mode.
pub mod Agreement
use xfuse.Base.{ℕ, ◌*◌, ◌/◌, ◌^◌, ◌==◌, if◌then◌else◌, Outcome, ok, err}

-- fuser's `FileType`.
pub data FileType : Type 0 where
  named_pipe char_device block_device directory regular_file symlink socket : FileType

pub data FileKind : Type 0 where
  of_type : ℕ → FileKind
  of_mode : ℕ → FileKind

abbrev pub enoent : ℕ
enoent = 2

-- `mode & S_IFMT` for a 16-bit mode: the mask is 0o170000, the four high bits.
abbrev pub format_bits : ℕ → ℕ
format_bits mode = mode / 2 ^ 12 * 2 ^ 12

unfoldable pub type_of_byte : ℕ → Outcome ℕ FileType
type_of_byte t =
    if t == 1
    then ok regular_file
    else if t == 2
    then ok directory
    else if t == 7
    then ok symlink
    else if t == 6
    then ok socket
    else if t == 3
    then ok char_device
    else if t == 4
    then ok block_device
    else if t == 5
    then ok named_pipe
    else err enoent

unfoldable pub type_of_mode : ℕ → Outcome ℕ FileType
type_of_mode mode =
    let m = format_bits mode in
    if m == 0o100000
    then ok regular_file
    else if m == 0o040000
    then ok directory
    else if m == 0o120000
    then ok symlink
    else if m == 0o140000
    then ok socket
    else if m == 0o020000
    then ok char_device
    else if m == 0o060000
    then ok block_device
    else if m == 0o010000
    then ok named_pipe
    else err enoent

unfoldable pub get_file_type : FileKind → Outcome ℕ FileType
unfolding type_of_byte type_of_mode
get_file_type (of_type t) = type_of_byte t
get_file_type (of_mode m) = type_of_mode m
