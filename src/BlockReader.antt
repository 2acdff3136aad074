-- ===== src/BlockReader.antt =====
-- src/libxfuse/block_reader.rs: reads of whole sectors from the device, buffered. The device is a file
-- of the standard library: its bytes and a stream position; `read_exact` past the end is an error.
pub mod Position
pub mod Reads
pub mod Seeks
pub mod Buffer
use xfuse.Base.{
  ℕ, zero, suc, ◌+◌, ◌-◌, ◌*◌, ◌/◌, ◌%◌, ◌^◌, List, [], ◌∷◌, ◌++◌, Option, none, some, not, ◌&&◌,
  ltb, leb, ◌==◌, if◌then◌else◌, length, take, drop, replicate, add64, sub64, Outcome, ok, err,
  panic, ◌>>=◌, ◌>>◌, assert,
}
use xfuse.Codec.{Bytes}

pub data IoError : Type 0 where
  unexpected_eof einval : IoError

pub record BlockReader : Type 0 where
  pub file : Bytes
  -- The stream position of `file`.
  pub position : ℕ
  pub block : Bytes
  pub idx : ℕ
  pub sectorsize : ℕ

-- `SeekFrom`; the offset of `current` is the bit pattern of an i64.
pub data SeekFrom : Type 0 where
  start current ending : ℕ → SeekFrom

abbrev pub Io : Type 0 → Type 0
Io A = Outcome IoError (A × BlockReader)

-- `a & b` on 64-bit words, the low `bits` of them.
unfoldable pub bit_and : ℕ → ℕ → ℕ → ℕ
bit_and zero a b = 0
bit_and (suc bits) a b = (a % 2) * (b % 2) + 2 * bit_and bits (a / 2) (b / 2)

-- `open`, from the file and its `blksize` on.
abbrev pub open_reader : Bytes → ℕ → BlockReader
open_reader file sectorsize = record {
  file = file;
  position = 0;
  block = replicate sectorsize 0;
  idx = sectorsize;
  sectorsize = sectorsize;
}

abbrev pub bufsize : BlockReader → ℕ
bufsize s = length s.block

abbrev pub buffered : BlockReader → ℕ
buffered s = bufsize s - s.idx

unfoldable pub refill : BlockReader → Outcome IoError BlockReader
refill s =
    let end = s.position + bufsize s in
    if leb end (length s.file)
    then ok
        (record s { block = take (bufsize s) (drop s.position s.file); position = end; idx = 0 })
    else err unexpected_eof

unfoldable pub refill_if_empty : BlockReader → Outcome IoError BlockReader
unfolding refill
refill_if_empty s = if buffered s == 0 then refill s else ok s

-- `Vec::resize(n, 0)`.
abbrev pub resize : Bytes → ℕ → Bytes
resize block n = take n block ++ replicate (n - length block) 0

unfoldable pub set_bufsize : BlockReader → ℕ → BlockReader
set_bufsize s size =
    let remainder = bit_and 64 size (sub64 s.sectorsize 1) in
    let size' = if ltb 0 remainder then sub64 (add64 size s.sectorsize) remainder else size in
    record s { block = resize s.block size'; idx = size' }

-- `Read::read` into a buffer of `len` bytes: what is read is returned.
unfoldable pub read : BlockReader → ℕ → Io Bytes
unfolding refill_if_empty
read s len = do
  s1 ← refill_if_empty s
  let num = if leb len (buffered s1) then len else buffered s1
  ok (take num (drop s1.idx s1.block), record s1 { idx = s1.idx + num })

-- `BufRead::fill_buf` and `BufRead::consume`.
unfoldable pub fill_buf : BlockReader → Io Bytes
unfolding refill_if_empty
fill_buf s = do s1 ← refill_if_empty s; ok (drop s1.idx s1.block, s1)

unfoldable pub consume : BlockReader → ℕ → Outcome IoError BlockReader
consume s amt = do assert (leb amt (buffered s)); ok (record s { idx = s.idx + amt })

-- `SeekFrom::Start`.
unfoldable pub seek_start : BlockReader → ℕ → Io ℕ
unfolding refill
seek_start s pos = do
  let bs = bufsize s
  assert (not (bs == 0))
  let real = pos / bs * bs
  let rem = pos - real
  assert (ltb rem bs)
  s1 ← refill (record s { position = real })
  ok (real + rem, record s1 { idx = rem })

unfoldable pub seek : BlockReader → SeekFrom → Io ℕ
unfolding seek_start
seek s (start pos) = seek_start s pos
seek s (current offset) =
    let cur = add64 (sub64 s.position (bufsize s)) s.idx in
    let newidx = add64 offset s.idx in
    if ltb newidx (2 ^ 63) && ltb newidx (bufsize s)
    then ok (add64 (sub64 s.position (bufsize s)) newidx, record s { idx = newidx })
    else if leb (2 ^ 63) (add64 cur offset)
    then err einval
    else seek_start s (add64 cur offset)
seek s (ending offset) = panic

-- `Reader::read`, that is `Read::read_exact`: `read` until the buffer is full; a read of no bytes is
-- the end. Each round but the last fills a byte, so that `fuel` of the buffer's length is enough.
unfoldable pub read_rounds : ℕ → BlockReader → ℕ → Io Bytes
unfolding read
read_rounds zero s len = if len == 0 then ok ([], s) else err unexpected_eof
read_rounds (suc fuel) s len = if len == 0 then ok ([], s) else (do
  (bytes, s1) ← read s len
  if length bytes == 0
      then err unexpected_eof
      else (do (more, s2) ← read_rounds fuel s1 (len - length bytes); ok (bytes ++ more, s2)))

unfoldable pub read_exact : BlockReader → ℕ → Io Bytes
unfolding read_rounds
read_exact s len = read_rounds len s len

-- `peek_read`.
abbrev pub peek_read : BlockReader → ℕ → Option Bytes
peek_read s n =
    if leb n (length (drop s.idx s.block)) then some (take n (drop s.idx s.block)) else none
