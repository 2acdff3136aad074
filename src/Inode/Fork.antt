-- ===== src/Inode/Fork.antt =====
-- Where the B+tree pointers of an inode stand (src/libxfuse/dinode_core.rs), against the kernel's
-- rule: a root of `size` bytes has room for `(size - 4) / 16` records, and the pointers follow the
-- keys of all of them.
use xfuse.Base.{
  ℕ, ◌+◌, ◌-◌, ◌*◌, ◌/◌, ◌%◌, ◌^◌, ◌≤◌, ◌<◌, ◌≡◌, ◌⊎◌, inl, inr, false, arith, ok, ◌==◌,
  if◌then◌else◌, add64, sub64, mul64, add64_small, sub64_small, mul64_small, ap, Bool-cases, ==_iff,
}
use xfuse.Inode.{
  DinodeCore, literal_area_offset, dfork_btree_ptr_gap, afork_btree_ptr_gap, bmdr_size, key_size,
  round_up,
}

abbrev pub max_records : ℕ → ℕ
max_records size = (size - 4) / 16

-- The bytes between the last of `n` keys and the first pointer.
abbrev pub ptr_gap : ℕ → ℕ → ℕ
ptr_gap size n = 8 * (max_records size - n)

abbrev pub literal : ℕ → ℕ
literal version = if version == 3 then 0xb0 else 0x64

abbrev pub dfork_size : DinodeCore → ℕ → ℕ
dfork_size d inode_size =
    if d.di_forkoff == 0 then inode_size - literal d.di_version else d.di_forkoff * 8

abbrev pub afork_size : DinodeCore → ℕ → ℕ
afork_size d inode_size = inode_size - literal d.di_version - d.di_forkoff * 8

-- The inode sizes of the format: a multiple of 16 from 256 up.
pub record IsInode (d : DinodeCore) (inode_size : ℕ) : Type 0 where
  pub version : (d.di_version ≡ 2) ⊎ (d.di_version ≡ 3)
  pub rounded : inode_size % 16 ≡ 0
  pub large : 256 ≤ inode_size
  pub small : inode_size < 2 ^ 16
  pub forkoff_fits : literal d.di_version + d.di_forkoff * 8 ≤ inode_size

round_up_lem : (n : ℕ) → n < 2 ^ 32 → round_up n ≡ (n + 7) / 8 * 8
round_up_lem n h = elim (Bool-cases (n % 8 == 0)) [
  | inl t ↦ rw t (divides ((==_iff (n % 8) 0).0 t))
  | inr f ↦ rw f (rounded f)
]
  where
    divides : n % 8 ≡ 0 → n ≡ (n + 7) / 8 * 8
    divides z = omega arith

    rounded : (n % 8 == 0) ≡ false → sub64 (add64 n 8) (n % 8) ≡ (n + 7) / 8 * 8
    rounded f =
        (rw (add64_small n 8 (omega arith), sub64_small (n + 8) (n % 8) (omega arith) (omega arith))
          (ground arith))

-- The gap that is left of `space` bytes after `n` keys, rounded down.
rest :
    (space size n : ℕ)
    → space < 2 ^ 32
    → 1 ≤ n
    → n ≤ max_records size
    → (space - bmdr_size) / 8 ≡ max_records size
    → let gap = sub64 (sub64 space bmdr_size) (mul64 n key_size) in
      sub64 gap (gap % 8) ≡ ptr_gap size n
rest space size n lt one max half =
    rw
      (
        sub64_small space 4 (omega arith) (omega arith),
        mul64_small n 8 (omega arith),
        sub64_small (space - 4) (n * 8) (omega arith) (omega arith),
        sub64_small (space - 4 - n * 8) ((space - 4 - n * 8) % 8) (omega arith) (omega arith),
      )
      (omega arith)

down : (n : ℕ) → n - n % 8 ≡ n / 8 * 8
down n = omega arith

afork_numbers :
    (lit k inode_size n : ℕ)
    → (lit ≡ 0x64) ⊎ (lit ≡ 0xb0)
    → inode_size % 16 ≡ 0
    → lit + k * 8 ≤ inode_size
    → 1 ≤ n
    → n ≤ max_records (inode_size - lit - k * 8)
    → let fork = (lit + k * 8) / 8 * 8 in
      ((inode_size - fork) / 2 + fork + 7) / 8 * 8 - fork
      ≡ (4 + n * 8 + 7) / 8 * 8 + ptr_gap (inode_size - lit - k * 8) n
afork_numbers lit k inode_size n (inl e) m fits one max = omega arith
afork_numbers lit k inode_size n (inr e) m fits one max = omega arith

pub literal_lem :
    (d : DinodeCore)
    → (d.di_version ≡ 2) ⊎ (d.di_version ≡ 3)
    → literal_area_offset d ≡ ok (literal d.di_version)
unfolding literal_area_offset
literal_lem d (inl two) = rw two
literal_lem d (inr three) = rw three

literal_mod :
    (d : DinodeCore)
    → (d.di_version ≡ 2) ⊎ (d.di_version ≡ 3)
    → (literal d.di_version ≡ 0x64) ⊎ (literal d.di_version ≡ 0xb0)
literal_mod d (inl two) = inl (rw two)
literal_mod d (inr three) = inr (rw three)

half_literal :
    (lit inode_size : ℕ)
    → (lit ≡ 0x64) ⊎ (lit ≡ 0xb0)
    → inode_size % 16 ≡ 0
    → 256 ≤ inode_size
    → ((inode_size - lit) / 2 - bmdr_size) / 8 ≡ max_records (inode_size - lit)
half_literal lit inode_size (inl e) m le = rw e (omega arith)
half_literal lit inode_size (inr e) m le = rw e (omega arith)

-- For inode versions 2 and 3, inode sizes that are multiples of 16 from 256 up and below 2^16, and
-- with or without an attribute fork, the gap of the data fork puts the pointers of a root of at
-- least one record, and no more than fit, where the kernel's rule puts them.
pub dfork_btree_ptr_gap_lem :
    (d : DinodeCore) (inode_size n : ℕ)
    → IsInode d inode_size
    → 1 ≤ n
    → n ≤ max_records (dfork_size d inode_size)
    → dfork_btree_ptr_gap d inode_size n ≡ ok (ptr_gap (dfork_size d inode_size) n)
unfolding dfork_btree_ptr_gap
dfork_btree_ptr_gap_lem d inode_size n h one max =
    let lit = literal d.di_version in
    elim (Bool-cases (d.di_forkoff == 0)) [
      | inl t ↦
          let max' : n ≤ max_records (inode_size - lit) = (rw t at max) in
          rw (
            t,
            literal_lem d h.version,
            sub64_small inode_size lit (omega arith) (omega arith),
            rest ((inode_size - lit) / 2) (inode_size - lit) n (omega arith) one max'
                (half_literal lit inode_size (literal_mod d h.version) h.rounded h.large),
          )
      | inr f ↦
          let max' : n ≤ max_records (d.di_forkoff * 8) = (rw f at max) in
          rw (
            f,
            mul64_small d.di_forkoff 8 (omega arith),
            round_up_lem (d.di_forkoff * 8 / 2) (omega arith),
            rest ((d.di_forkoff * 8 / 2 + 7) / 8 * 8) (d.di_forkoff * 8) n (omega arith) one max'
                (omega arith),
          )
    ]

-- For inode versions 2 and 3 and inode sizes that are multiples of 16 from 256 up and below 2^16,
-- the gap of the attribute fork, which ends with the inode, puts the pointers of a root of at least
-- one record, and no more than fit, where the kernel's rule puts them.
pub afork_btree_ptr_gap_lem :
    (d : DinodeCore) (inode_size n : ℕ)
    → IsInode d inode_size
    → 1 ≤ n
    → n ≤ max_records (afork_size d inode_size)
    → afork_btree_ptr_gap d inode_size n ≡ ok (ptr_gap (afork_size d inode_size) n)
unfolding afork_btree_ptr_gap
afork_btree_ptr_gap_lem d inode_size n h one max =
    let lit = literal d.di_version in
    let ofs = lit + d.di_forkoff * 8 in
    let fork = ofs / 8 * 8 in
    let middle = (inode_size - fork) / 2 + fork in
    let numbers =
      afork_numbers lit d.di_forkoff inode_size n (literal_mod d h.version) h.rounded h.forkoff_fits
        one max in
    rw
      (
        literal_lem d h.version,
        mul64_small n 8 (omega arith),
        add64_small 4 (n * 8) (omega arith),
        round_up_lem (4 + n * 8) (omega arith),
        mul64_small d.di_forkoff 8 (omega arith),
        add64_small lit (d.di_forkoff * 8) (omega arith),
        sub64_small ofs (ofs % 8) (omega arith) (omega arith),
        down ofs,
        sub64_small inode_size fork (omega arith) (omega arith),
        add64_small ((inode_size - fork) / 2) fork (omega arith),
        round_up_lem middle (omega arith),
        sub64_small ((middle + 7) / 8 * 8) fork (omega arith) (omega arith),
        numbers,
        sub64_small ((4 + n * 8 + 7) / 8 * 8 + ptr_gap (inode_size - lit - d.di_forkoff * 8) n)
            ((4 + n * 8 + 7) / 8 * 8) (omega arith) (omega arith),
      )
      (ap ok (omega arith))
