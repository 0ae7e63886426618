-- ===== src/HashTable.antt =====
-- 5-9: the size of the PowerPC page table (hash_table_size.c), and cntlzw.s that it calls.
pub mod Rounding
pub mod Size
mod Tests
use mac_os_x_internal.Prelude.{
  ℕ, zero, suc, ◌+◌, ◌-◌, ◌*◌, ◌/◌, ◌%◌, ◌^◌, ℤ, pos, negsuc, u32, u64, leb, ltb, ◌==◌, not,
  if◌then◌else◌, pattern_of,
}

-- The zero bits above the highest one among the lowest `k` bits.
leading_zeros : ℕ → ℕ → ℕ
leading_zeros zero n = 0
leading_zeros (suc k) n = let rest = leading_zeros k n in if leb (2 ^ k) n then 0 else suc rest

-- cntlzw.s: the instruction counts the leading zeros of a 32-bit word.
unfoldable pub cntlzw : ℕ → ℕ
unfolding leading_zeros
cntlzw n = leading_zeros 32 n

-- `(msize << 1) - 1` on `uint64_t`.
abbrev pub doubled_less_one : ℕ → ℕ
doubled_less_one msize = u64 (u64 (msize * 2) + 2 ^ 64 - 1)

-- The two steps that set `nbits`: the upper half of the number, then the lower half.
pub leading_bits : ℕ → ℕ
leading_bits d =
    let nbits = cntlzw (u32 (d / 2 ^ 32)) in if nbits == 32 then nbits + cntlzw (u32 d) else nbits

-- `0x8000000000000000ULL >> nbits`.
pub rounded_memory : ℕ → ℕ
rounded_memory msize = 2 ^ 63 / 2 ^ leading_bits (doubled_less_one msize)

pub clamped_memory : ℕ → ℕ
clamped_memory msize =
    if ltb 0x0000002000000000 (rounded_memory msize)
    then 0x0000002000000000
    else rounded_memory msize

-- `hash_table_size <<= shift` or `>>= -shift`, on a 32-bit `vm_size_t`.
pub apply_shift : ℕ → ℤ → ℕ
apply_shift size (pos s) = u32 (size * 2 ^ s)
apply_shift size (negsuc s) = size / 2 ^ suc s

abbrev pub min_size : ℕ
min_size = 256 * 1024

pub at_least_min : ℕ → ℕ
at_least_min size = if ltb size min_size then min_size else size

-- `pf_pteg` is the size of a page table entry group, a bit pattern of 32 bits.
pub calculate_hash_table_size : ℕ → ℕ → ℤ → ℕ
calculate_hash_table_size msize pf_pteg hash_table_shift =
    let recommended = u32 (u32 (clamped_memory msize / 2 ^ (12 + 1)) * pf_pteg) in
    at_least_min (apply_shift (recommended / 2) hash_table_shift)

abbrev pub pteg_size_g5 : ℕ
pteg_size_g5 = 128

pub data Report : Type 0 where
  usage : Report
  sizes : ℕ → ℕ → Report

-- `main`: the argument count, and the value of `atoi(argv[1])`.
pub main : ℕ → ℤ → Report
main argc megabytes =
    if not (argc == 2)
    then usage
    else let htsize =
        calculate_hash_table_size (u64 (pattern_of 64 megabytes * 2 ^ 20)) pteg_size_g5 (pos 0) in
      sizes htsize (htsize / 2 ^ 20)
