-- ===== src/HashTable/Size.antt =====
-- 5-9/hash_table_size.c: what `calculate_hash_table_size` returns.
use native.Mathlib.Nat.{mod-eq_of_lt, mul-le-mul, mul-le-mul_right, div-le_self}
use mac_os_x_internal.Prelude.{
  ℕ, suc, ◌*◌, ◌/◌, ◌^◌, ◌≤◌, ◌<◌, ◌≡◌, arith, min, max, pos, negsuc, ℤ, u32,
}
use mac_os_x_internal.HashTable.{
  rounded_memory, clamped_memory, apply_shift, at_least_min, calculate_hash_table_size,
}
use mac_os_x_internal.HashTable.Rounding.{rounded_memory_mono}

clamped_memory_lem : (m : ℕ) → clamped_memory m ≡ min (rounded_memory m) (2 ^ 37)
unfolding clamped_memory
clamped_memory_lem m = ground arith

-- Half of the product of the number of groups and the size of one, as 32-bit arithmetic has it.
half_product :
    (c g : ℕ) → c ≤ 2 ^ 37 → g ≤ 128 → u32 (u32 (c / 2 ^ 13) * g) / 2 ≡ c / 2 ^ 13 * g / 2
half_product c g le small =
    let few : c / 2 ^ 13 ≤ 2 ^ 24 = omega arith in
    let fits : c / 2 ^ 13 * g ≤ 2 ^ 24 * 128 = mul-le-mul few small in
    rw (
      mod-eq_of_lt {n = c / 2 ^ 13} {m = 2 ^ 32} (omega arith),
      mod-eq_of_lt {n = c / 2 ^ 13 * g} {m = 2 ^ 32} (omega arith),
    )

half_product-lt : (c g : ℕ) → c ≤ 2 ^ 37 → g ≤ 128 → c / 2 ^ 13 * g / 2 < 2 ^ 32
half_product-lt c g le small =
    let few : c / 2 ^ 13 ≤ 2 ^ 24 = omega arith in
    let fits : c / 2 ^ 13 * g ≤ 2 ^ 24 * 128 = mul-le-mul few small in omega arith

-- For a page table entry group of at most 128 bytes and no shift the 32-bit arithmetic is exact: the
-- size is half of one group for each 2 ^ 13 bytes of the rounded memory, of which at most 2 ^ 37 bytes
-- count, and at least 256 KB.
pub calculate_hash_table_size-exact :
    (m g : ℕ)
    → g ≤ 128
    → calculate_hash_table_size m g (pos 0)
      ≡ max (min (rounded_memory m) (2 ^ 37) / 2 ^ 13 * g / 2) (256 * 1024)
unfolding calculate_hash_table_size at_least_min apply_shift
calculate_hash_table_size-exact m g small = ground (
  arith,
  clamped_memory_lem m,
  half_product (clamped_memory m) g,
  half_product-lt (clamped_memory m) g,
)

-- For a group of at most 128 bytes and no shift, more memory (from 1 byte to 2 ^ 63) never gives a
-- smaller table.
pub calculate_hash_table_size_mono :
    (m n g : ℕ)
    → 0 < m
    → m ≤ n
    → n ≤ 2 ^ 63
    → g ≤ 128
    → calculate_hash_table_size m g (pos 0) ≤ calculate_hash_table_size n g (pos 0)
calculate_hash_table_size_mono m n g positive le top small =
    let grows = rounded_memory_mono m n positive le top in
    let more : min (rounded_memory m) (2 ^ 37) / 2 ^ 13 * g
        ≤ min (rounded_memory n) (2 ^ 37) / 2 ^ 13 * g =
      mul-le-mul_right g (omega arith) in
    rw (calculate_hash_table_size-exact m g small, calculate_hash_table_size-exact n g small)
      (omega arith)

-- Whatever the memory, the group size and the shift, the result is at least 256 KB and fits 32 bits.
pub calculate_hash_table_size_bounds :
    (m g : ℕ) (shift : ℤ)
    → (256 * 1024 ≤ calculate_hash_table_size m g shift)
      × (calculate_hash_table_size m g shift < 2 ^ 32)
unfolding calculate_hash_table_size at_least_min apply_shift
calculate_hash_table_size_bounds m g (pos s) = ground arith
calculate_hash_table_size_bounds m g (negsuc s) =
    ground (arith, div-le_self (u32 (u32 (clamped_memory m / 2 ^ 13) * g) / 2) (2 ^ suc s))
