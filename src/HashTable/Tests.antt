-- ===== src/HashTable/Tests.antt =====
-- 5-9/hash_table_size.c at concrete inputs.
use mac_os_x_internal.Prelude.{◌*◌, ◌/◌, ◌^◌, ◌≡◌, arith, min, max, refl, pos}
use mac_os_x_internal.HashTable.{
  calculate_hash_table_size, main, sizes, at_least_min, apply_shift, clamped_memory, rounded_memory,
  leading_bits, cntlzw,
}
use mac_os_x_internal.HashTable.Size.{calculate_hash_table_size-exact}

-- With 4 GB of memory the table has 32 MB.
four_gigabytes : main 2 (pos 4096) ≡ sizes (2 ^ 25) 32
unfolding main calculate_hash_table_size at_least_min apply_shift clamped_memory rounded_memory
    leading_bits cntlzw
four_gigabytes = refl

calculate_hash_table_size-exact_example :
    calculate_hash_table_size (2 ^ 32) 128 (pos 0)
    ≡ max (min (rounded_memory (2 ^ 32)) (2 ^ 37) / 2 ^ 13 * 128 / 2) (256 * 1024)
calculate_hash_table_size-exact_example = calculate_hash_table_size-exact (2 ^ 32) 128 (omega arith)
