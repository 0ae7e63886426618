-- ===== src/Prelude/Products.antt =====
-- Products of C's `int`, and the factorials that fit one.
use Prim.Native.Nat.{ℕ, zero, suc, ◌-◌, ◌*◌, ◌^◌, ◌≤◌, ◌<◌}
use mathlib.Core.Path.{◌≡◌, refl}
use mathlib.Core.Bool.{true}
use mac_os_x_internal.Prelude.{
  Option, none, some, arith, all_below, all_below-apply, leb, leb→le, if◌then◌else◌,
}

-- `INT_MAX`.
abbrev pub int_max : ℕ
int_max = 2 ^ 31 - 1

-- A result of `int` arithmetic, `none` where it overflows and is undefined.
abbrev pub as_int : ℕ → Option ℕ
as_int n = if leb n int_max then some n else none

-- The product of the numbers from 1 to `n`.
unfoldable pub product_to : ℕ → ℕ
product_to zero = 1
product_to (suc n) = suc n * product_to n

small_table : all_below 13 (λ n. leb (product_to n) int_max) ≡ true
unfolding all_below product_to
small_table = refl

pub product_to_small : (n : ℕ) → n ≤ 12 → product_to n ≤ int_max
product_to_small n h =
    leb→le _ _ (all_below-apply 13 (λ n. leb (product_to n) int_max) n small_table (omega arith))

pub product_to_thirteen : int_max < product_to 13
unfolding product_to
product_to_thirteen = omega arith
