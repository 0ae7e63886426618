-- ===== src/HashTable/Rounding.antt =====
-- 5-9/hash_table_size.c: the memory size is rounded up to a power of two.
use native.Mathlib.Nat.{
  two-pow-succ, div-eq_of_eq-mul_left, pow-le-pow_right, pow-zero, zero-add, suc-add, one-le-pow,
}
use mac_os_x_internal.Prelude.{
  ℕ, zero, suc, ◌+◌, ◌-◌, ◌*◌, ◌/◌, ◌^◌, ◌≤◌, ◌<◌, ◌≡◌, refl, arith, leb, Bool-cases, inl, inr, u32,
  dec_lt,
}
use mac_os_x_internal.HashTable.{
  leading_zeros, cntlzw, leading_bits, rounded_memory, doubled_less_one,
}

-- The highest set bit of a word of `k` bits stands at `e`, below `c` leading zeros.
leading_zeros_highest :
    (k n : ℕ)
    → 0 < n
    → n < 2 ^ k
    → (e : ℕ) × (leading_zeros k n + suc e ≡ k) × (2 ^ e ≤ n) × (n < 2 ^ suc e)
unfolding leading_zeros
leading_zeros_highest zero n pos lt = absurd (omega arith)
leading_zeros_highest (suc k) n pos lt = elim (Bool-cases (leb (2 ^ k) n)) [
  | inl high ↦ (k, rw high (omega arith), ground arith, lt)
  | inr low ↦
      let (e, sum, above, below) = leading_zeros_highest k n pos (ground arith) in
      (e, rw low (omega (arith, sum)), above, below)
]

pub pow-add : (a b : ℕ) → 2 ^ (a + b) ≡ 2 ^ a * 2 ^ b
pow-add zero b = rw (zero-add, pow-zero) (omega arith)
pow-add (suc a) b = rw (suc-add, two-pow-succ, two-pow-succ, pow-add a b) (omega arith)

-- The highest bit of a number of 64 bits from that of its upper half.
high_half :
    (d e : ℕ)
    → 2 ^ e ≤ d / 2 ^ 32
    → d / 2 ^ 32 < 2 ^ suc e
    → (2 ^ (e + 32) ≤ d) × (d < 2 ^ suc (e + 32))
high_half d e lo hi = omega (arith, pow-add e 32, two-pow-succ (e + 32), two-pow-succ e)

doubled_less_one_lem : (m : ℕ) → 0 < m → m ≤ 2 ^ 63 → doubled_less_one m ≡ 2 * m - 1
doubled_less_one_lem m pos le = omega arith

cntlzw_zero : cntlzw 0 ≡ 32
unfolding cntlzw
cntlzw_zero = refl

cntlzw_highest :
    (n : ℕ) → 0 < n → n < 2 ^ 32 → (e : ℕ) × (cntlzw n + suc e ≡ 32) × (2 ^ e ≤ n) × (n < 2 ^ suc e)
unfolding cntlzw
cntlzw_highest = leading_zeros_highest 32

-- `nbits` counts the zeros above the highest bit of a number of 64 bits that is not 0.
pub leading_bits_highest :
    (d : ℕ)
    → 0 < d
    → d < 2 ^ 64
    → (e : ℕ) × (leading_bits d + e ≡ 63) × (2 ^ e ≤ d) × (d < 2 ^ suc e)
unfolding leading_bits
leading_bits_highest d pos lt = elim (dec_lt 0 (d / 2 ^ 32)) [
  | yes p ↦
      let (e, sum, above, below) = cntlzw_highest (u32 (d / 2 ^ 32)) (omega arith) (omega arith) in
      let (low, high) = high_half d e (omega arith) (omega arith) in
      (e + 32, ground arith, low, high)
  | no p ↦
      let (e, sum, above, below) = cntlzw_highest (u32 d) (omega arith) (omega arith) in
      let upper : u32 (d / 2 ^ 32) ≡ 0 = omega arith in
      (e, rw (upper, cntlzw_zero) (omega arith), omega arith, omega arith)
]

-- A memory size from 1 to 2 ^ 63 is rounded up to the least power of two that is at least as large.
pub rounded_memory_least :
    (m : ℕ)
    → 0 < m
    → m ≤ 2 ^ 63
    → (e : ℕ) × (e ≤ 63) × (rounded_memory m ≡ 2 ^ e) × (m ≤ 2 ^ e) × (2 ^ e < 2 * m)
unfolding rounded_memory
rounded_memory_least m pos le =
    let (e, sum, above, below) =
      leading_bits_highest (doubled_less_one m) (omega arith) (omega arith) in
    let n = leading_bits (doubled_less_one m) in
    let order : e + n ≡ 63 = omega (arith, sum) in
    let split : 2 ^ 63 ≡ 2 ^ e * 2 ^ n = rw (← pow-add e n, order) in
    (
      e,
      omega arith,
      div-eq_of_eq-mul_left (one-le-pow n 2 (omega arith)) split,
      omega (arith, doubled_less_one_lem m, two-pow-succ e),
      omega (arith, doubled_less_one_lem m),
    )

-- From 1 to 2 ^ 63, a larger memory is never rounded to a smaller power of two.
pub rounded_memory_mono :
    (m n : ℕ) → 0 < m → m ≤ n → n ≤ 2 ^ 63 → rounded_memory m ≤ rounded_memory n
rounded_memory_mono m n pos le top =
    let (e, _, eq, _, below) = rounded_memory_least m pos (omega arith) in
    let (f, _, eq', above, _) = rounded_memory_least n (omega arith) top in
    elim (dec_lt f e) [
      | yes less ↦
          let step : 2 ^ suc f ≤ 2 ^ e = pow-le-pow_right (omega arith) less in
          absurd (omega (arith, two-pow-succ f))
      | no more ↦
          let step : 2 ^ e ≤ 2 ^ f = pow-le-pow_right (omega arith) (omega arith) in
          omega (arith, eq, eq')
    ]
