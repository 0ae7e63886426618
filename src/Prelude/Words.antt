-- ===== src/Prelude/Words.antt =====
-- Words of a fixed width, and the signed numbers of C's `int`.
use Prim.Native.Nat.{ℕ, suc, ◌-◌, ◌/◌, ◌%◌, ◌^◌}
use mathlib.Core.Bool.{Bool, true, false}
use mac_os_x_internal.Prelude.Tests.{leb, ◌==◌, if◌then◌else◌}

-- The casts `(u_int32_t)x` and `(u_int64_t)x` of a number that is not negative.
abbrev pub u32 : ℕ → ℕ
u32 n = n % 2 ^ 32

abbrev pub u64 : ℕ → ℕ
u64 n = n % 2 ^ 64

-- `negsuc n` is -(n + 1).
pub data ℤ : Type 0 where
  pos : ℕ → ℤ
  negsuc : ℕ → ℤ

-- The bit pattern of an `int` in an unsigned word of `w` bits.
abbrev pub pattern_of : ℕ → ℤ → ℕ
pattern_of w (pos n) = n % 2 ^ w
pattern_of w (negsuc n) = (2 ^ w - suc n % 2 ^ w) % 2 ^ w

abbrev pub is_neg : ℤ → Bool
is_neg (pos n) = false
is_neg (negsuc n) = true

-- Bit `i` of a word: `u & (1 << i)` is not zero.
abbrev pub test_bit : ℕ → ℕ → Bool
test_bit u i = leb 1 (u / 2 ^ i % 2)

-- A memory of words, one written.
abbrev pub update {ℓ} : {A : Type ℓ} → (ℕ → A) → ℕ → A → ℕ → A
update f a v x = if x == a then v else f x
