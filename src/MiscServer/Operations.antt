-- ===== src/MiscServer/Operations.antt =====
-- 9-28/server.c: what the exported operations compute.
use native.Mathlib.Nat.{mul_comm, zero-add}
use mac_os_x_internal.Prelude.{
  ℕ, zero, suc, ◌+◌, ◌-◌, ◌*◌, ◌≤◌, ◌≡◌, ◌≢◌, refl, arith, true, List, [], ◌∷◌, none, some, leb,
  dec_lt, if◌then◌else◌, ℤ, pos, negsuc,
}
use mac_os_x_internal.Prelude.Products.{product_to, product_to_small, product_to_thirteen}
use mac_os_x_internal.MiscServer.{success, count_bytes, string_length, factorial_loop, factorial}

-- The string ends before index `n`, and not earlier.
abbrev pub EndsAt : List ℕ → ℕ → Type 0
EndsAt [] n = ⊥
EndsAt (c ∷ bytes) zero = c ≡ 0
EndsAt (c ∷ bytes) (suc n) = (c ≢ 0) × EndsAt bytes n

count_bytes_lem :
    (bytes : List ℕ) (len n : ℕ) → EndsAt bytes n → count_bytes bytes len ≡ some (len + n)
unfolding count_bytes
count_bytes_lem [] len n ends = absurd ends
count_bytes_lem (c ∷ bytes) len zero ends = ground arith
count_bytes_lem (c ∷ bytes) len (suc n) (more, ends) =
    ground (arith, count_bytes_lem bytes (len + 1) n ends)

-- The length of a string that ends among its bytes is the number of bytes before its first zero.
pub string_length_lem :
    (bytes : List ℕ) (n : ℕ) → EndsAt bytes n → string_length (some bytes) true ≡ some (success n)
unfolding string_length
string_length_lem bytes n ends = ground (arith, count_bytes_lem bytes 0 n ends)

product_to_step : (i : ℕ) → product_to i * (i + 1) ≡ product_to (i + 1)
unfolding product_to
product_to_step i =
    let moved : i + 1 ≡ suc i = omega arith in rw moved (mul_comm (product_to i) (suc i))

factorial_loop_lem :
    (rounds i : ℕ)
    → i ≤ 12
    → factorial_loop rounds (i + 1) (product_to i)
      ≡ (if leb (rounds + i) 12 then some (product_to (rounds + i)) else none)
unfolding factorial_loop
factorial_loop_lem zero i small = rw zero-add (ground arith)
factorial_loop_lem (suc rounds) i small = elim (dec_lt i 12) [
  | yes below ↦
      let moved : suc rounds + i ≡ rounds + (i + 1) = omega arith in
      rw moved (
        ground
          (arith, product_to_step i, product_to_small (i + 1), factorial_loop_lem rounds (i + 1)))
  | no top ↦
      let last : i ≡ 12 = omega arith in
      rw last (ground (arith, product_to_step 12, product_to_thirteen))
]

-- The factorial of a number from 0 to 12 is the product of the numbers up to it; from 13 on, the product does not fit an `int`, and
-- the multiplication is undefined. A negative number has the factorial 1.
pub factorial_lem :
    (num : ℤ)
    → factorial num true ≡ elim num [
      | pos n ↦ if leb n 12 then some (success (product_to n)) else none
      | negsuc n ↦ some (success 1)
    ]
unfolding factorial factorial_loop product_to
factorial_lem (negsuc n) = refl
factorial_lem (pos zero) = ground arith
factorial_lem (pos (suc n)) =
    let rounds : suc n - 1 ≡ n = omega arith in
    let total : n + 1 ≡ suc n = omega arith in
    let result : factorial_loop n 2 1
        ≡ (if leb (suc n) 12 then some (product_to (suc n)) else none) =
      rw total at (factorial_loop_lem n 1 (omega arith)) in
    rw rounds (ground (arith, result))
