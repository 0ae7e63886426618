-- ===== src/Bits.antt =====
-- The bits of a word as text: 6-51/vmachmon32.c (prbits32) and 6-28/commpage32.c (print_bits32,
-- print_cpu_capabilities).
pub mod Print
pub mod Capabilities
mod Tests
use mac_os_x_internal.Prelude.{
  ℕ, zero, suc, ◌+◌, ◌*◌, ◌/◌, ◌%◌, ◌^◌, Bool, true, false, ◌&&◌, List, [], ◌∷◌, ◌++◌, leb,
  if◌then◌else◌, test_bit, Option, none, some,
}

-- `putchar(u & 1 << i ? '1' : '0')`.
pub bit_char : ℕ → ℕ → ℕ
bit_char u i = if test_bit u i then b'1' else b'0'

-- Both loops of `prbits32`: the bits below `i`, from the highest down to bit `stop`.
pub bits_down : ℕ → ℕ → ℕ → List ℕ
bits_down u stop zero = []
bits_down u stop (suc i) =
    let rest = bits_down u stop i in if leb (suc i) stop then [] else bit_char u i ∷ rest

abbrev pub newline : ℕ
newline = 10

-- `prbits32`: the two halves with a space between them, and a line feed.
unfoldable pub prbits32 : ℕ → List ℕ
prbits32 u = bits_down u 16 32 ++ b' ' ∷ bits_down u 0 16 ++ newline ∷ []

-- `print_bits32`.
unfoldable pub print_bits32 : ℕ → List ℕ
print_bits32 u = bits_down u 0 32

-- The loop of `print_cpu_capabilities` from bit `i` on: the names that `cpuCapStrings` has for the set
-- bits. `rounds` bits are left.
pub capabilities_from : {A : Type 0} → (ℕ → Option A) → ℕ → ℕ → ℕ → List A
capabilities_from names cap i zero = []
capabilities_from names cap i (suc rounds) =
    let rest = capabilities_from names cap (i + 1) rounds in
    elim (names i) [ none ↦ rest | some name ↦ if test_bit cap i then name ∷ rest else rest ]

-- `for (i = 0; i < 31; i++)`: the last bit is left out.
unfoldable pub print_cpu_capabilities : {A : Type 0} → (ℕ → Option A) → ℕ → List A
print_cpu_capabilities names cap = capabilities_from names cap 0 31
