-- ===== src/Timebase.antt =====
-- 3-9/timebase.c: reads the 64-bit time base, on a 32-bit processor in two halves.
pub mod Halves
mod Tests
use mac_os_x_internal.Prelude.{
  ℕ, ◌+◌, ◌*◌, ◌/◌, ◌%◌, ◌^◌, Bool, List, [], ◌∷◌, Option, none, some, ◌==◌, if◌then◌else◌,
}

-- What the time base holds when each of the three instructions of a turn reads it.
pub record Turn : Type 0 where
  pub at_mftbu : ℕ
  pub at_mftb : ℕ
  pub at_second_mftbu : ℕ

-- `mftbu` and `mftb` of a 32-bit processor: the upper and the lower half.
abbrev pub mftbu : ℕ → ℕ
mftbu t = t / 2 ^ 32

abbrev pub lower_mftb : ℕ → ℕ
lower_mftb t = t % 2 ^ 32

-- `mftb64`, for what the time base holds.
unfoldable pub mftb64 : ℕ → ℕ
mftb64 t = t

-- `mftb32`: the values of `*u` and `*l`, `none` while the loop goes on.
unfoldable pub mftb32 : List Turn → Option (ℕ × ℕ)
mftb32 [] = none
mftb32 (turn ∷ turns) =
    let rest = mftb32 turns in
    let u = mftbu turn.at_mftbu in
    let l = lower_mftb turn.at_mftb in
    let tmp = mftbu turn.at_second_mftbu in if tmp == u then some (u, l) else rest

-- The arguments of `printf` after the format "%llx %x%08x".
pub record Printed : Type 0 where
  pub tb64 : ℕ
  pub first_half : ℕ
  pub second_half : ℕ

unfoldable pub main : ℕ → List Turn → Option Printed
main t turns = elim (mftb32 turns) [
  | none ↦ none
  | some (tb32u, tb32l) ↦ some (record { tb64 = mftb64 t; first_half = tb32l; second_half = tb32u })
]

-- The number that the two halves show, the second one with eight digits.
abbrev pub shown_halves : Printed → ℕ
shown_halves p = p.first_half * 2 ^ 32 + p.second_half
