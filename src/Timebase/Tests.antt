-- ===== src/Timebase/Tests.antt =====
-- 3-9/timebase.c at concrete inputs.
use mac_os_x_internal.Prelude.{◌+◌, ◌*◌, ◌-◌, ◌^◌, ◌≡◌, [], ◌∷◌, some, refl, arith}
use mac_os_x_internal.Timebase.{Turn, mftb32}
use mac_os_x_internal.Timebase.Halves.{IsRunning, WasRead, mftb32-WasRead}

-- The lower half wraps around between the first two reads.
abbrev carried : Turn
carried = record { at_mftbu = 2 ^ 32 - 1; at_mftb = 2 ^ 32; at_second_mftbu = 2 ^ 32 + 1 }

abbrev steady : Turn
steady = record { at_mftbu = 2 ^ 32 + 5; at_mftb = 2 ^ 32 + 6; at_second_mftbu = 2 ^ 32 + 7 }

carried-IsRunning : IsRunning carried
carried-IsRunning = (omega arith, omega arith, omega arith)

steady-IsRunning : IsRunning steady
steady-IsRunning = (omega arith, omega arith, omega arith)

two_turns : mftb32 (carried ∷ steady ∷ []) ≡ some (1, 6)
unfolding mftb32
two_turns = refl

mftb32-WasRead_example : WasRead (1 * 2 ^ 32 + 6) (carried ∷ steady ∷ [])
mftb32-WasRead_example =
    mftb32-WasRead (carried ∷ steady ∷ []) 1 6 (carried-IsRunning, (steady-IsRunning, tt)) two_turns
