-- ===== src/SchedShift/Tests.antt =====
-- 7-50/sched_pri_shift.c at concrete inputs.
use mac_os_x_internal.Prelude.{ℕ, ◌≡◌, some, none, refl, arith}
use mac_os_x_internal.SchedShift.{TbInfo, main, clock_interval_to_absolutetime_interval, shift_loop}
use mac_os_x_internal.SchedShift.Conversion.{
  IsLeast, main-IsLeast, clock_interval_to_absolutetime_interval-exact,
}

-- A time base of 33 MHz.
abbrev power_mac : TbInfo
power_mac = record { numer = 1000000000; denom = 33333333 }

-- Where the time base counts nanoseconds, the code divides by zero.
abbrev other_mac : TbInfo
other_mac = record { numer = 1; denom = 1 }

power_mac_lem : main power_mac ≡ some (4166666, 18)
unfolding main clock_interval_to_absolutetime_interval shift_loop
power_mac_lem = refl

other_mac_lem : main other_mac ≡ none
unfolding main clock_interval_to_absolutetime_interval
other_mac_lem = refl

main-IsLeast_example :
    (shift : ℕ) × (main power_mac ≡ some (4166666, shift)) × IsLeast 6944443 shift
main-IsLeast_example = main-IsLeast power_mac (omega arith) (omega arith)

clock_interval_to_absolutetime_interval-exact_example :
    clock_interval_to_absolutetime_interval power_mac 5000 1000000 ≡ some 166666665
clock_interval_to_absolutetime_interval-exact_example =
    clock_interval_to_absolutetime_interval-exact power_mac 5000 1000000 (omega arith) (omega arith)
      (omega arith) (omega arith) (omega arith)
