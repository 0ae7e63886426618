-- ===== src/SchedShift.antt =====
-- 7-50/sched_pri_shift.c: the tick of the scheduler in units of the time base, and the shift by which it ages priorities.
pub mod Conversion
mod Tests
use mac_os_x_internal.Prelude.{
  ℕ, zero, suc, ◌+◌, ◌-◌, ◌*◌, ◌/◌, ◌^◌, Option, none, some, ltb, ◌==◌, if◌then◌else◌, u32, u64,
}

abbrev pub nsec_per_sec : ℕ
nsec_per_sec = 1000000000

abbrev pub nsec_per_usec : ℕ
nsec_per_usec = 1000

abbrev pub usec_per_sec : ℕ
usec_per_sec = 1000000

abbrev pub basepri_default : ℕ
basepri_default = 31

abbrev pub sched_tick_shift : ℕ
sched_tick_shift = 3

-- What `mach_timebase_info` gives.
pub record TbInfo : Type 0 where
  pub numer : ℕ
  pub denom : ℕ

-- `clock_interval_to_absolutetime_interval`: `*result`, `none` for a division by zero.
unfoldable pub clock_interval_to_absolutetime_interval :
    TbInfo → (interval scale_factor : ℕ) → Option ℕ
clock_interval_to_absolutetime_interval tbinfo interval scale_factor =
    let nanosecs = u64 (interval * scale_factor) in
    let rtclock_sec_divisor = u32 (tbinfo.denom / (tbinfo.numer / nsec_per_sec)) in
    let t64 = nanosecs / nsec_per_sec in
    let result = u64 (t64 * rtclock_sec_divisor) in
    let left = nanosecs - t64 * nsec_per_sec in
    if tbinfo.numer / nsec_per_sec == 0
    then none
    else some (u64 (result + u64 (left * rtclock_sec_divisor) / nsec_per_sec))

-- The loop of `main`: `sched_pri_shift` when it is left, `none` with no fuel.
unfoldable pub shift_loop : (fuel : ℕ) → (abstime sched_pri_shift : ℕ) → Option ℕ
shift_loop zero abstime sched_pri_shift = none
shift_loop (suc fuel) abstime sched_pri_shift =
    let rest = shift_loop fuel (abstime / 2) (sched_pri_shift + 1) in
    if ltb basepri_default abstime then rest else some sched_pri_shift

-- A 64-bit number is shifted out after as many turns.
abbrev pub turns : ℕ
turns = 64

-- `main`: `sched_tick_interval` and `sched_pri_shift`, `none` for a division by zero.
unfoldable pub main : TbInfo → Option (ℕ × ℕ)
main tbinfo =
    elim (clock_interval_to_absolutetime_interval tbinfo (usec_per_sec / 2 ^ sched_tick_shift)
      nsec_per_usec) [
        | none ↦ none
        | some abstime ↦ elim (shift_loop turns (u64 (abstime * 5) / 3) 0) [
          | none ↦ none
          | some sched_pri_shift ↦ some (u32 abstime, sched_pri_shift)
        ]
      ]
